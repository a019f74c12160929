-- ===== src/Errno/Ranges.antt =====
-- What em_strerror of src/errno.c leaves for the codes of each range.
use emlib.Prelude.{
  ℕ, ◌-◌, ◌≤◌, ◌<◌, ◌≡◌, ◌≢◌, ◌⊎◌, refl, ap, subst, none, some, List, [], ◌∷◌, ◌++◌, Bytes, arith,
  ltb, ◌==◌, Bool-cases, inl, inr, length, All, All-right,
}
use emlib.Prelude.Int.{ℤ, pos, negsuc, ◌-ℤ◌}
use emlib.Errno.{
  Handler, Printer, success, unknown, emlib_text, platform_text, handler_text, in_range,
  find_handler, strerror_from_0, strerror, errno_start_sys,
}
use emlib.Errno.Table.{success_text}
use emlib.Errno.Text.{
  CTexts, Answer, Written, err_str, unknown_error, unknown_emlib_error, lookup, print, em_strerror,
}
use emlib.Errno.Printed.{Shows, snprintf-Shows, not_cut-Shows, copied-Shows}

-- The C library's strerror knows a text that is not empty for every code.
pub record HasTexts (t : CTexts) : Type 0 where
  pub text : (code : ℤ) → Bytes
  pub found : (code : ℤ) → t.os_strerror code ≡ some (text code)
  pub nonempty : (code : ℤ) → 0 < length (text code)

abbrev Covers : Handler → ℕ → Type 0
Covers h code = (h.begin ≤ code) × (code < h.end)

-- What em_strerror leaves, by the ranges of the codes that include/em/errno.h documents.
pub data Printed (t : CTexts) (answer : Answer) (hs : List Handler) (mem : Bytes) (size : ℕ)
    (w : Written) : ℤ → Type 0 where
  of_success : Shows size success_text w → Printed t answer hs mem size w (pos 0)
  of_negative :
      (n : ℕ)
      → Shows size (unknown_error t (negsuc n)) w
      → Printed t answer hs mem size w (negsuc n)
  of_low :
      (c : ℕ)
      → 0 < c
      → c < 70000
      → Shows size (unknown_error t (pos c)) w
      → Printed t answer hs mem size w (pos c)
  of_table :
      (c : ℕ) (before after : List (ℕ × Bytes)) (msg : Bytes)
      → 70000 ≤ c
      → c < 120000
      → err_str ≡ before ++ ((c, msg) ∷ after)
      → All (λ e. e.0 ≢ c) before
      → Shows size msg w
      → Printed t answer hs mem size w (pos c)
  of_no_entry :
      (c : ℕ)
      → 70000 ≤ c
      → c < 120000
      → All (λ e. e.0 ≢ c) err_str
      → Shows size (unknown_emlib_error t (pos c)) w
      → Printed t answer hs mem size w (pos c)
  of_system :
      (c : ℕ) (text : Bytes)
      → 120000 ≤ c
      → c < 170000
      → t.os_strerror (pos (c - 120000)) ≡ some text
      → Shows size text w
      → Printed t answer hs mem size w (pos c)
  of_handler :
      (c : ℕ) (before after : List Handler) (h : Handler)
      → 170000 ≤ c
      → hs ≡ before ++ (h ∷ after)
      → All (λ g. ¬ Covers g c) before
      → Covers h c
      → w ≡ answer h.strerror (pos c) mem size
      → Printed t answer hs mem size w (pos c)
  of_no_handler :
      (c : ℕ)
      → 170000 ≤ c
      → All (λ g. ¬ Covers g c) hs
      → Shows size (unknown_error t (pos c)) w
      → Printed t answer hs mem size w (pos c)

-- The entry that a lookup finds, or that there is none.
lookup_cases :
    (es : List (ℕ × Bytes)) (c : ℕ)
    → ((before : List (ℕ × Bytes)) × (after : List (ℕ × Bytes)) × (msg : Bytes) × (lookup es c
          ≡ some msg)
        × (es ≡ before ++ ((c, msg) ∷ after))
        × All (λ e. e.0 ≢ c) before)
      ⊎ ((lookup es c ≡ none) × All (λ e. e.0 ≢ c) es)
lookup_cases [] c = inr (refl, tt)
lookup_cases (e ∷ es) c = elim (Bool-cases (e.0 == c)) [
  | inl same ↦
      let first : e.0 ≡ c = ground arith in
      inl ([], es, e.1, rw same refl, ap (λ k. (k, e.1) ∷ es) first, tt)
  | inr other ↦
      let differs : ◌≢◌ {A = ℕ} e.0 c = λ q. ground arith in
      elim (lookup_cases es c) [
        | inl (before, after, msg, f, split, away) ↦
            inl (e ∷ before, after, msg, rw other f, ap (λ l. e ∷ l) split, (differs, away))
        | inr (f, away) ↦ inr (rw other f, (differs, away))
      ]
]

find_handler_cases :
    (hs : List Handler) (c : ℕ)
    → ((before : List Handler) × (after : List Handler) × (h : Handler) × (find_handler hs c
          ≡ handler_text h.strerror)
        × (hs ≡ before ++ (h ∷ after))
        × All (λ g. ¬ Covers g c) before
        × Covers h c)
      ⊎ ((find_handler hs c ≡ unknown) × All (λ g. ¬ Covers g c) hs)
find_handler_cases [] c = inr (refl, tt)
find_handler_cases (h ∷ hs) c = elim (Bool-cases (in_range c h.begin h.end)) [
  | inl e ↦ inl ([], hs, h, rw e refl, refl, tt, (ground arith, ground arith))
  | inr e ↦
      let outside : ¬ Covers h c = λ k. let (a, b) = k in ground arith in
      elim (find_handler_cases hs c) [
        | inl (before, after, g, f, split, away, at) ↦
            inl (h ∷ before, after, g, rw e f, ap (λ l. h ∷ l) split, (outside, away), at)
        | inr (f, away) ↦ inr (rw e f, (outside, away))
      ]
]

-- The table has no empty text.
err_str-nonempty : All (λ e. 0 < length e.1) err_str
unfolding err_str
err_str-nonempty = ground arith

entry-nonempty :
    (c : ℕ) (before after : List (ℕ × Bytes)) (msg : Bytes)
    → err_str ≡ before ++ ((c, msg) ∷ after)
    → 0 < length msg
entry-nonempty c before after msg split =
    let of_all : List (ℕ × Bytes) → Type 0 = All (λ e. 0 < length e.1) in
    (All-right (λ e. 0 < length e.1) before ((c, msg) ∷ after)
      (subst of_all split err_str-nonempty)).0

unknown-nonempty : (t : CTexts) (code : ℤ) → 0 < length (unknown_error t code)
unknown-nonempty t code = omega arith

unknown_emlib-nonempty : (t : CTexts) (code : ℤ) → 0 < length (unknown_emlib_error t code)
unknown_emlib-nonempty t code = omega arith

system_code : (c : ℕ) → 120000 ≤ c → pos c -ℤ pos errno_start_sys ≡ pos (c - 120000)
unfolding ◌-ℤ◌
system_code c h = ground arith

module _ (t : CTexts) (answer : Answer) (hs : List Handler) (mem : Bytes) (size : ℕ)
    (h : HasTexts t) (room : 0 < size) (inside : size ≤ length mem) where
  abbrev Left : ℤ → Printer → Type 0
  Left code p = Printed t answer hs mem size (print t answer code mem size p) code

  low : (c : ℕ) → 0 < c → c < 70000 → Left (pos c) unknown
  low c lo hi =
      of_low c lo hi
        (snprintf-Shows mem size room inside (unknown_error t (pos c)) (unknown-nonempty t (pos c)))

  table : (c : ℕ) → 70000 ≤ c → c < 120000 → Left (pos c) emlib_text
  table c lo hi = elim (lookup_cases err_str c) [
    | inl (before, after, msg, f, split, none_before) ↦ rw f (
        of_table c before after msg lo hi split none_before
          (copied-Shows mem size room inside msg (entry-nonempty c before after msg split)))
    | inr (f, none_there) ↦ rw f (
        of_no_entry c lo hi none_there (
          not_cut-Shows mem size room inside (unknown_emlib_error t (pos c))
            (unknown_emlib-nonempty t (pos c))))
  ]

  system : (c : ℕ) → 120000 ≤ c → c < 170000 → Left (pos c) platform_text
  system c lo hi =
      let code = pos (c - 120000) in
      rw (system_code c lo) rw (h.found code) (
        of_system c (h.text code) lo hi (h.found code)
          (copied-Shows mem size room inside (h.text code) (h.nonempty code)))

  application : (c : ℕ) → 170000 ≤ c → Left (pos c) (find_handler hs c)
  application c lo = elim (find_handler_cases hs c) [
    | inl (before, after, g, f, split, none_before, at) ↦
        rw f (of_handler c before after g lo split none_before at refl)
    | inr (f, none_there) ↦ rw f (
        of_no_handler c lo none_there (
          snprintf-Shows mem size room inside (unknown_error t (pos c))
            (unknown-nonempty t (pos c))))
  ]

  from_0 : (c : ℕ) → Left (pos c) (strerror_from_0 hs c)
  from_0 c = elim (Bool-cases (c == 0)) [
    | inl e ↦
        let zero_code : 0 ≡ c = ground arith in
        rw e (
          subst (λ k. Left (pos k) success) zero_code
            (of_success (snprintf-Shows mem size room inside success_text (omega arith))))
    | inr e ↦ elim (Bool-cases (ltb c 70000)) [
      | inl e1 ↦ rw (e, e1) (low c (ground arith) (ground arith))
      | inr e1 ↦ elim (Bool-cases (ltb c 120000)) [
        | inl e2 ↦ rw (e, e1, e2) (table c (ground arith) (ground arith))
        | inr e2 ↦ elim (Bool-cases (ltb c 170000)) [
          | inl e3 ↦ rw (e, e1, e2, e3) (system c (ground arith) (ground arith))
          | inr e3 ↦ rw (e, e1, e2, e3) (application c (ground arith))
        ]
      ]
    ]
  ]

-- In a buffer of at least one byte, with texts of the system that are not empty, em_strerror leaves a text,
-- cut to what fits before a terminator, with its length: "Success" for 0; "Unknown error" with the
-- code for negative codes and those below 70000; below 120000 the text of the first entry of the table
-- with the code, or "Unknown emlib error" with the code where there is none; below 170000 that of the system for
-- the code less 120000; and above, where no handler covers the code, "Unknown error" with the
-- code. Where one does, it returns what the first of them returns.
pub em_strerror_lem :
    (t : CTexts) (answer : Answer) (hs : List Handler) (code : ℤ) (mem : Bytes) (size : ℕ)
    → HasTexts t
    → 0 < size
    → size ≤ length mem
    → Printed t answer hs mem size (em_strerror t answer hs code mem size) code
unfolding em_strerror strerror
em_strerror_lem t answer hs (pos c) mem size h room inside =
    from_0 t answer hs mem size h room inside c
em_strerror_lem t answer hs (negsuc n) mem size h room inside = of_negative n (
    snprintf-Shows mem size room inside (unknown_error t (negsuc n))
      (unknown-nonempty t (negsuc n)))
