-- ===== src/Str/Trim.antt =====
-- em_strltrim and em_strrtrim of src/string.c, and em_strtrim.
use emlib.Prelude.{
  ℕ, zero, suc, ◌+◌, ◌≤◌, ◌<◌, ◌≡◌, refl, sym, ap, ◌∙◌, true, false, [], ◌∷◌, ◌++◌, Bytes, arith,
  All, length, length-append, take-append_self, append_assoc, append-nil,
}
use emlib.StrNum.{Ctype, strltrim}
use emlib.Str.{byte_at, rtrim_length, strrtrim, strtrim}

abbrev pub Spaces : Ctype → Bytes → Type 0
Spaces ct s = All (λ c. ct.isspace c ≡ true) s

-- The string is empty or begins with something else than a space.
abbrev pub StartsText : Ctype → Bytes → Type 0
StartsText ct [] = Unit
StartsText ct (c ∷ cs) = ct.isspace c ≡ false

strltrim-Spaces :
    (ct : Ctype) (sp rest : Bytes)
    → Spaces ct sp
    → StartsText ct rest
    → strltrim ct (sp ++ rest) ≡ rest
unfolding strltrim
strltrim-Spaces ct [] [] h t = refl
strltrim-Spaces ct [] (c ∷ cs) h t = rw t refl
strltrim-Spaces ct (c ∷ sp) rest h t = rw h.0 (strltrim-Spaces ct sp rest h.1 t)

byte_at-append : (m : Bytes) (d : ℕ) (rest : Bytes) → byte_at (m ++ (d ∷ rest)) (length m) ≡ d
byte_at-append [] d rest = refl
byte_at-append (c ∷ m) d rest = byte_at-append m d rest

space_at :
    (ct : Ctype) (m sp : Bytes) (i k : ℕ)
    → Spaces ct sp
    → i < length sp
    → k ≡ length m + i
    → ct.isspace (byte_at (m ++ sp) k) ≡ true
space_at ct [] [] i k h l e = absurd (omega arith)
space_at ct [] (c ∷ sp) zero zero h l e = h.0
space_at ct [] (c ∷ sp) zero (suc k) h l e = absurd (omega arith)
space_at ct [] (c ∷ sp) (suc i) zero h l e = absurd (omega arith)
space_at ct [] (c ∷ sp) (suc i) (suc k) h l e =
    space_at ct [] sp i k h.1 (omega arith) (omega arith)
space_at ct (c ∷ m) sp i zero h l e = absurd (omega arith)
space_at ct (c ∷ m) sp i (suc k) h l e = space_at ct m sp i k h l (omega arith)

-- The loop goes down over the spaces.
rtrim-Spaces :
    (ct : Ctype) (m sp : Bytes) (j k : ℕ)
    → Spaces ct sp
    → j ≤ length sp
    → k ≡ length m + j
    → rtrim_length ct (m ++ sp) k ≡ rtrim_length ct (m ++ sp) (length m)
unfolding rtrim_length
rtrim-Spaces ct m sp zero k h l e = ap (rtrim_length ct (m ++ sp)) (omega arith)
rtrim-Spaces ct m sp (suc j) zero h l e = absurd (omega arith)
rtrim-Spaces ct m sp (suc j) (suc k) h l e =
    rw (space_at ct m sp j k h (omega arith) (omega arith))
      (rtrim-Spaces ct m sp j k h (omega arith) (omega arith))

rtrim_stop :
    (ct : Ctype) (m : Bytes) (d : ℕ) (sp : Bytes) (k : ℕ)
    → ct.isspace d ≡ false
    → k ≡ suc (length m)
    → rtrim_length ct (m ++ (d ∷ sp)) k ≡ suc (length m)
unfolding rtrim_length
rtrim_stop ct m d sp k t e = rw (e, byte_at-append m d sp, t) refl

strrtrim-text :
    (ct : Ctype) (m : Bytes) (d : ℕ) (sp : Bytes)
    → Spaces ct sp
    → ct.isspace d ≡ false
    → strrtrim ct ((m ++ (d ∷ [])) ++ sp) ≡ m ++ (d ∷ [])
strrtrim-text ct m d sp h t =
    let core = m ++ (d ∷ []) in
    let size : length core ≡ suc (length m) = omega (arith, length-append m (d ∷ [])) in
    let down =
      rtrim-Spaces ct core sp (length sp) (length (core ++ sp)) h (omega arith)
        (length-append core sp) in
    let stop : rtrim_length ct (core ++ sp) (length core) ≡ length core =
      ap (λ l. rtrim_length ct l (length core)) (append_assoc m (d ∷ []) sp)
      ∙ rtrim_stop ct m d sp (length core) t size
      ∙ sym size in
    take-append_self core sp (rtrim_length ct (core ++ sp) (length (core ++ sp))) (down ∙ stop)

-- em_strtrim of spaces, a text that neither begins nor ends with a space, and spaces, leaves the
-- text; of spaces alone it leaves nothing.
pub strtrim_lem :
    (ct : Ctype) (before m : Bytes) (d : ℕ) (after : Bytes)
    → Spaces ct before
    → StartsText ct (m ++ (d ∷ []))
    → ct.isspace d ≡ false
    → Spaces ct after
    → (strtrim ct (before ++ ((m ++ (d ∷ [])) ++ after)) ≡ m ++ (d ∷ [])) × (strtrim ct before ≡ [])
unfolding rtrim_length
strtrim_lem ct before m d after hb s t ha = (
  ap (strrtrim ct) (strltrim-Spaces ct before ((m ++ (d ∷ [])) ++ after) hb (starts m s))
      ∙ strrtrim-text ct m d after ha t,
  ap (strrtrim ct)
      (ap (strltrim ct) (sym (append-nil before)) ∙ strltrim-Spaces ct before [] hb tt),
)
  where
    starts : (m : Bytes) → StartsText ct (m ++ (d ∷ [])) → StartsText ct ((m ++ (d ∷ [])) ++ after)
    starts [] h = h
    starts (c ∷ m) h = h
