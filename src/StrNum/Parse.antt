-- ===== src/StrNum/Parse.antt =====
-- em_strtoul3 of src/string.c against the value of a digit string.
use emlib.Prelude.{
  ℕ, ◌+◌, ◌-◌, ◌*◌, ◌≤◌, ◌≡◌, refl, ap, ◌∙◌, none, some, true, false, ltb, leb, ◌||◌, if◌then◌else◌,
  arith, Bool-cases, inl, inr, [], ◌∷◌, ◌++◌, All, Bytes,
}
use emlib.StrNum.{
  Ctype, ParseStatus, succ, einval, etoobig, max_ulong, strltrim, add_digit, decimal3, is_bad_start,
  strtoul3, written,
}
use emlib.StrNum.Digits.{IsAscii, digit_char, space_char}

-- The number that a string of digits stands for, behind the digits of v.
abbrev pub digits_value : ℕ → Bytes → ℕ
digits_value v [] = v
digits_value v (c ∷ cs) = digits_value (v * 10 + (c - 48)) cs

abbrev pub IsDigit : ℕ → Type 0
IsDigit c = digit_char c ≡ true

abbrev pub IsSpace : ℕ → Type 0
IsSpace c = space_char c ≡ true

-- The string does not begin with a digit.
abbrev pub EndsNumber : Bytes → Type 0
EndsNumber [] = Unit
EndsNumber (c ∷ cs) = digit_char c ≡ false

pub digits_value-ge : (ds : Bytes) (v : ℕ) → v ≤ digits_value v ds
digits_value-ge [] v = omega arith
digits_value-ge (c ∷ cs) v = omega (arith, digits_value-ge cs (v * 10 + (c - 48)))

add_digit_lem :
    (v c : ℕ)
    → v ≤ max_ulong
    → c ≤ 9
    → add_digit 10 v c ≡ (if leb (v * 10 + c) max_ulong then some (v * 10 + c) else none)
add_digit_lem v c small digit = ground arith

-- What the number is, or that it is too large.
abbrev pub limited : ℕ → ParseStatus × ℕ
limited n = if leb n max_ulong then (succ, n) else (etoobig, max_ulong)

in_range : (c : ℕ) → IsDigit c → (ltb c 48 || ltb (47 + 10) c) ≡ false
in_range c d = ground arith

decimal3-limited :
    (ds rest : Bytes) (v : ℕ)
    → All IsDigit ds
    → EndsNumber rest
    → v ≤ max_ulong
    → decimal3 10 v (ds ++ rest) ≡ limited (digits_value v ds)
unfolding decimal3
decimal3-limited [] [] v a e small = ground arith
decimal3-limited [] (c ∷ cs) v a e small = ground arith
decimal3-limited (c ∷ ds) rest v a e small = elim (Bool-cases (leb (v * 10 + (c - 48)) max_ulong)) [
  | inl fits ↦
      rw (in_range c a.0, add_digit_lem v (c - 48) small (ground arith), fits)
        (decimal3-limited ds rest (v * 10 + (c - 48)) a.1 e (ground arith))
  | inr over ↦
      rw (in_range c a.0, add_digit_lem v (c - 48) small (ground arith), over)
        (ground (arith, digits_value-ge ds (v * 10 + (c - 48))))
]

pub strltrim-append :
    (ct : Ctype) (spaces rest : Bytes)
    → IsAscii ct
    → All IsSpace spaces
    → strltrim ct (spaces ++ rest) ≡ strltrim ct rest
unfolding strltrim
strltrim-append ct [] rest a s = refl
strltrim-append ct (c ∷ cs) rest a s = rw (a.space c ∙ s.0) (strltrim-append ct cs rest a s.1)

pub strltrim-digit :
    (ct : Ctype) (c : ℕ) (cs : Bytes)
    → IsAscii ct
    → space_char c ≡ false
    → strltrim ct (c ∷ cs) ≡ c ∷ cs
unfolding strltrim
strltrim-digit ct c cs a no_space = rw (a.space c ∙ no_space) refl

good_start : (ct : Ctype) (c : ℕ) (cs : Bytes) → IsDigit c → is_bad_start ct (c ∷ cs) 10 ≡ false
good_start ct c cs d = ground arith

bad_start : (ct : Ctype) (s : Bytes) → EndsNumber s → is_bad_start ct s 10 ≡ true
bad_start ct [] e = refl
bad_start ct (c ∷ cs) e = ground arith

-- em_strtoul3 with base 10 of spaces, a string of digits and what ends it, gives the number if it is
-- at most EM_MAXULONG, and else EM_ETOOBIG with EM_MAXULONG; for spaces and a text that begins with
-- neither a space nor a digit it
-- gives EM_EINVAL and writes nothing.
pub strtoul3_lem :
    (ct : Ctype) (spaces : Bytes) (d : ℕ) (ds rest other : Bytes)
    → IsAscii ct
    → All IsSpace spaces
    → All IsDigit (d ∷ ds)
    → EndsNumber rest
    → EndsNumber other
    → (strltrim ct other ≡ other)
    → (strtoul3 ct (spaces ++ ((d ∷ ds) ++ rest)) 10 ≡ written (limited (digits_value 0 (d ∷ ds))))
      × (strtoul3 ct (spaces ++ other) 10 ≡ (einval, none))
unfolding strtoul3
strtoul3_lem ct spaces d ds rest other a s digits e e' trimmed = (
  rw
      (
        strltrim-append ct spaces ((d ∷ ds) ++ rest) a s,
        strltrim-digit ct d (ds ++ rest) a (ground arith),
        good_start ct d (ds ++ rest) digits.0,
      )
      (ap written (decimal3-limited (d ∷ ds) rest 0 digits e (omega arith))),
  rw (strltrim-append ct spaces other a s, trimmed, bad_start ct other e') refl,
)
