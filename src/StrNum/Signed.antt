-- ===== src/StrNum/Signed.antt =====
-- em_strtol2 of src/string.c against the integer that a signed digit string stands for.
use emlib.Prelude.{
  ℕ, ◌+◌, ◌≡◌, refl, Option, some, Bool, true, false, leb, ◌==◌, ◌||◌, if◌then◌else◌, arith,
  Bool-cases, inl, inr, [], ◌∷◌, ◌++◌, All, Bytes,
}
use emlib.Prelude.Int.{ℤ, pos, negsuc, neg}
use emlib.StrNum.{
  Ctype, ParseStatus, succ, etoobig, etoosmall, max_ulong, max_long, strltrim, strtoul3, strtol2,
  written, with_sign,
}
use emlib.StrNum.Digits.{IsAscii}
use emlib.StrNum.Parse.{
  digits_value, IsDigit, IsSpace, EndsNumber, limited, strltrim-append, strltrim-digit,
  strtoul3_lem,
}

-- An integer within the limits of a long, or the limit that it passes.
abbrev pub clamped : Bool → ℕ → ParseStatus × Option ℤ
clamped false n = if leb n max_long then (succ, some (pos n)) else (etoobig, some (pos max_long))
clamped true n =
    if leb n (max_long + 1) then (succ, some (neg (pos n))) else (etoosmall, some (negsuc max_long))

with_sign-limited :
    (negative : Bool) (n : ℕ) → with_sign negative (written (limited n)) ≡ clamped negative n
with_sign-limited true n = elim (Bool-cases (leb n max_ulong)) [
  | inl fits ↦ rw fits (ground arith)
  | inr over ↦ rw over (ground arith)
]
with_sign-limited false n = elim (Bool-cases (leb n max_ulong)) [
  | inl fits ↦ rw fits (ground arith)
  | inr over ↦ rw over (ground arith)
]

-- The text of a sign.
pub data Sign : Type 0 where
  unsigned : Sign
  plus : Sign
  minus : Sign

abbrev pub sign_text : Sign → Bytes
sign_text unsigned = []
sign_text plus = 43 ∷ []
sign_text minus = 45 ∷ []

abbrev pub is_minus : Sign → Bool
is_minus unsigned = false
is_minus plus = false
is_minus minus = true

trim_nil : (ct : Ctype) → strltrim ct [] ≡ []
unfolding strltrim
trim_nil ct = refl

no_sign : (d : ℕ) → IsDigit d → (d == 43 || d == 45) ≡ false
no_sign d h = ground arith

digits_only :
    (ct : Ctype) (d : ℕ) (ds rest : Bytes)
    → IsAscii ct
    → All IsDigit (d ∷ ds)
    → EndsNumber rest
    → strtoul3 ct ((d ∷ ds) ++ rest) 10 ≡ written (limited (digits_value 0 (d ∷ ds)))
digits_only ct d ds rest a digits e =
    (strtoul3_lem ct [] d ds rest [] a tt digits e tt (trim_nil ct)).0

-- em_strtol2 of spaces, a sign or none, a string of digits and what ends it, gives the integer that
-- these stand for if a long of 32 bits holds it; else EM_ETOOBIG with EM_MAXLONG or EM_ETOOSMALL with
-- EM_MINLONG, by the sign.
pub strtol2-clamped :
    (ct : Ctype) (spaces : Bytes) (sign : Sign) (d : ℕ) (ds rest : Bytes)
    → IsAscii ct
    → All IsSpace spaces
    → All IsDigit (d ∷ ds)
    → EndsNumber rest
    → strtol2 ct (spaces ++ (sign_text sign ++ ((d ∷ ds) ++ rest)))
      ≡ clamped (is_minus sign) (digits_value 0 (d ∷ ds))
unfolding strtol2
strtol2-clamped ct spaces unsigned d ds rest a s digits e =
    rw
      (
        strltrim-append ct spaces (d ∷ (ds ++ rest)) a s,
        strltrim-digit ct d (ds ++ rest) a (ground arith),
        no_sign d digits.0,
        digits_only ct d ds rest a digits e,
      )
      (with_sign-limited false (digits_value 0 (d ∷ ds)))
strtol2-clamped ct spaces plus d ds rest a s digits e =
    rw
      (
        strltrim-append ct spaces (43 ∷ (d ∷ (ds ++ rest))) a s,
        strltrim-digit ct 43 (d ∷ (ds ++ rest)) a refl,
        digits_only ct d ds rest a digits e,
      )
      (with_sign-limited false (digits_value 0 (d ∷ ds)))
strtol2-clamped ct spaces minus d ds rest a s digits e =
    rw
      (
        strltrim-append ct spaces (45 ∷ (d ∷ (ds ++ rest))) a s,
        strltrim-digit ct 45 (d ∷ (ds ++ rest)) a refl,
        digits_only ct d ds rest a digits e,
      )
      (with_sign-limited true (digits_value 0 (d ∷ ds)))
