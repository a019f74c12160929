-- ===== src/AddrParse/Port.antt =====
-- The port of the text of an address, as em_sockaddr_parse2 of src/sock_common.c reads it.
use emlib.Prelude.{
  ℕ, ◌+◌, ◌-◌, ◌*◌, ◌%◌, ◌≤◌, ◌<◌, ◌≡◌, refl, ◌∙◌, true, false, some, none, [], ◌∷◌, ◌++◌, Bytes,
  ltb, if◌then◌else◌, arith, Bool-cases, inl, inr, All,
}
use emlib.StrNum.{Ctype, word, strtoul_from}
use emlib.StrNum.Digits.{IsAscii, digit_char}
use emlib.StrNum.Parse.{digits_value, digits_value-ge, IsDigit}
use emlib.AddrParse.{all_digits, parse_port}

all_digits-of : (ct : Ctype) (ds : Bytes) → IsAscii ct → All IsDigit ds → all_digits ct ds ≡ true
unfolding all_digits
all_digits-of ct [] a h = refl
all_digits-of ct (c ∷ cs) a h = rw (a.digit c ∙ h.0) (all_digits-of ct cs a h.1)

-- em_strtoul of digits
strtoul-Reads_digits :
    (ct : Ctype) (ds : Bytes) (v : ℕ)
    → IsAscii ct
    → All IsDigit ds
    → digits_value v ds < word
    → strtoul_from ct v ds ≡ digits_value v ds
unfolding strtoul_from
strtoul-Reads_digits ct [] v a h small = refl
strtoul-Reads_digits ct (c ∷ cs) v a h small =
    let bound = digits_value-ge cs (v * 10 + (c - 48)) in
    let digit : digit_char c ≡ true = h.0 in
    let high : 48 ≤ c = ground arith in
    let step : (v * 10 + c + word - 48) % word ≡ v * 10 + (c - 48) = omega arith in
    rw (a.digit c ∙ digit) rw step (strtoul-Reads_digits ct cs (v * 10 + (c - 48)) a h.1 small)

-- Digits of a number below 2 ^ 64 are a port if it is below 65536.
pub parse_port-Reads_digits :
    (ct : Ctype) (ds : Bytes)
    → IsAscii ct
    → All IsDigit ds
    → digits_value 0 ds < word
    → parse_port ct ds ≡ (if ltb 65535 (digits_value 0 ds) then none else some (digits_value 0 ds))
parse_port-Reads_digits ct ds a h small =
    rw (all_digits-of ct ds a h) rw (strtoul-Reads_digits ct ds 0 a h small) refl

not-all_digits :
    (ct : Ctype) (ds : Bytes) (c : ℕ) (rest : Bytes)
    → IsAscii ct
    → digit_char c ≡ false
    → all_digits ct (ds ++ (c ∷ rest)) ≡ false
unfolding all_digits
not-all_digits ct [] c rest a other = rw (a.digit c ∙ other) refl
not-all_digits ct (d ∷ ds) c rest a other = elim (Bool-cases (ct.isdigit d)) [
  | inl e ↦ rw e (not-all_digits ct ds c rest a other)
  | inr ne ↦ rw ne refl
]

-- Anything but digits is refused.
pub parse_port-refuses :
    (ct : Ctype) (ds : Bytes) (c : ℕ) (rest : Bytes)
    → IsAscii ct
    → digit_char c ≡ false
    → parse_port ct (ds ++ (c ∷ rest)) ≡ none
parse_port-refuses ct ds c rest a other = rw (not-all_digits ct ds c rest a other) refl
