-- ===== src/StrNum/Digits.antt =====
-- The decimal digits of a number, and the characters of the C locale.
use emlib.Prelude.{ℕ, zero, suc, ◌+◌, ◌*◌, ◌/◌, ◌%◌, ◌≤◌, ◌≡◌, ◌&&◌, ◌||◌, Bool, leb, ◌==◌, arith}
use emlib.StrNum.{Ctype}

-- What the C library says of ASCII characters in the C locale.
abbrev pub digit_char : ℕ → Bool
digit_char c = leb 48 c && leb c 57

abbrev pub space_char : ℕ → Bool
space_char c = (c == 32) || (leb 9 c && leb c 13)

abbrev pub xdigit_char : ℕ → Bool
xdigit_char c = digit_char c || (leb 65 c && leb c 70) || (leb 97 c && leb c 102)

pub record IsAscii (ct : Ctype) : Type 0 where
  pub space : (c : ℕ) → ct.isspace c ≡ space_char c
  pub digit : (c : ℕ) → ct.isdigit c ≡ digit_char c
  pub xdigit : (c : ℕ) → ct.isxdigit c ≡ xdigit_char c

-- The number without its last n digits.
abbrev pub without : ℕ → ℕ → ℕ
without val zero = val
without val (suc n) = without val n / 10

pub without-le : (val n : ℕ) → without val n ≤ val
without-le val zero = omega arith
without-le val (suc n) = omega (arith, without-le val n)

-- The character of the digit that n others follow.
abbrev pub digit_at : ℕ → ℕ → ℕ
digit_at val n = without val n % 10 + 48

abbrev pub pow10 : ℕ → ℕ
pow10 zero = 1
pow10 (suc n) = 10 * pow10 n
