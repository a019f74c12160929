-- ===== src/StrNum.antt =====
-- Numbers in text: em_strtoul, em_strtoul2, em_strtoul3, em_strtol, em_strtol2, em_utoa and
-- em_utoa_pad of src/string.c. A string is the list of its bytes; whether char is signed makes no
-- difference to these functions, since bytes from 128 on are no digits either way. An unsigned long
-- has 64 bits.
pub mod Digits
pub mod Parse
pub mod Signed
pub mod Print
pub mod Reverse
mod Tests
use emlib.Prelude.{
  ℕ, zero, suc, ◌+◌, ◌-◌, ◌*◌, ◌/◌, ◌%◌, Option, none, some, Bool, true, false, not, ◌&&◌, ◌||◌,
  List, [], ◌∷◌, Bytes, ltb, leb, ◌==◌, if◌then◌else◌, drop, put_at,
}
use emlib.Prelude.Int.{ℤ, pos, negsuc, neg, sub_ℕ}

-- The functions of the C library on characters.
pub record Ctype : Type 0 where
  pub isspace : ℕ → Bool
  pub isdigit : ℕ → Bool
  pub isxdigit : ℕ → Bool

-- 2 ^ 64 and 2 ^ 32
abbrev pub word : ℕ
word = 18446744073709551616

abbrev pub word32 : ℕ
word32 = 4294967296

-- EM_MAXULONG and EM_MAXLONG, which are those of a 32-bit long
abbrev pub max_ulong : ℕ
max_ulong = 4294967295

abbrev pub max_long : ℕ
max_long = 2147483647

-- `em_hex_digit_to_val`
abbrev pub hex_digit_to_val : ℕ → ℕ
hex_digit_to_val c =
    if leb c 57
    then (c + 256 - 48) % 16
    else if leb c 70
    then (c + 256 - 55) % 16
    else (c + 256 - 87) % 16

-- `em_strltrim`
unfoldable pub strltrim : Ctype → Bytes → Bytes
strltrim ct [] = []
strltrim ct (c ∷ cs) = let rest = strltrim ct cs in if ct.isspace c then rest else c ∷ cs

-- The loop of `em_strtoul`
unfoldable pub strtoul_from : Ctype → ℕ → Bytes → ℕ
strtoul_from ct value [] = value
strtoul_from ct value (c ∷ cs) =
    let rest = strtoul_from ct ((value * 10 + c + word - 48) % word) cs in
    if ct.isdigit c then rest else value

abbrev pub strtoul : Ctype → Bytes → ℕ
strtoul ct str = strtoul_from ct 0 str

-- The loops of `em_strtoul2`: the value, and the rest of the string.
abbrev pub digit_of : ℕ → ℕ
digit_of c = (c + word32 - 48) % word32

unfoldable pub decimal2 : ℕ → ℕ → Bytes → ℕ × Bytes
decimal2 base value [] = (value, [])
decimal2 base value (c ∷ cs) =
    let rest = decimal2 base ((value * base + digit_of c) % word) cs in
    if leb base (digit_of c) then (value, c ∷ cs) else rest

unfoldable pub hexadecimal2 : Ctype → ℕ → Bytes → ℕ × Bytes
hexadecimal2 ct value [] = (value, [])
hexadecimal2 ct value (c ∷ cs) =
    let rest = hexadecimal2 ct ((value * 16 + hex_digit_to_val c) % word) cs in
    if ct.isxdigit c then rest else (value, c ∷ cs)

abbrev pub strtoul2 : Ctype → Bytes → ℕ → ℕ × Bytes
strtoul2 ct str base =
    if leb base 10
    then decimal2 base 0 str
    else if base == 16
    then hexadecimal2 ct 0 str
    else (max_ulong, str)

pub data ParseStatus : Type 0 where
  succ : ParseStatus
  einval : ParseStatus
  etoobig : ParseStatus
  etoosmall : ParseStatus

-- A round of the loops of `em_strtoul3` on the value c of a digit: the new value, or too large.
abbrev pub add_digit : ℕ → ℕ → ℕ → Option ℕ
add_digit base value c =
    if ltb (max_ulong / base) value
    then none
    else if ltb (max_ulong - value * base % word) c
    then none
    else some (value * base % word + c)

abbrev pub after_digit : Option ℕ → (ℕ → ParseStatus × ℕ) → ParseStatus × ℕ
after_digit none continue = (etoobig, max_ulong)
after_digit (some value) continue = continue value

unfoldable pub decimal3 : ℕ → ℕ → Bytes → ParseStatus × ℕ
decimal3 base value [] = (succ, value)
decimal3 base value (c ∷ cs) =
    let rest = after_digit (add_digit base value (c - 48)) (λ v. decimal3 base v cs) in
    if ltb c 48 || ltb (47 + base) c then (succ, value) else rest

unfoldable pub hexadecimal3 : Ctype → ℕ → Bytes → ParseStatus × ℕ
hexadecimal3 ct value [] = (succ, value)
hexadecimal3 ct value (c ∷ cs) =
    let rest = after_digit (add_digit 16 value (hex_digit_to_val c)) (λ v. hexadecimal3 ct v cs) in
    if not (ct.isxdigit c) then (succ, value) else rest

-- The check of the first character in `em_strtoul3`.
abbrev pub is_bad_start : Ctype → Bytes → ℕ → Bool
is_bad_start ct [] base = true
is_bad_start ct (c ∷ cs) base =
    ltb c 48 || (leb base 10 && ltb (47 + base) c) || (base == 16 && not (ct.isxdigit c))

abbrev pub written : ParseStatus × ℕ → ParseStatus × Option ℕ
written r = (r.0, some r.1)

-- `em_strtoul3`: the status, and the value written. Without a supported base 0 is written.
unfoldable pub strtoul3 : Ctype → Bytes → ℕ → ParseStatus × Option ℕ
strtoul3 ct str base =
    let s = strltrim ct str in
    if is_bad_start ct s base
    then (einval, none)
    else if leb base 10
    then written (decimal3 base 0 s)
    else if base == 16
    then written (hexadecimal3 ct 0 s)
    else (einval, some 0)

-- `em_strtol`, where a value of 2 ^ 63 and more is not wrapped by the conversion to long
abbrev pub strtol : Ctype → Bytes → ℤ
strtol ct [] = pos (strtoul ct [])
strtol ct (c ∷ cs) =
    if c == 43
    then pos (strtoul ct cs)
    else if c == 45
    then neg (pos (strtoul ct cs))
    else pos (strtoul ct (c ∷ cs))

-- The end of `em_strtol2`: the status, and the value written.
abbrev pub with_sign : Bool → ParseStatus × Option ℕ → ParseStatus × Option ℤ
with_sign negative (einval, v) = (einval, none)
with_sign negative (etoobig, v) =
    if negative then (etoosmall, some (negsuc max_long)) else (etoobig, some (pos max_long))
with_sign negative (etoosmall, v) =
    if negative then (etoosmall, some (negsuc max_long)) else (etoobig, some (pos max_long))
with_sign negative (succ, none) = (succ, some (pos 0))
with_sign negative (succ, some v) =
    if ltb max_long v && not negative
    then (etoobig, some (pos max_long))
    else if ltb (max_long + 1) v && negative
    then (etoosmall, some (negsuc max_long))
    else (succ, some (if negative then neg (pos v) else pos v))

-- The sign and the rest of the trimmed string.
abbrev pub sign_of : Bytes → Bool × Bytes
sign_of [] = (false, [])
sign_of (c ∷ cs) = if c == 43 || c == 45 then (c == 45, cs) else (false, c ∷ cs)

-- The rest of `em_strtol2`, on the trimmed string.
abbrev pub signed_value : Ctype → Bytes → ParseStatus × Option ℤ
signed_value ct [] = (einval, none)
signed_value ct (c ∷ cs) = let r = sign_of (c ∷ cs) in with_sign r.0 (strtoul3 ct r.1 10)

unfoldable pub strtol2 : Ctype → Bytes → ParseStatus × Option ℤ
strtol2 ct str = signed_value ct (strltrim ct str)

-- The loops of `em_utoa_pad`. The buffer is an array from index 0 on, and the loops return it with
-- the index `p`.
unfoldable pub put_digits : ℕ → ℕ → (ℕ → ℕ) → ℕ → (ℕ → ℕ) × ℕ
put_digits zero val buf p = (buf, p)
put_digits (suc fuel) val buf p =
    let buf' = put_at buf p (val % 10 + 48) in
    let rest = put_digits fuel (val / 10) buf' (p + 1) in
    if ltb 0 (val / 10) then rest else (buf', p + 1)

unfoldable pub put_padding : ℕ → ℕ → (ℕ → ℕ) → ℕ → (ℕ → ℕ) × ℕ
put_padding zero pad buf p = (buf, p)
put_padding (suc n) pad buf p = put_padding n pad (put_at buf p pad) (p + 1)

abbrev pub swap_at : (ℕ → ℕ) → ℕ → ℕ → ℕ → ℕ
swap_at buf lo hi = put_at (put_at buf hi (buf lo)) lo (buf hi)

unfoldable pub swap_ends : ℕ → (ℕ → ℕ) → ℕ → ℕ → ℕ → ℕ
swap_ends zero buf lo hi = buf
swap_ends (suc fuel) buf lo hi =
    let buf' = swap_at buf lo hi in
    let rest = swap_ends fuel buf' (lo + 1) (hi - 1) in if ltb (lo + 1) (hi - 1) then rest else buf'

-- `em_utoa_pad`: the buffer and the length. Twenty rounds are enough for 64 bits.
unfoldable pub utoa_pad : ℕ → (ℕ → ℕ) → ℕ → ℕ → (ℕ → ℕ) × ℕ
utoa_pad val buf min_dig pad =
    let (digits, len) = put_digits 20 val buf 0 in
    let (padded, p) = put_padding (min_dig - len) pad digits len in
    (swap_ends p (put_at padded p 0) 0 (p - 1), p)

abbrev pub utoa : ℕ → (ℕ → ℕ) → (ℕ → ℕ) × ℕ
utoa val buf = utoa_pad val buf 0 0
