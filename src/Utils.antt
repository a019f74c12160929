-- ===== src/Utils.antt =====
-- The conversions of src/utils.c between bytes in BCD and their hexadecimal characters. An array is
-- the list of its bytes; `none` stands for undefined behaviour.
pub mod Bcd
pub mod Crc
mod Tests
use emlib.Prelude.{
  ℕ, zero, suc, ◌*◌, ◌/◌, ◌%◌, ◌-◌, Option, none, some, Bool, List, [], ◌∷◌, Bytes, leb,
  if◌then◌else◌, get_elem?,
}
use Prim.Native.Nat.{bit_or}

-- The functions of the C library on characters.
pub record Letters : Type 0 where
  pub isupper : ℕ → Bool
  pub islower : ℕ → Bool
  pub isdigit : ℕ → Bool

abbrev pub bcd2ascii : List ℕ
bcd2ascii = 48 ∷ 49 ∷ 50 ∷ 51 ∷ 52 ∷ 53 ∷ 54 ∷ 55 ∷ 56 ∷ 57 ∷ 97 ∷ 98 ∷ 99 ∷ 100 ∷ 101 ∷ 102 ∷ []

-- `ascii2bcd1`, and `ascii2bcd2` and `ascii2bcd3`, which are equal
abbrev pub ascii2bcd1 : List ℕ
ascii2bcd1 = 0 ∷ 1 ∷ 2 ∷ 3 ∷ 4 ∷ 5 ∷ 6 ∷ 7 ∷ 8 ∷ 9 ∷ []

abbrev pub ascii2bcd2 : List ℕ
ascii2bcd2 = 10 ∷ 11 ∷ 12 ∷ 13 ∷ 14 ∷ 15 ∷ []

-- The value that is looked up for a character: undefined behind the end of a table, and no value for
-- what is neither a letter nor a digit.
pub data Lookup : Type 0 where
  out_of_table : Lookup
  no_digit : Lookup
  digit : ℕ → Lookup

abbrev pub looked_up : Option ℕ → Lookup
looked_up none = out_of_table
looked_up (some v) = digit v

abbrev pub lookup : Letters → ℕ → Lookup
lookup ct a =
    if ct.isupper a
    then looked_up (get_elem? ascii2bcd2 (a - 65))
    else if ct.isdigit a
    then looked_up (get_elem? ascii2bcd1 (a - 48))
    else if ct.islower a
    then looked_up (get_elem? ascii2bcd2 (a - 97))
    else no_digit

-- The two halves of a round, on the byte `c` that is kept from the round before.
abbrev pub first_half : ℕ → Lookup → Option ℕ
first_half c out_of_table = none
first_half c no_digit = some c
first_half c (digit v) = some (v * 16 % 256)

abbrev pub second_half : Option ℕ → Lookup → Option ℕ
second_half none l = none
second_half (some c) out_of_table = none
second_half (some c) no_digit = some c
second_half (some c) (digit v) = some (bit_or c v)

abbrev pub then_rest : Option ℕ → (ℕ → Option Bytes) → Option Bytes
then_rest none rest = none
then_rest (some c) rest = elim (rest c) [ none ↦ none | some r ↦ some (c ∷ r) ]

unfoldable pub asc2bcd_from : Letters → ℕ → ℕ → Bytes → Option Bytes
asc2bcd_from ct c zero asc = some []
asc2bcd_from ct c (suc n) [] = none
asc2bcd_from ct c (suc n) (a ∷ []) = none
asc2bcd_from ct c (suc n) (a ∷ b ∷ asc) =
    then_rest (second_half (first_half c (lookup ct a)) (lookup ct b))
      (λ c'. asc2bcd_from ct c' n asc)

-- `asc2bcd`, the bytes that it writes. The counter is a uint8, which never reaches 256 pairs.
unfoldable pub asc2bcd : Letters → Bytes → ℕ → Option Bytes
asc2bcd ct asc len = if leb (len / 2) 255 then asc2bcd_from ct 0 (len / 2) asc else none

-- `bcd2asc`, the characters that it writes, with the same counter.
abbrev pub put_two : Option ℕ → Option ℕ → Option Bytes → Option Bytes
put_two none lo rest = none
put_two (some hi) none rest = none
put_two (some hi) (some lo) none = none
put_two (some hi) (some lo) (some rest) = some (hi ∷ lo ∷ rest)

unfoldable pub bcd2asc_from : ℕ → Bytes → Option Bytes
bcd2asc_from zero bcd = some []
bcd2asc_from (suc n) [] = none
bcd2asc_from (suc n) (c ∷ bcd) =
    put_two (get_elem? bcd2ascii (c / 16)) (get_elem? bcd2ascii (c % 16)) (bcd2asc_from n bcd)

unfoldable pub bcd2asc : Bytes → ℕ → Option Bytes
bcd2asc bcd len = if leb len 255 then bcd2asc_from len bcd else none
