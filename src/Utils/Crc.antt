-- ===== src/Utils/Crc.antt =====
-- crc16 of src/utils.c on fewer than 256 bytes. Its int8 is `char`, and whether that is signed
-- is an argument: a signed byte from 128 on is extended with ones.
use emlib.Prelude.{
  ℕ, zero, suc, ◌+◌, ◌/◌, ◌%◌, ◌<◌, ◌≡◌, refl, Bool, true, false, ◌&&◌, [], ◌∷◌, Bytes, All, arith,
  leb, ◌==◌, if◌then◌else◌,
}
use Prim.Native.Nat.{bit_xor}

-- PRESET_VALUE and POLYNOMIAL
abbrev preset_value : ℕ
preset_value = 65535

abbrev polynomial : ℕ
polynomial = 33800

abbrev extended : Bool → ℕ → ℕ
extended signed c = if signed && leb 128 c then c + 65280 else c

-- The inner loop, n rounds of it
unfoldable crc_shifts : ℕ → ℕ → ℕ
crc_shifts zero v = v
crc_shifts (suc n) v = crc_shifts n (if v % 2 == 1 then bit_xor (v / 2) polynomial else v / 2)

-- The outer loop
unfoldable crc_from : Bool → ℕ → Bytes → ℕ
crc_from signed v [] = v
crc_from signed v (c ∷ cs) = crc_from signed (crc_shifts 8 (bit_xor v (extended signed c))) cs

abbrev crc16 : Bool → Bytes → ℕ
crc16 signed bytes = crc_from signed preset_value bytes

-- On bytes below 128 the value does not depend on the machine.
crc_from-plain :
    (v : ℕ) (bytes : Bytes)
    → All (λ c. c < 128) bytes
    → crc_from true v bytes ≡ crc_from false v bytes
unfolding crc_from
crc_from-plain v [] h = refl
crc_from-plain v (c ∷ cs) h =
    let plain : extended true c ≡ c = ground arith in
    rw plain (crc_from-plain (crc_shifts 8 (bit_xor v c)) cs h.1)

-- The bytes "123456789" give the check value of this polynomial, before its last complement.
check_value : crc16 true (49 ∷ 50 ∷ 51 ∷ 52 ∷ 53 ∷ 54 ∷ 55 ∷ 56 ∷ 57 ∷ []) ≡ 28561
unfolding crc_from crc_shifts
check_value = refl

-- The byte 128
signed_differs : (crc16 true (128 ∷ []) == crc16 false (128 ∷ [])) ≡ false
unfolding crc_from crc_shifts
signed_differs = refl
