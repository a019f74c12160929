-- ===== src/StrNum/Tests.antt =====
-- Numbers in text on concrete strings: ASCII, as numbers.
use emlib.Prelude.{ℕ, ◌≡◌, ◌≤◌, ◌<◌, refl, none, some, true, [], ◌∷◌, elements, arith}
use emlib.StrNum.{
  Ctype, succ, einval, etoobig, written, strltrim, strtoul, strtoul3, strtol2, utoa_pad, decimal3,
  hexadecimal3, put_digits, put_padding, swap_ends,
}
use emlib.StrNum.Digits.{IsAscii, digit_char, space_char, xdigit_char}
use emlib.StrNum.Parse.{digits_value, limited, strtoul3_lem}
use emlib.StrNum.Signed.{clamped, minus, strtol2-clamped}
use emlib.StrNum.Print.{strtoul-utoa_pad}

abbrev ascii : Ctype
ascii = record { isspace = space_char; isdigit = digit_char; isxdigit = xdigit_char }

ascii-IsAscii : IsAscii ascii
ascii-IsAscii = record { space = λ c. refl; digit = λ c. refl; xdigit = λ c. refl }

abbrev buffer : ℕ → ℕ
buffer i = 255

-- "00730"
printed : elements (utoa_pad 730 buffer 5 48).0 0 6 ≡ 48 ∷ 48 ∷ 55 ∷ 51 ∷ 48 ∷ 0 ∷ []
unfolding utoa_pad put_digits put_padding swap_ends
printed = refl

-- "4294967296" is too large.
refused :
    strtoul3 ascii (52 ∷ 50 ∷ 57 ∷ 52 ∷ 57 ∷ 54 ∷ 55 ∷ 50 ∷ 57 ∷ 54 ∷ []) 10
    ≡ (etoobig, some 4294967295)
unfolding strtoul3 decimal3 strltrim
refused = refl

-- "fF" with base 16
hexadecimal : strtoul3 ascii (102 ∷ 70 ∷ []) 16 ≡ (succ, some 255)
unfolding strtoul3 hexadecimal3 strltrim
hexadecimal = refl

strtoul-utoa_pad_example :
    (strtoul ascii (elements (utoa_pad 730 buffer 5 48).0 0 (utoa_pad 730 buffer 5 48).1) ≡ 730)
    × (5 ≤ (utoa_pad 730 buffer 5 48).1)
    × (0 < (utoa_pad 730 buffer 5 48).1)
    × ((utoa_pad 730 buffer 5 48).0 (utoa_pad 730 buffer 5 48).1 ≡ 0)
strtoul-utoa_pad_example = strtoul-utoa_pad ascii 730 5 buffer ascii-IsAscii (omega arith)

trimmed_x : strltrim ascii (120 ∷ []) ≡ 120 ∷ []
unfolding strltrim
trimmed_x = refl

strtoul3_lem_example :
    (strtoul3 ascii (32 ∷ 49 ∷ 50 ∷ 120 ∷ []) 10
      ≡ written (limited (digits_value 0 (49 ∷ 50 ∷ []))))
    × (strtoul3 ascii (32 ∷ 120 ∷ []) 10 ≡ (einval, none))
strtoul3_lem_example =
    strtoul3_lem ascii (32 ∷ []) 49 (50 ∷ []) (120 ∷ []) (120 ∷ []) ascii-IsAscii (ground arith)
      (ground arith) refl refl trimmed_x

strtol2-clamped_example :
    strtol2 ascii (32 ∷ 45 ∷ 49 ∷ 50 ∷ []) ≡ clamped true (digits_value 0 (49 ∷ 50 ∷ []))
strtol2-clamped_example =
    strtol2-clamped ascii (32 ∷ []) minus 49 (50 ∷ []) [] ascii-IsAscii (ground arith)
      (ground arith) tt
