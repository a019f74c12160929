-- ===== src/Str/Tests.antt =====
-- Strings on concrete bytes.
use emlib.Prelude.{◌≡◌, refl, some, [], ◌∷◌, ◌++◌, Bytes, arith, take, mem_read, mem_write}
use emlib.StrNum.{Ctype}
use emlib.StrNum.Digits.{digit_char, space_char, xdigit_char}
use emlib.Str.{
  strspn, strspn_from, strtok, Str, content, strcpy, strncpy, strcat, strcspn_from, strcpy2, done,
  until_null,
}
use emlib.Str.Token.{strtok_lem}
use emlib.Str.Copy.{IsValid, Fits, copied, copies_lem}

-- With a set that has a character twice, the span of "ab" by "aa" is given as 2.
repeated : strspn (97 ∷ 98 ∷ []) (97 ∷ 97 ∷ []) ≡ 2
unfolding strspn_from
repeated = refl

-- "a,;b" from index 1, with the delimiters ",;"
token : strtok (97 ∷ 44 ∷ 59 ∷ 98 ∷ []) (44 ∷ 59 ∷ []) 1 ≡ some (3, 98 ∷ [])
unfolding strtok strspn_from strcspn_from
token = refl

strtok_lem_example :
    (strtok (97 ∷ 44 ∷ 59 ∷ 98 ∷ []) (44 ∷ 59 ∷ []) 1 ≡ some (3, 98 ∷ []))
    × (strtok (97 ∷ 44 ∷ 59 ∷ []) (44 ∷ 59 ∷ []) 1 ≡ some (3, 44 ∷ 59 ∷ []))
strtok_lem_example =
    strtok_lem (44 ∷ 59 ∷ []) (97 ∷ []) (44 ∷ 59 ∷ []) 98 [] [] (ground arith) (ground arith)
      (ground arith) tt (omega arith)

abbrev ab : Bytes
ab = 97 ∷ 98 ∷ []

abbrev ac : Bytes
ac = 97 ∷ 99 ∷ []

abbrev ascii : Ctype
ascii = record { isspace = space_char; isdigit = digit_char; isxdigit = xdigit_char }

-- Eight bytes of memory with "ab" in it.
abbrev target : Str
target = record { mem = 97 ∷ 98 ∷ 0 ∷ 0 ∷ 0 ∷ 0 ∷ 0 ∷ 0 ∷ []; slen = 2; blen = 8 }

target-IsValid : IsValid target
target-IsValid = record { memory = refl; inside = omega arith }

copies_lem_example :
    Fits target 3 (99 ∷ 100 ∷ 101 ∷ []) (strcpy target (99 ∷ 100 ∷ 101 ∷ []))
    × Fits target
        (copied (99 ∷ 100 ∷ 101 ∷ []) 2)
        (take 2 (99 ∷ 100 ∷ 101 ∷ []))
        (strncpy target (99 ∷ 100 ∷ 101 ∷ []) 2)
    × Fits target 5 (content target ++ (99 ∷ 100 ∷ 101 ∷ [])) (strcat target (99 ∷ 100 ∷ 101 ∷ []))
copies_lem_example = copies_lem target (99 ∷ 100 ∷ 101 ∷ []) 2 target-IsValid

-- em_strcpy2 of "cd" to an empty string leaves bytes that were there before.
abbrev empty : Str
empty = record { mem = 97 ∷ 98 ∷ 0 ∷ []; slen = 0; blen = 3 }

not_copied : strcpy2 empty (some (99 ∷ 100 ∷ 0 ∷ [])) ≡ done (record empty { slen = 2 })
unfolding mem_read mem_write until_null
not_copied = refl
