-- ===== src/Str/Search.antt =====
-- em_strstr and em_stristr of src/string.c. Where the code returns a pointer into the string, the
-- model gives its index.
use emlib.Prelude.{
  ℕ, suc, ◌+◌, ◌≤◌, ◌<◌, ◌≡◌, ◌↔◌, Option, none, some, not, [], ◌∷◌, Bytes, ◌==◌, leb, length, take,
  drop, map, if◌then◌else◌,
}
use emlib.Prelude.Int.{pos, eq_ℤ}
use emlib.Str.{CompareFunction, until_null}

-- The loop of both functions over the rest of the string, which begins at index i.
unfoldable pub strstr_from : CompareFunction → Bytes → ℕ → Bytes → Option ℕ
strstr_from compare substr i [] = none
strstr_from compare substr i (c ∷ cs) =
    let rest = strstr_from compare substr (i + 1) cs in
    if not (leb (length substr) (suc (length cs)))
    then none
    else if eq_ℤ (compare (c ∷ cs) substr (length substr)) (pos 0)
    then some i
    else rest

abbrev pub strstr_with : CompareFunction → Bytes → Bytes → Option ℕ
strstr_with compare str substr =
    if length substr == 0 then some 0 else strstr_from compare substr 0 str

-- `em_strstr` with the C library's strncmp, and `em_stristr` with its strncasecmp
abbrev pub strstr : CompareFunction → Bytes → Bytes → Option ℕ
strstr strncmp str substr = strstr_with strncmp str substr

abbrev pub stristr : CompareFunction → Bytes → Bytes → Option ℕ
stristr strncasecmp str substr = strstr_with strncasecmp str substr

-- What the C standard says of strncmp, and POSIX of strncasecmp, on objects that hold n bytes: 0 exactly
-- if the bytes before the first terminator among the first n, seen through `fold`, are the same.
pub record IsStrncmp (fold : ℕ → ℕ) (compare : CompareFunction) : Type 0 where
  pub equal :
      (s t : Bytes) (n : ℕ)
      → n ≤ length s
      → n ≤ length t
      → (compare s t n ≡ pos 0)
        ↔ (until_null (map fold (take n s)) ≡ until_null (map fold (take n t)))

-- At index i of the string stands the substring, seen through `fold`.
abbrev pub Occurs : (ℕ → ℕ) → Bytes → Bytes → ℕ → Type 0
Occurs fold str substr i = map fold (take (length substr) (drop i str)) ≡ map fold substr

abbrev pub IsFirst : (ℕ → ℕ) → Bytes → Bytes → Option ℕ → Type 0
IsFirst fold str substr none = (i : ℕ) → ¬ Occurs fold str substr i
IsFirst fold str substr (some i) =
    Occurs fold str substr i × ((j : ℕ) → j < i → ¬ Occurs fold str substr j)
