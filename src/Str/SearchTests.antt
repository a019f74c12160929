-- ===== src/Str/SearchTests.antt =====
-- em_strstr and em_stristr of src/string.c on concrete bytes.
use emlib.Prelude.{
  ℕ, ◌+◌, ◌≡◌, ◌↔◌, refl, ap₂, Bool, true, false, ◌&&◌, some, [], ◌∷◌, Bytes, arith, ◌==◌, leb,
  take, map, if◌then◌else◌,
}
use emlib.Prelude.Int.{pos}
use emlib.Str.{CompareFunction, until_null}
use emlib.Str.Search.{strstr_from, strstr, stristr, IsStrncmp, IsFirst}
use emlib.Str.First.{strstr-IsFirst}

abbrev same_bytes : Bytes → Bytes → Bool
same_bytes [] [] = true
same_bytes [] (d ∷ t) = false
same_bytes (c ∷ s) [] = false
same_bytes (c ∷ s) (d ∷ t) = (c == d) && same_bytes s t

same_bytes_lem : (s t : Bytes) → (same_bytes s t ≡ true) ↔ (s ≡ t)
same_bytes_lem [] [] = (λ e. refl, λ e. refl)
same_bytes_lem [] (d ∷ t) = (λ e. ground arith, λ e. ground arith)
same_bytes_lem (c ∷ s) [] = (λ e. ground arith, λ e. ground arith)
same_bytes_lem (c ∷ s) (d ∷ t) =
    let rest = same_bytes_lem s t in
    (
      λ e. let first : c ≡ d = ground arith in ap₂ (λ x l. x ∷ l) first (rest.0 (ground arith)),
      λ e. ground arith,
    )

-- A comparison that is 0 or 1.
abbrev folded : (ℕ → ℕ) → CompareFunction
folded fold s t n =
    if same_bytes (until_null (map fold (take n s))) (until_null (map fold (take n t)))
    then pos 0
    else pos 1

folded-IsStrncmp : (fold : ℕ → ℕ) → IsStrncmp fold (folded fold)
folded-IsStrncmp fold = record {
  equal = λ s t n h h'.
      let same =
        same_bytes_lem (until_null (map fold (take n s))) (until_null (map fold (take n t))) in
      (λ e. same.0 (ground arith), λ e. let yes = same.1 e in rw yes refl);
}

abbrev lower : ℕ → ℕ
lower c = if leb 65 c && leb c 90 then c + 32 else c

-- "abcBC" and "BC"
abbrev hay : Bytes
hay = 97 ∷ 98 ∷ 99 ∷ 66 ∷ 67 ∷ []

abbrev needle : Bytes
needle = 66 ∷ 67 ∷ []

found_at : strstr (folded (λ c. c)) hay needle ≡ some 3
unfolding strstr_from until_null
found_at = refl

found_folded_at : stristr (folded lower) hay needle ≡ some 1
unfolding strstr_from until_null
found_folded_at = refl

-- Behind a terminator in both, other bytes count as the substring.
found_wrong : strstr (folded (λ c. c)) (97 ∷ 0 ∷ 98 ∷ []) (97 ∷ 0 ∷ 99 ∷ []) ≡ some 0
unfolding strstr_from until_null
found_wrong = refl

whole : until_null (map (λ c. c) needle) ≡ map (λ c. c) needle
unfolding until_null
whole = refl

whole_folded : until_null (map lower needle) ≡ map lower needle
unfolding until_null
whole_folded = refl

strstr-IsFirst_example :
    IsFirst (λ c. c) hay needle (strstr (folded (λ c. c)) hay needle)
    × IsFirst lower hay needle (stristr (folded lower) hay needle)
strstr-IsFirst_example =
    strstr-IsFirst lower (folded (λ c. c)) (folded lower) hay needle (folded-IsStrncmp (λ c. c))
      (folded-IsStrncmp lower) whole whole_folded
