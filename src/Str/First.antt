-- ===== src/Str/First.antt =====
-- Where em_strstr and em_stristr of src/string.c find their substring.
use emlib.Prelude.{
  ℕ, zero, suc, ◌+◌, ◌-◌, ◌≤◌, ◌<◌, ◌≡◌, ◌↔◌, refl, sym, ap, ◌∙◌, Option, none, some, [], ◌∷◌,
  Bytes, arith, ◌==◌, leb, Bool-cases, inl, inr, length, take, drop, map, length-take, length-drop,
}
use emlib.Prelude.Int.{pos, eq_ℤ}
use emlib.Str.{CompareFunction, until_null}
use emlib.Str.Search.{strstr_from, strstr_with, strstr, stristr, IsStrncmp, IsFirst}

length-map : (f : ℕ → ℕ) (l : Bytes) → length (map f l) ≡ length l
length-map f [] = refl
length-map f (c ∷ cs) = ap suc (length-map f cs)

take-length : (s : Bytes) → take (length s) s ≡ s
take-length [] = refl
take-length (c ∷ cs) = ap (λ l. c ∷ l) (take-length cs)

-- A text that is as long as what stands before its terminator has none.
until_null_all : (l : Bytes) → length l ≤ length (until_null l) → until_null l ≡ l
unfolding until_null
until_null_all [] h = refl
until_null_all (c ∷ cs) h = elim (Bool-cases (c == 0)) [
  | inl e ↦ absurd (omega (arith, rw e at h))
  | inr e ↦ rw e (ap (λ l. c ∷ l) (until_null_all cs (omega (arith, rw e at h))))
]

module _ (fold : ℕ → ℕ) (compare : CompareFunction) (substr : Bytes) (c : IsStrncmp fold compare)
    (text : until_null (map fold substr) ≡ map fold substr) where
  -- The rest of a string begins with the substring.
  abbrev Begins : Bytes → Type 0
  Begins rest = map fold (take (length substr) rest) ≡ map fold substr

  Begins-long : (rest : Bytes) → Begins rest → length substr ≤ length rest
  Begins-long rest b =
      let e = ap length b in
      omega (
        arith,
        e,
        length-map fold (take (length substr) rest),
        length-map fold substr,
        length-take (length substr) rest,
      )

  compare_decides :
      (rest : Bytes)
      → length substr ≤ length rest
      → (compare rest substr (length substr) ≡ pos 0) ↔ Begins rest
  compare_decides rest h =
      let inside : length substr ≤ length substr = omega arith in
      let both = c.equal rest substr (length substr) h inside in
      let whole : until_null (map fold (take (length substr) substr)) ≡ map fold substr =
        ap (λ l. until_null (map fold l)) (take-length substr) ∙ text in
      (
        λ z.
            let e = both.0 z ∙ whole in
            let le : length (map fold (take (length substr) rest))
                ≤ length (until_null (map fold (take (length substr) rest))) =
              omega (
                arith,
                ap length e,
                length-map fold (take (length substr) rest),
                length-map fold substr,
                length-take (length substr) rest,
              ) in
            sym (until_null_all (map fold (take (length substr) rest)) le) ∙ e,
        λ b. both.1 (ap until_null b ∙ text ∙ sym whole),
      )

  -- The result for the rest of the string from index i on.
  abbrev FirstFrom : ℕ → Bytes → Option ℕ → Type 0
  FirstFrom i rest none = (k : ℕ) → ¬ Begins (drop k rest)
  FirstFrom i rest (some m) =
      (i ≤ m) × Begins (drop (m - i) rest) × ((k : ℕ) → i + k < m → ¬ Begins (drop k rest))

  too_short : (rest : Bytes) → length rest < length substr → (k : ℕ) → ¬ Begins (drop k rest)
  too_short rest h k b = omega (arith, Begins-long (drop k rest) b, length-drop k rest, h)

  next :
      (i d : ℕ) (cs : Bytes) (r : Option ℕ)
      → ¬ Begins (d ∷ cs)
      → FirstFrom (i + 1) cs r
      → FirstFrom i (d ∷ cs) r
  next i d cs none nb f = later
    where
      later : (k : ℕ) → ¬ Begins (drop k (d ∷ cs))
      later zero = nb
      later (suc k) = f k
  next i d cs (some m) nb f =
      let shift : m - i ≡ suc (m - (i + 1)) = omega (arith, f.0) in
      (
        omega (arith, f.0),
        ap (λ k. map fold (take (length substr) (drop k (d ∷ cs)))) shift ∙ f.1,
        earlier,
      )
    where
      earlier : (k : ℕ) → i + k < m → ¬ Begins (drop k (d ∷ cs))
      earlier zero h = nb
      earlier (suc k) h = f.2 k (omega arith)

  from_lem :
      (i : ℕ) (rest : Bytes)
      → 0 < length substr
      → FirstFrom i rest (strstr_from compare substr i rest)
  unfolding strstr_from
  from_lem i [] p = too_short [] p
  from_lem i (d ∷ cs) p = elim (Bool-cases (leb (length substr) (suc (length cs)))) [
    | inl fits ↦
        let le : length substr ≤ length (d ∷ cs) = ground arith in
        elim (Bool-cases (eq_ℤ (compare (d ∷ cs) substr (length substr)) (pos 0))) [
          | inl found ↦
              rw (fits, found) (here i d cs ((compare_decides (d ∷ cs) le).0 (ground arith)))
          | inr other ↦
              rw (fits, other)
                (next i d cs (strstr_from compare substr (i + 1) cs)
                  (λ b. let z = (compare_decides (d ∷ cs) le).1 b in ground arith)
                  (from_lem (i + 1) cs p))
        ]
    | inr short ↦ rw short (too_short (d ∷ cs) (ground arith))
  ]
    where
      here : (i d : ℕ) (cs : Bytes) → Begins (d ∷ cs) → FirstFrom i (d ∷ cs) (some i)
      here i d cs b =
          let none_left : i - i ≡ 0 = omega arith in
          (omega arith, rw none_left b, λ k h. absurd (omega arith))

  of_IsFirst : (str : Bytes) (r : Option ℕ) → FirstFrom 0 str r → IsFirst fold str substr r
  of_IsFirst str none f = f
  of_IsFirst str (some m) f =
      let all : m - 0 ≡ m = omega arith in
      (
        ap (λ k. map fold (take (length substr) (drop k str))) (sym all) ∙ f.1,
        λ j h. f.2 j (omega arith),
      )

  strstr_with_lem : (str : Bytes) → IsFirst fold str substr (strstr_with compare str substr)
  strstr_with_lem str = elim (Bool-cases (length substr == 0)) [
    | inl e ↦ rw e (empty substr (ground arith), λ j h. absurd (omega arith))
    | inr e ↦
        rw e (of_IsFirst str (strstr_from compare substr 0 str) (from_lem 0 str (ground arith)))
  ]
    where
      empty : (t : Bytes) → length t ≡ 0 → map fold (take (length t) str) ≡ map fold t
      empty [] h = refl
      empty (d ∷ t) h = absurd (omega arith)

-- With a strncmp and a strncasecmp that do what their standards say, and a substring without a terminator,
-- as it is and with its case folded, em_strstr gives the first index at which the substring stands
-- in the string, or NULL exactly if it stands nowhere; em_stristr does the same for the bytes with
-- their case folded.
pub strstr-IsFirst :
    (fold : ℕ → ℕ) (strncmp strncasecmp : CompareFunction) (str substr : Bytes)
    → IsStrncmp (λ c. c) strncmp
    → IsStrncmp fold strncasecmp
    → until_null (map (λ c. c) substr) ≡ map (λ c. c) substr
    → until_null (map fold substr) ≡ map fold substr
    → IsFirst (λ c. c) str substr (strstr strncmp str substr)
      × IsFirst fold str substr (stristr strncasecmp str substr)
strstr-IsFirst fold strncmp strncasecmp str substr c c' t t' = (
  strstr_with_lem (λ c. c) strncmp substr c t str,
  strstr_with_lem fold strncasecmp substr c' t' str,
)
