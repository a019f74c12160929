-- ===== src/Str/Compare.antt =====
-- em_strcmp and em_strncmp of include/em/string_i.h decide the equality of the contents.
use emlib.Prelude.{
  ℕ, zero, suc, ◌≤◌, ◌≡◌, ◌↔◌, refl, sym, ap, ◌∙◌, false, [], ◌∷◌, Bytes, arith, ◌==◌, ltb,
  Bool-cases, inl, inr, length, take, if◌then◌else◌,
}
use emlib.Prelude.Int.{ℤ, pos, negsuc}
use emlib.Str.{CompareFunction, by_length, zero_or, compare_with, strcmp, cut, strncmp}

-- What the C standard says of memcmp on objects that hold n bytes: the result is 0 exactly if the
-- first n bytes are the same.
pub record IsMemcmp (memcmp : CompareFunction) : Type 0 where
  pub equal :
      (s t : Bytes) (n : ℕ)
      → n ≤ length s
      → n ≤ length t
      → (memcmp s t n ≡ pos 0) ↔ (take n s ≡ take n t)

take_all : (s : Bytes) (n : ℕ) → n ≡ length s → take n s ≡ s
take_all [] zero e = refl
take_all [] (suc n) e = refl
take_all (c ∷ cs) zero e = absurd (omega arith)
take_all (c ∷ cs) (suc n) e = ap (λ l. c ∷ l) (take_all cs n (omega arith))

zero_or_zero : (r o : ℤ) → zero_or r o ≡ pos 0 → (r ≡ pos 0) × (o ≡ pos 0)
zero_or_zero (pos zero) o h = (refl, h)
zero_or_zero (pos (suc n)) o h = absurd (ground arith)
zero_or_zero (negsuc n) o h = absurd (ground arith)

by_length_zero : (m n : ℕ) → by_length m n ≡ pos 0 → m ≡ n
by_length_zero m n h = ground arith

by_length_refl : (n : ℕ) → by_length n n ≡ pos 0
by_length_refl n = ground arith

not_zero : (n : ℕ) → (suc n == 0) ≡ false
not_zero n = ground arith

abbrev shorter : Bytes → Bytes → ℕ
shorter s t = if ltb (length s) (length t) then length s else length t

shorter-le : (s t : Bytes) → (shorter s t ≤ length s) × (shorter s t ≤ length t)
shorter-le s t = ground arith

shorter_of_eq :
    (s t : Bytes) → length s ≡ length t → (shorter s t ≡ length s) × (shorter s t ≡ length t)
shorter_of_eq s t e = ground arith

compare_nonempty :
    (memcmp : CompareFunction) (c : ℕ) (s : Bytes) (d : ℕ) (t : Bytes)
    → compare_with memcmp (c ∷ s) (d ∷ t)
      ≡ zero_or
          (memcmp (c ∷ s) (d ∷ t) (shorter (c ∷ s) (d ∷ t)))
          (by_length (suc (length s)) (suc (length t)))
compare_nonempty memcmp c s d t = rw (not_zero (length s), not_zero (length t)) refl

-- Strings with at least one byte each.
nonempty_zero :
    (memcmp : CompareFunction) (c : ℕ) (s : Bytes) (d : ℕ) (t : Bytes)
    → IsMemcmp memcmp
    → compare_with memcmp (c ∷ s) (d ∷ t) ≡ pos 0
    → c ∷ s ≡ d ∷ t
nonempty_zero memcmp c s d t m h =
    let (r, l) = zero_or_zero _ _ (sym (compare_nonempty memcmp c s d t) ∙ h) in
    let n = shorter (c ∷ s) (d ∷ t) in
    let (le, le') = shorter-le (c ∷ s) (d ∷ t) in
    let (e, e') = shorter_of_eq (c ∷ s) (d ∷ t) (by_length_zero _ _ l) in
    sym (take_all (c ∷ s) n e) ∙ (m.equal (c ∷ s) (d ∷ t) n le le').0 r ∙ take_all (d ∷ t) n e'

strcmp_zero :
    (memcmp : CompareFunction) (s t : Bytes) → IsMemcmp memcmp → strcmp memcmp s t ≡ pos 0 → s ≡ t
strcmp_zero memcmp [] [] m h = refl
strcmp_zero memcmp [] (d ∷ t) m h = absurd (ground arith)
strcmp_zero memcmp (c ∷ s) [] m h = absurd (ground arith)
strcmp_zero memcmp (c ∷ s) (d ∷ t) m h = nonempty_zero memcmp c s d t m h

strcmp_equal : (memcmp : CompareFunction) (s : Bytes) → IsMemcmp memcmp → strcmp memcmp s s ≡ pos 0
strcmp_equal memcmp [] m = refl
strcmp_equal memcmp (c ∷ s) m =
    let (le, le') = shorter-le (c ∷ s) (c ∷ s) in
    let same = (m.equal (c ∷ s) (c ∷ s) (shorter (c ∷ s) (c ∷ s)) le le').1 refl in
    compare_nonempty memcmp c s c s ∙ rw (same, by_length_refl (suc (length s))) refl

cut-take : (s : Bytes) (n : ℕ) → cut s n ≡ take n s
cut-take s n = elim (Bool-cases (ltb n (length s))) [
  | inl lt ↦ rw lt refl
  | inr ge ↦ rw ge (sym (take_long s n (ground arith)))
]
  where
    take_long : (s : Bytes) (n : ℕ) → length s ≤ n → take n s ≡ s
    take_long [] zero h = refl
    take_long [] (suc n) h = refl
    take_long (c ∷ cs) zero h = absurd (omega arith)
    take_long (c ∷ cs) (suc n) h = ap (λ l. c ∷ l) (take_long cs n (omega arith))

-- With a memcmp that decides the equality of n bytes, em_strcmp is 0 exactly if the strings are equal,
-- and em_strncmp exactly if their first len bytes are.
pub strcmp_decides :
    (memcmp : CompareFunction) (s t : Bytes) (len : ℕ)
    → IsMemcmp memcmp
    → ((strcmp memcmp s t ≡ pos 0) ↔ (s ≡ t))
      × ((strncmp memcmp s t len ≡ pos 0) ↔ (take len s ≡ take len t))
strcmp_decides memcmp s t len m = (
  (λ h. strcmp_zero memcmp s t m h, λ e. ap (strcmp memcmp s) (sym e) ∙ strcmp_equal memcmp s m),
  (
    λ h. sym (cut-take s len) ∙ strcmp_zero memcmp (cut s len) (cut t len) m h ∙ cut-take t len,
    λ e.
        let same : cut t len ≡ cut s len = cut-take t len ∙ sym e ∙ sym (cut-take s len) in
        ap (strcmp memcmp (cut s len)) same ∙ strcmp_equal memcmp (cut s len) m,
  ),
)
