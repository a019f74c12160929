-- ===== src/Str/Span.antt =====
-- em_strspn and em_strcspn of src/string.c on strings split where the span ends.
use emlib.Prelude.{
  ℕ, suc, ◌+◌, ◌≡◌, refl, subst, ap, ◌∙◌, Bool, true, false, [], ◌∷◌, ◌++◌, Bytes, arith, ◌==◌,
  ==-refl, Bool-cases, inl, inr, All, Avoids, Distinct, length,
}
use emlib.Str.{occurrences, strspn_from, strspn, is_member, strcspn_from, strcspn}

-- All characters are in the set, or none is.
abbrev pub Inside : Bytes → Bytes → Type 0
Inside set s = All (λ c. is_member c set ≡ true) s

abbrev pub OutsideOf : Bytes → Bytes → Type 0
OutsideOf set s = All (λ c. is_member c set ≡ false) s

-- The string is empty, or its first character is of this kind.
abbrev pub Starts : Bool → Bytes → Bytes → Type 0
Starts b set [] = Unit
Starts b set (c ∷ cs) = is_member c set ≡ b

occurrences-Avoids : (c : ℕ) (set : Bytes) → Avoids c set → occurrences c set ≡ 0
occurrences-Avoids c [] h = refl
occurrences-Avoids c (d ∷ set) h = elim (Bool-cases (c == d)) [
  | inl e ↦ absurd (h.0 (ground arith))
  | inr ne ↦ rw ne (occurrences-Avoids c set h.1)
]

occurrences-in :
    (c : ℕ) (set : Bytes) → Distinct set → is_member c set ≡ true → occurrences c set ≡ 1
occurrences-in c [] h m = absurd (ground arith)
occurrences-in c (d ∷ set) h m = elim (Bool-cases (c == d)) [
  | inl e ↦
      let same : d ≡ c = ground arith in
      rw e (ap suc (occurrences-Avoids c set (subst (λ x. Avoids x set) same h.0)))
  | inr ne ↦ rw ne (occurrences-in c set h.1 (rw ne at m))
]

occurrences-out : (c : ℕ) (set : Bytes) → is_member c set ≡ false → occurrences c set ≡ 0
occurrences-out c [] m = refl
occurrences-out c (d ∷ set) m = elim (Bool-cases (c == d)) [
  | inl e ↦ absurd (ground arith)
  | inr ne ↦ rw ne (occurrences-out c set (rw ne at m))
]

-- One round too late the loop stops.
stopped : (set : Bytes) (i : ℕ) (cs : Bytes) → strspn_from set (i + 1) i cs ≡ i
unfolding strspn_from
stopped set i [] = refl
stopped set i (c ∷ cs) = ground arith

strspn_from-append :
    (set : Bytes) (i : ℕ) (ds rest : Bytes)
    → Distinct set
    → Inside set ds
    → Starts false set rest
    → strspn_from set i i (ds ++ rest) ≡ i + length ds
unfolding strspn_from
strspn_from-append set i [] [] d h s = omega arith
strspn_from-append set i [] (c ∷ cs) d h s =
    let none_in : i + occurrences c set ≡ i = omega (arith, occurrences-out c set s) in
    rw (==-refl i, none_in) (stopped set i cs ∙ omega arith)
strspn_from-append set i (c ∷ ds) rest d h s =
    let one_in : i + occurrences c set ≡ i + 1 = omega (arith, occurrences-in c set d h.0) in
    rw (==-refl i, one_in) (strspn_from-append set (i + 1) ds rest d h.1 s ∙ omega arith)

strcspn_from-append :
    (set : Bytes) (i : ℕ) (t rest : Bytes)
    → OutsideOf set t
    → Starts true set rest
    → strcspn_from set i (t ++ rest) ≡ i + length t
unfolding strcspn_from
strcspn_from-append set i [] [] h s = omega arith
strcspn_from-append set i [] (c ∷ cs) h s = rw s (omega arith)
strcspn_from-append set i (c ∷ t) rest h s =
    rw h.0 (strcspn_from-append set (i + 1) t rest h.1 s ∙ omega arith)

pub strspn-append :
    (set ds rest : Bytes)
    → Distinct set
    → Inside set ds
    → Starts false set rest
    → strspn (ds ++ rest) set ≡ length ds
strspn-append set ds rest d h s = strspn_from-append set 0 ds rest d h s ∙ omega arith

pub strcspn-append :
    (set t rest : Bytes)
    → OutsideOf set t
    → Starts true set rest
    → strcspn (t ++ rest) set ≡ length t
strcspn-append set t rest h s = strcspn_from-append set 0 t rest h s ∙ omega arith
