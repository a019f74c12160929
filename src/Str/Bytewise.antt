-- ===== src/Str/Bytewise.antt =====
-- A function that does what the C standard says of memcmp, for the comparisons of
-- include/em/string_i.h and src/sock_common.c on concrete bytes.
use emlib.Prelude.{
  ℕ, zero, suc, ◌≤◌, ◌≡◌, refl, ap, [], ◌∷◌, Bytes, arith, take, drop, ◌==◌, ==-refl, if◌then◌else◌,
  Bool-cases, inl, inr, length, leb,
}
use emlib.Prelude.Int.{pos, negsuc}
use emlib.Str.{CompareFunction, byte_at}
use emlib.Str.Compare.{IsMemcmp}

-- A memcmp that gives the order of the first bytes that differ.
abbrev pub bytewise : CompareFunction
bytewise s t zero = pos 0
bytewise [] t (suc n) = pos 0
bytewise (c ∷ s) [] (suc n) = pos 0
bytewise (c ∷ s) (d ∷ t) (suc n) =
    let rest = bytewise s t n in if c == d then rest else if leb c d then negsuc 0 else pos 1

bytewise_zero :
    (s t : Bytes) (n : ℕ)
    → n ≤ length s
    → n ≤ length t
    → bytewise s t n ≡ pos 0
    → take n s ≡ take n t
bytewise_zero s t zero h h' e = refl
bytewise_zero [] t (suc n) h h' e = absurd (omega arith)
bytewise_zero (c ∷ s) [] (suc n) h h' e = absurd (omega arith)
bytewise_zero (c ∷ s) (d ∷ t) (suc n) h h' e = elim (Bool-cases (c == d)) [
  | inl same ↦
      let first : c ≡ d = ground arith in
      let rest = bytewise_zero s t n (omega arith) (omega arith) (rw same at e) in
      rw (first, rest) refl
  | inr differ ↦ absurd (ground arith)
]

bytewise_same :
    (s t : Bytes) (n : ℕ)
    → n ≤ length s
    → n ≤ length t
    → take n s ≡ take n t
    → bytewise s t n ≡ pos 0
bytewise_same s t zero h h' e = refl
bytewise_same [] t (suc n) h h' e = absurd (omega arith)
bytewise_same (c ∷ s) [] (suc n) h h' e = absurd (omega arith)
bytewise_same (c ∷ s) (d ∷ t) (suc n) h h' e =
    let first : c ≡ d = ap (λ l. byte_at l 0) e in
    let same = bytewise_same s t n (omega arith) (omega arith) (ap (drop 1) e) in
    rw (first, ==-refl d, same) refl

pub bytewise-IsMemcmp : IsMemcmp bytewise
bytewise-IsMemcmp = record {
  equal = λ s t n h h'. (bytewise_zero s t n h h', bytewise_same s t n h h');
}
