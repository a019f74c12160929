-- ===== src/AddrParse/Colons.antt =====
-- What the loop of em_sockaddr_parse2 in src/sock_common.c that looks for colons finds, and em_strchr.
use emlib.Prelude.{
  ℕ, ◌+◌, ◌≤◌, ◌≡◌, refl, ap, ◌∙◌, ◌<◌, true, false, Option, some, [], ◌∷◌, ◌++◌, Bytes, ◌==◌,
  length, arith, Bool-cases, inl, inr, All,
}
use emlib.AddrParse.{colon, scan_colons, strchr_from}

abbrev pub IsOther : ℕ → ℕ → Type 0
IsOther chr c = (c == chr) ≡ false

pub scan_colons-of_none :
    (str : Bytes) (p n : ℕ) (last : Option ℕ)
    → All (IsOther colon) str
    → scan_colons str p n last ≡ (n, last)
unfolding scan_colons
scan_colons-of_none [] p n last h = refl
scan_colons-of_none (c ∷ cs) p n last h = rw h.0 (scan_colons-of_none cs (p + 1) n last h.1)

-- The last colon is the one that no other follows.
pub scan_colons-append :
    (xs ys : Bytes) (p n : ℕ) (last : Option ℕ)
    → All (IsOther colon) ys
    → scan_colons (xs ++ (colon ∷ ys)) p n last
      ≡ ((scan_colons xs p n last).0 + 1, some (p + length xs))
unfolding scan_colons
scan_colons-append [] ys p n last h =
    scan_colons-of_none ys (p + 1) (n + 1) (some p) h
    ∙ ap (λ i. (n + 1, some i)) {x = p} {y = p + 0} (omega arith)
scan_colons-append (c ∷ cs) ys p n last h =
    scan_colons-append cs ys (p + 1) _ _ h
    ∙ ap (λ i. ((scan_colons (c ∷ cs) p n last).0 + 1, some i)) (omega arith)

pub scan_colons-ge : (str : Bytes) (p n : ℕ) (last : Option ℕ) → n ≤ (scan_colons str p n last).0
unfolding scan_colons
scan_colons-ge [] p n last = omega arith
scan_colons-ge (c ∷ cs) p n last = elim (Bool-cases (c == colon)) [
  | inl e ↦ rw (e, scan_colons) (omega (arith, scan_colons-ge cs (p + 1) (n + 1) (some p)))
  | inr ne ↦ rw (ne, scan_colons) (scan_colons-ge cs (p + 1) n last)
]

-- em_strchr finds the first.
pub strchr-append :
    (chr : ℕ) (xs ys : Bytes) (i : ℕ)
    → All (IsOther chr) xs
    → strchr_from chr (xs ++ (chr ∷ ys)) i ≡ some (i + length xs)
unfolding strchr_from
strchr-append chr [] ys i h =
    let same : (chr == chr) ≡ true = ground arith in rw same (ap some (omega arith))
strchr-append chr (c ∷ cs) ys i h =
    rw h.0 (strchr-append chr cs ys (i + 1) h.1 ∙ ap some (omega arith))

-- A colon counts, whatever is around it.
pub scan_colons-counts :
    (xs ys : Bytes) (p n : ℕ) (last : Option ℕ) → n < (scan_colons (xs ++ (colon ∷ ys)) p n last).0
unfolding scan_colons
scan_colons-counts [] ys p n last = omega (arith, scan_colons-ge ys (p + 1) (n + 1) (some p))
scan_colons-counts (c ∷ cs) ys p n last = elim (Bool-cases (c == colon)) [
  | inl e ↦ rw (e, scan_colons) (omega (arith, scan_colons-counts cs ys (p + 1) (n + 1) (some p)))
  | inr ne ↦ rw (ne, scan_colons) (scan_colons-counts cs ys (p + 1) n last)
]
