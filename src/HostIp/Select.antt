-- ===== src/HostIp/Select.antt =====
-- Which candidate the last loop of em_gethostip in src/sock_common.c selects.
use emlib.Prelude.{
  ◌≡◌, refl, sym, ap, ◌∙◌, subst, true, false, Option, some, none, List, [], ◌∷◌, ◌++◌,
  append_assoc, append-nil, if◌then◌else◌, arith, Bool-cases, inl, inr, All, All-append, All-mono,
}
use emlib.Prelude.Int.{ℤ, lt_ℤ}
use emlib.HostIp.{Cand, min_weight}
use emlib.HostIp.Choice.{select, better}

abbrev pub Below : Cand → Cand → Type 0
Below c d = lt_ℤ d.weight c.weight ≡ true

abbrev pub NotAbove : Cand → Cand → Type 0
NotAbove c d = lt_ℤ c.weight d.weight ≡ false

abbrev pub IsUnusable : Cand → Type 0
IsUnusable c = lt_ℤ c.weight min_weight ≡ true

-- The first of the candidates with the greatest weight, which is at least the least usable one; or
-- none, and no weight is usable.
pub record IsFirstBest (cs : List Cand) (c : Cand) : Type 0 where
  pub before : List Cand
  pub after : List Cand
  pub split : cs ≡ before ++ (c ∷ after)
  pub usable : lt_ℤ c.weight min_weight ≡ false
  pub lower : All (Below c) before
  pub not_higher : All (NotAbove c) after

abbrev pub IsBest : List Cand → Option Cand → Type 0
IsBest cs none = All IsUnusable cs
IsBest cs (some c) = IsFirstBest cs c

lt_trans : (a b c : ℤ) → lt_ℤ a b ≡ true → lt_ℤ b c ≡ true → lt_ℤ a c ≡ true
lt_trans a b c h h' = ground (arith, h, h')

lt_of_not_above : (a b c : ℤ) → lt_ℤ b a ≡ false → lt_ℤ b c ≡ true → lt_ℤ a c ≡ true
lt_of_not_above a b c h h' = ground (arith, h, h')

lt_of_unusable : (a m c : ℤ) → lt_ℤ a m ≡ true → lt_ℤ c m ≡ false → lt_ℤ a c ≡ true
lt_of_unusable a m c h h' = ground (arith, h, h')

not_above : (a c : ℤ) → lt_ℤ a c ≡ true → lt_ℤ c a ≡ false
not_above a c h = ground (arith, h)

-- The candidate stays when the next is not above it.
kept :
    (cs : List Cand) (s c : Cand) → IsFirstBest cs s → NotAbove s c → IsFirstBest (cs ++ (c ∷ [])) s
kept cs s c b h = record {
  before = b.before;
  after = b.after ++ (c ∷ []);
  split = ap (λ l. l ++ (c ∷ [])) (b.split) ∙ append_assoc (b.before) (s ∷ b.after) (c ∷ []);
  usable = b.usable;
  lower = b.lower;
  not_higher = All-append (NotAbove s) (b.after) (c ∷ []) (b.not_higher) (h, tt);
}

taken :
    (cs : List Cand) (c : Cand)
    → lt_ℤ c.weight min_weight ≡ false
    → All (Below c) cs
    → IsFirstBest (cs ++ (c ∷ [])) c
taken cs c usable lower = record {
  before = cs;
  after = [];
  split = refl;
  usable = usable;
  lower = lower;
  not_higher = tt;
}

all_below : (cs : List Cand) (s c : Cand) → IsFirstBest cs s → Below c s → All (Below c) cs
all_below cs s c b h = subst (All (Below c)) (sym (b.split)) (
    All-append (Below c) (b.before) (s ∷ b.after)
      (All-mono (Below s) (Below c) (b.before) (λ d l. lt_trans d.weight s.weight c.weight l h)
        (b.lower))
      (
        h,
        All-mono (NotAbove s) (Below c) (b.after)
            (λ d l. lt_of_not_above d.weight s.weight c.weight l h) (b.not_higher),
      ))

step-IsBest :
    (cs : List Cand) (c : Cand) (o : Option Cand)
    → IsBest cs o
    → IsBest (cs ++ (c ∷ [])) (if lt_ℤ c.weight min_weight then o else better c o)
step-IsBest cs c none h = elim (Bool-cases (lt_ℤ c.weight min_weight)) [
  | inl low ↦ rw low (All-append IsUnusable cs (c ∷ []) h (low, tt))
  | inr usable ↦ rw usable (
      taken cs c usable (
        All-mono IsUnusable (Below c) cs
          (λ d u. lt_of_unusable d.weight min_weight c.weight u usable) h))
]
step-IsBest cs c (some s) b = elim (Bool-cases (lt_ℤ c.weight min_weight)) [
  | inl low ↦ rw low (
      kept cs s c b
        (not_above c.weight s.weight (lt_of_unusable c.weight min_weight s.weight low (b.usable))))
  | inr usable ↦ elim (Bool-cases (lt_ℤ s.weight c.weight)) [
    | inl more ↦ rw usable rw more (taken cs c usable (all_below cs s c b more))
    | inr less ↦ rw usable rw less (kept cs s c b less)
  ]
]

-- The loop selects the first of the candidates of the greatest weight, if that is at least the least
-- usable weight, and otherwise none.
pub select-IsBest_from :
    (done rest : List Cand) (o : Option Cand)
    → IsBest done o
    → IsBest (done ++ rest) (select rest o)
unfolding select
select-IsBest_from done [] o b = subst (λ l. IsBest l o) (sym (append-nil done)) b
select-IsBest_from done (c ∷ cs) o b =
    subst (λ l. IsBest l (select (c ∷ cs) o)) (append_assoc done (c ∷ []) cs)
      (select-IsBest_from (done ++ (c ∷ [])) cs _ (step-IsBest done c o b))
