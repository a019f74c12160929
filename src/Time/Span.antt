-- ===== src/Time/Span.antt =====
-- Time values of include/em/types.h up to the span that they stand for, as a quotient, and em_time_val_normalize of
-- src/os_time_common.c as the choice of one value of each span.
use mathlib.Core.Quot
use mathlib.Core.Quot.{Quot, Quot-set}
use emlib.Prelude.{◌+◌, ◌≡◌, ◌⊎◌, ap, ◌∙◌, arith}
use emlib.Prelude.Int.{ℤ, pos_part, neg_part, eq_of_parts}
use emlib.Time.{TimeVal, normalize}
use emlib.Time.Normalize.{SameSpan, IsNormal, normalize_lem}

abbrev pub Span : Type 0
Span = Quot SameSpan

ℤ_set : IsSet ℤ
ℤ_set = hlevel

TimeVal_set : IsSet TimeVal
TimeVal_set = hlevel

one_sign : (x : ℤ) → (pos_part x ≡ 0) ⊎ (neg_part x ≡ 0)
one_sign x = ground arith

same_second :
    (a b : TimeVal)
    → IsNormal a
    → IsNormal b
    → SameSpan a b
    → pos_part a.sec + neg_part b.sec ≡ pos_part b.sec + neg_part a.sec
same_second a b na nb h = ground (
  arith,
  one_sign a.sec,
  one_sign a.msec,
  one_sign b.sec,
  one_sign b.msec,
  na.ahead,
  na.back,
  nb.ahead,
  nb.back,
  na.high,
  na.low,
  nb.high,
  nb.low,
  h,
)

-- Normal time values of one span are one.
IsNormal-unique : (a b : TimeVal) → IsNormal a → IsNormal b → SameSpan a b → a ≡ b
IsNormal-unique a b na nb h =
    let s = same_second a b na nb h in
    ap (λ x. record { sec = x; msec = a.msec }) (eq_of_parts a.sec b.sec s)
    ∙ ap (λ x. record { sec = b.sec; msec = x }) (eq_of_parts a.msec b.msec (omega (arith, s, h)))

normalize-respects : (a b : TimeVal) → SameSpan a b → normalize a ≡ normalize b
normalize-respects a b h =
    let (sa, na) = normalize_lem a in
    let (sb, nb) = normalize_lem b in
    IsNormal-unique (normalize a) (normalize b) na nb (omega (arith, sa, sb, h))

-- The normal value of a span
pub normal : Span → TimeVal
normal = Quot.lift TimeVal_set normalize normalize-respects

normal-represents : (s : Span) → Quot.mk (normal s) ≡ s
unfolding normal
normal-represents = Quot.ind (λ s. Quot-set _ _) (λ a. Quot.sound (normalize_lem a).0)

normal-IsNormal : (s : Span) → ∥ IsNormal (normal s) ∥₁
unfolding normal
normal-IsNormal = Quot.ind (λ s. hlevel) (λ a. ∣ (normalize_lem a).1 ∣₁)

-- em_time_val_normalize gives the same for all time values of one span, and so gives one value for each
-- element of the quotient by equal spans: that value is normal and stands for the span, and a normal
-- time value is the one that its own span has.
pub normalize-chooses :
    (s : Span) (t : TimeVal)
    → IsNormal t
    → (Quot.mk (normal s) ≡ s) × ∥ IsNormal (normal s) ∥₁ × (normal (Quot.mk t) ≡ t)
unfolding normal
normalize-chooses s t n = (
  normal-represents s,
  normal-IsNormal s,
  IsNormal-unique (normalize t) t (normalize_lem t).1 n (normalize_lem t).0,
)
