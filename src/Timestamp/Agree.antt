-- ===== src/Timestamp/Agree.antt =====
-- The two ways of include/em/os.h to add, subtract and compare time stamps agree.
use emlib.Prelude.{ℕ, ◌+◌, ◌*◌, ◌%◌, ◌<◌, ◌≡◌, ltb, leb, arith, Bool-cases, inl, inr}
use emlib.Timestamp.{
  Halves, word32, cmp_timestamp, add_timestamp, sub_timestamp, cmp_halves, add_halves, add32_halves,
  sub_halves, sub32_halves,
}

abbrev pub value : Halves → ℕ
value t = t.hi * word32 + t.lo

pub record IsHalves (t : Halves) : Type 0 where
  pub high : t.hi < word32
  pub low : t.lo < word32

value-add :
    (h1 l1 h2 l2 : ℕ)
    → h1 < word32
    → l1 < word32
    → h2 < word32
    → l2 < word32
    → value (add_halves (record { hi = h1; lo = l1 }) (record { hi = h2; lo = l2 }))
      ≡ add_timestamp (h1 * word32 + l1) (h2 * word32 + l2)
value-add h1 l1 h2 l2 a b c d = elim (Bool-cases (ltb ((l1 + l2) % word32) l1)) [
  | inl over ↦ rw over (ground (arith, over))
  | inr fits ↦ rw fits (ground (arith, fits))
]

value-add32 :
    (h l t : ℕ)
    → h < word32
    → l < word32
    → t < word32
    → value (add32_halves (record { hi = h; lo = l }) t) ≡ add_timestamp (h * word32 + l) t
value-add32 h l t a b c = elim (Bool-cases (ltb ((l + t) % word32) l)) [
  | inl over ↦ rw over (ground (arith, over))
  | inr fits ↦ rw fits (ground (arith, fits))
]

value-sub :
    (h1 l1 h2 l2 : ℕ)
    → h1 < word32
    → l1 < word32
    → h2 < word32
    → l2 < word32
    → value (sub_halves (record { hi = h1; lo = l1 }) (record { hi = h2; lo = l2 }))
      ≡ sub_timestamp (h1 * word32 + l1) (h2 * word32 + l2)
value-sub h1 l1 h2 l2 a b c d = elim (Bool-cases (leb l2 l1)) [
  | inl enough ↦ rw enough (ground (arith, enough))
  | inr less ↦ rw less (ground (arith, less))
]

value-sub32 :
    (h l t : ℕ)
    → h < word32
    → l < word32
    → t < word32
    → value (sub32_halves (record { hi = h; lo = l }) t) ≡ sub_timestamp (h * word32 + l) t
value-sub32 h l t a b c = elim (Bool-cases (leb t l)) [
  | inl enough ↦ rw enough (ground (arith, enough))
  | inr less ↦ rw less (ground (arith, less))
]

cmp-value :
    (h1 l1 h2 l2 : ℕ)
    → h1 < word32
    → l1 < word32
    → h2 < word32
    → l2 < word32
    → cmp_halves (record { hi = h1; lo = l1 }) (record { hi = h2; lo = l2 })
      ≡ cmp_timestamp (h1 * word32 + l1) (h2 * word32 + l2)
cmp-value h1 l1 h2 l2 a b c d = ground arith

-- For halves below 2 ^ 32 the sums, differences and comparisons on halves, with carry and borrow, are those
-- of the 64-bit numbers that the halves stand for.
pub halves-Agree :
    (t1 t2 : Halves) (t : ℕ)
    → IsHalves t1
    → IsHalves t2
    → t < word32
    → (value (add_halves t1 t2) ≡ add_timestamp (value t1) (value t2))
      × (value (sub_halves t1 t2) ≡ sub_timestamp (value t1) (value t2))
      × (value (add32_halves t1 t) ≡ add_timestamp (value t1) t)
      × (value (sub32_halves t1 t) ≡ sub_timestamp (value t1) t)
      × (cmp_halves t1 t2 ≡ cmp_timestamp (value t1) (value t2))
halves-Agree t1 t2 t v1 v2 h = (
  value-add t1.hi t1.lo t2.hi t2.lo v1.high v1.low v2.high v2.low,
  value-sub t1.hi t1.lo t2.hi t2.lo v1.high v1.low v2.high v2.low,
  value-add32 t1.hi t1.lo t v1.high v1.low h,
  value-sub32 t1.hi t1.lo t v1.high v1.low h,
  cmp-value t1.hi t1.lo t2.hi t2.lo v1.high v1.low v2.high v2.low,
)
