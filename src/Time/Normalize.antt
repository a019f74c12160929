-- ===== src/Time/Normalize.antt =====
-- `em_time_val_normalize` of src/os_time_common.c: it keeps the span and makes its form unique.
use emlib.Prelude.{ℕ, zero, suc, ◌+◌, ◌*◌, ◌/◌, ◌≤◌, ◌<◌, ◌≡◌, refl, ap, ◌∙◌, arith, ◌⊎◌}
use emlib.Prelude.Int.{
  ℤ, pos, ◌+ℤ◌, ◌-ℤ◌, pos_part, neg_part, sub_ℕ, +ℤ_parts, -ℤ_parts, eq_of_parts, +ℤ_cancel,
}
use emlib.Time.{TimeVal, borrow, carry, align, normalize, time_add, time_sub}

-- EM_TIME_VAL_MSEC: the span in milliseconds.
unfoldable pub total_msec : TimeVal → ℤ
total_msec t =
    sub_ℕ (pos_part t.sec * 1000 + pos_part t.msec) (neg_part t.sec * 1000 + neg_part t.msec)

-- `omega` reads a span through its parts.
pub total_parts :
    (t : TimeVal)
    → pos_part (total_msec t) + (neg_part t.sec * 1000 + neg_part t.msec)
      ≡ neg_part (total_msec t) + (pos_part t.sec * 1000 + pos_part t.msec)
unfolding total_msec
total_parts t = ground arith

-- Two spans are the same number of milliseconds.
abbrev pub SameSpan : TimeVal → TimeVal → Type 0
SameSpan a b =
    pos_part a.sec * 1000 + pos_part a.msec + (neg_part b.sec * 1000 + neg_part b.msec)
    ≡ pos_part b.sec * 1000 + pos_part b.msec + (neg_part a.sec * 1000 + neg_part a.msec)

-- Less than a second of milliseconds, of the same sign as the seconds.
pub record IsNormal (t : TimeVal) : Type 0 where
  pub high : pos_part t.msec < 1000
  pub low : neg_part t.msec < 1000
  pub ahead : (pos_part t.sec ≡ 0) ⊎ (neg_part t.msec ≡ 0)
  pub back : (neg_part t.sec ≡ 0) ⊎ (pos_part t.msec ≡ 0)

borrow-SameSpan : (fuel : ℕ) (t : TimeVal) → SameSpan (borrow fuel t) t
unfolding borrow
borrow-SameSpan zero t = refl
borrow-SameSpan (suc fuel) t = ground (
  arith,
  +ℤ_parts t.msec (pos 1000),
  -ℤ_parts t.sec (pos 1),
  borrow-SameSpan fuel (record { sec = t.sec -ℤ pos 1; msec = t.msec +ℤ pos 1000 }),
)

-- The loop ends by its own test, with less than a second left.
borrow-small :
    (fuel : ℕ) (t : TimeVal)
    → neg_part t.msec ≤ fuel
    → 1000 ≤ neg_part t.msec
    → (pos_part (borrow fuel t).msec ≡ 0) × (neg_part (borrow fuel t).msec < 1000)
unfolding borrow
borrow-small zero t h big = absurd (omega arith)
borrow-small (suc fuel) t h big = ground (
  arith,
  +ℤ_parts t.msec (pos 1000),
  -ℤ_parts t.sec (pos 1),
  borrow-small fuel (record { sec = t.sec -ℤ pos 1; msec = t.msec +ℤ pos 1000 }),
)

carry-SameSpan : (t : TimeVal) → SameSpan (carry t) t
unfolding carry
carry-SameSpan t =
    ground
      (arith, +ℤ_parts t.sec (pos (pos_part t.msec / 1000)), borrow-SameSpan (neg_part t.msec) t)

carry-small : (t : TimeVal) → (pos_part (carry t).msec < 1000) × (neg_part (carry t).msec < 1000)
unfolding carry
carry-small t = ground (arith, borrow-small (neg_part t.msec) t)

align-SameSpan : (t : TimeVal) → SameSpan (align t) t
unfolding align
align-SameSpan t = ground (
  arith,
  +ℤ_parts t.sec (pos 1),
  -ℤ_parts t.sec (pos 1),
  +ℤ_parts t.msec (pos 1000),
  -ℤ_parts t.msec (pos 1000),
)

align-IsNormal :
    (t : TimeVal) → pos_part t.msec < 1000 → neg_part t.msec < 1000 → IsNormal (align t)
unfolding align ◌+ℤ◌ ◌-ℤ◌
align-IsNormal t h l = record {
  high = ground arith;
  low = ground arith;
  ahead = ground arith;
  back = ground arith;
}

-- Normalising keeps the span and yields the normal form, from every input.
pub normalize_lem : (t : TimeVal) → SameSpan (normalize t) t × IsNormal (normalize t)
unfolding normalize
normalize_lem t =
    let (h, l) = carry-small t in
    (omega (arith, align-SameSpan (carry t), carry-SameSpan t), align-IsNormal (carry t) h l)

-- The normal form of a span is unique.
IsNormal-unique : (a b : TimeVal) → IsNormal a → IsNormal b → SameSpan a b → a ≡ b
IsNormal-unique a b na nb same = ground (arith, eq_of_parts a.sec b.sec, eq_of_parts a.msec b.msec)

-- EM_TIME_VAL_ADD and EM_TIME_VAL_SUB add and subtract the spans in milliseconds of their
-- arguments, in whatever form these are, and leave a normal value.
pub time_add_total :
    (a b : TimeVal)
    → (total_msec (time_add a b) ≡ total_msec a +ℤ total_msec b)
      × (total_msec (time_sub a b) ≡ total_msec a -ℤ total_msec b)
      × IsNormal (time_add a b)
      × IsNormal (time_sub a b)
unfolding time_add time_sub
time_add_total a b =
    let sum : TimeVal = record { sec = a.sec +ℤ b.sec; msec = a.msec +ℤ b.msec } in
    let diff : TimeVal = record { sec = a.sec -ℤ b.sec; msec = a.msec -ℤ b.msec } in
    let (s, n) = normalize_lem sum in
    let (s', n') = normalize_lem diff in
    (
      omega (
        arith,
        s,
        eq_of_parts (total_msec (normalize sum)) (total_msec a +ℤ total_msec b),
        total_parts a,
        total_parts b,
        total_parts (normalize sum),
        +ℤ_parts a.sec b.sec,
        +ℤ_parts a.msec b.msec,
        +ℤ_parts (total_msec a) (total_msec b),
      ),
      omega (
        arith,
        s',
        eq_of_parts (total_msec (normalize diff)) (total_msec a -ℤ total_msec b),
        total_parts a,
        total_parts b,
        total_parts (normalize diff),
        -ℤ_parts a.sec b.sec,
        -ℤ_parts a.msec b.msec,
        -ℤ_parts (total_msec a) (total_msec b),
      ),
      n,
      n',
    )

-- From a normal value to which another was added, subtracting that other gives the value back.
pub time_sub-time_add : (a b : TimeVal) → IsNormal a → time_sub (time_add a b) b ≡ a
time_sub-time_add a b n =
    let (e, _, na, _) = time_add_total a b in
    let (_, e', _, ns) = time_add_total (time_add a b) b in
    let back : total_msec (time_sub (time_add a b) b) ≡ total_msec a =
      e' ∙ (ap (λ t. t -ℤ total_msec b) e ∙ +ℤ_cancel (total_msec a) (total_msec b)) in
    IsNormal-unique (time_sub (time_add a b) b) a ns n (
      omega (
        arith,
        total_parts a,
        total_parts (time_sub (time_add a b) b),
        ap pos_part back,
        ap neg_part back,
      ))

pub normalize-of_seconds :
    (n : ℕ)
    → normalize (record { sec = pos n; msec = pos 0 }) ≡ record { sec = pos n; msec = pos 0 }
unfolding normalize carry align
normalize-of_seconds n = ground arith
