-- ===== src/Timer/Grow.antt =====
-- `grow_heap` of src/timer.c: twice the room, with the new ids behind the old free list.
use emlib.Prelude.{
  ℕ, ◌*◌, ◌≤◌, ◌<◌, ◌≡◌, ◌≢◌, subst, List, [], ◌∷◌, ◌++◌, arith, All, All-append, All-mono, Avoids,
  Distinct, Distinct-append, length-append, append_assoc, ltb, if◌then◌else◌,
}
use emlib.Prelude.Int.{ℤ, pos, neg, pos_part}
use emlib.Timer.{Timers, tid, grown_ids}
use emlib.Timer.Freelist.{
  IsIdle, Chain, ids_from, length-ids_from, ids_from-ge, ids_from-Distinct, Chain-ids_from,
}
use emlib.Timer.Insert.{pending-IsIdle}
use emlib.Timer.Valid.{IsPending}

-- The heap after `grow_heap` got its two arrays.
abbrev pub grown : Timers → (ℕ → ℕ) → (ℤ → ℤ) → Timers
grown ht h t = record ht {
  max_size = ht.max_size * 2;
  heap = λ i. if ltb i ht.max_size then ht.heap i else h i;
  timer_ids = grown_ids ht t;
}

-- A free list that is continued in a larger table.
Chain-append :
    (ids ids' : ℤ → ℤ) (max max' : ℕ) (f : ℤ) (l r : List ℕ)
    → max ≤ max'
    → ((k : ℕ) → k < max → ids' (pos k) ≡ ids (pos k))
    → Chain ids max f l
    → Chain ids' max' (pos max) r
    → Chain ids' max' f (l ++ r)
Chain-append ids ids' max max' f [] r le same c c' = rw c c'
Chain-append ids ids' max max' f (k ∷ l) r le same c c' = (
  c.0,
  c.1,
  omega arith,
  Chain-append ids ids' max max' (neg (ids' (pos k))) l r le same (rw (same k c.2) c.3) c',
)

module _ (ht : Timers) (e : ℕ) (free held : List ℕ) (p : IsPending ht e free held) (h : ℕ → ℕ)
    (t : ℤ → ℤ) where
  abbrev pub added : List ℕ
  added = ids_from ht.max_size ht.max_size

  All-below : All (λ k. k < ht.max_size) (held ++ free)
  All-below = All-mono _ _ (held ++ free) (λ k idle. idle.1) (pending-IsIdle ht e free held p)

  grown-Distinct : Distinct (held ++ (free ++ added))
  grown-Distinct = subst Distinct (append_assoc held free added) (
      Distinct-append (held ++ free) added p.distinct (ids_from-Distinct ht.max_size ht.max_size) (
        All-mono (λ k. k < ht.max_size) (λ k. Avoids k added) (held ++ free)
          (λ k lt.
            All-mono (λ x. ht.max_size ≤ x) (λ x. x ≢ k) added (λ x le. omega arith)
              (ids_from-ge ht.max_size ht.max_size ht.max_size (omega arith)))
          All-below))

  grown-own : Avoids (pos_part (tid ht e)) (held ++ (free ++ added))
  grown-own = subst (Avoids (pos_part (tid ht e))) (append_assoc held free added) (
      All-append (λ x. x ≢ pos_part (tid ht e)) (held ++ free) added p.own
        (All-mono (λ x. ht.max_size ≤ x) (λ x. x ≢ pos_part (tid ht e)) added
          (λ x le. omega (arith, p.bounded e p.live))
          (ids_from-ge ht.max_size ht.max_size ht.max_size (omega arith))))

  grown-Chain : Chain (grown_ids ht t) (ht.max_size * 2) ht.freelist (free ++ added)
  grown-Chain =
      Chain-append ht.timer_ids (grown_ids ht t) ht.max_size (ht.max_size * 2) ht.freelist free
        added (omega arith) (λ k lt. ground arith) p.chain
        (Chain-ids_from (grown_ids ht t) (ht.max_size * 2) ht.max_size ht.max_size
          (λ x le lt. ground arith) (omega (arith, p.counted)) (omega arith))

  pub grown-IsPending : IsPending (grown ht h t) e (free ++ added) held
  grown-IsPending = record {
    linked = record {
      located = λ i lt ne. ground (arith, p.linked.located i, p.bounded (ht.heap i), p.counted);
      placed = λ d live ne. ground (arith, p.linked.placed d, p.bounded d, p.counted);
      apart = p.linked.apart;
    };
    ordered = λ i pos_i lt. ground (arith, p.ordered i, p.counted);
    live = p.live;
    bounded = λ d live. ground (arith, p.bounded d);
    chain = grown-Chain;
    distinct = grown-Distinct;
    own = grown-own;
    reserved =
        All-mono (IsIdle ht.timer_ids ht.max_size) _ held (λ k idle. ground arith) p.reserved;
    counted =
        omega (arith, p.counted, length-append free added, length-ids_from ht.max_size ht.max_size);
  }
