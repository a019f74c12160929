-- ===== src/Timer/Refill.antt =====
-- The last part of `remove_node` of src/timer.c: the last entry fills the slot that became free.
use emlib.Prelude.{ℕ, ◌<◌, ◌≡◌, true, false, arith, lt→ltb, Bool-cases, inl, inr}
use emlib.Prelude.Int.{eq_ℤ_iff}
use emlib.Time.{time_gte}
use emlib.Time.Order.{NotAfter-trans, time_gte-true, time_gte-false, time_gte_self}
use emlib.Timer.{Timers, tid, due, parent, copy_node, refill}
use emlib.Timer.Gap.{HasGap, BelowParent, AboveChildren}
use emlib.Timer.Linked.{IsLive, Linked}
use emlib.Timer.Sift.{Sifted, reheap_up-Sifted}
use emlib.Timer.Down.{reheap_down-Sifted}

-- The entry is in the gap already when the loop starts.
module _ (ht : Timers) (slot moved : ℕ) where
  abbrev mid : Timers
  mid = copy_node ht slot moved

  mid-Linked : {n : ℕ} → Linked ht n slot moved → Linked mid n slot moved
  unfolding copy_node
  mid-Linked l = record {
    located = λ i lt ne.
        ground
          (arith, l.located i, l.apart (ht.heap i), eq_ℤ_iff (tid ht moved) (tid ht (ht.heap i)));
    placed = λ e live ne. ground (arith, l.placed e, l.apart e, eq_ℤ_iff (tid ht moved) (tid ht e));
    apart = l.apart;
  }

  mid-HasGap : {n : ℕ} → HasGap (due ht) n ht.heap slot → HasGap (due mid) n mid.heap slot
  unfolding copy_node
  mid-HasGap g = record {
    rest = λ i h lt ne ne'. ground (arith, g.rest i);
    across = λ i h lt e pos_slot. ground (arith, g.across i);
  }

  mid-Sifted :
      {n : ℕ} {ht' : Timers} → slot < n → IsLive ht moved → Sifted mid n ht' → Sifted ht n ht'
  unfolding copy_node
  mid-Sifted inside live s = record {
    linked = s.linked;
    ordered = s.ordered;
    entries = s.entries;
    cur_size = s.cur_size;
    max_size = s.max_size;
    freelist = s.freelist;
    per_poll = s.per_poll;
    other_ids = λ x free. ground (arith, s.other_ids x free, free moved, eq_ℤ_iff (tid ht moved) x);
    outside = λ j h. ground (arith, s.outside j);
  }

  -- Not due after the parent: nor after the children. At the root the test is passed.
  early-AboveChildren :
      {n : ℕ}
      → HasGap (due ht) n ht.heap slot
      → time_gte (due mid moved) (due mid (mid.heap (parent slot))) ≡ false
      → AboveChildren (due mid) n mid.heap slot moved
  unfolding copy_node
  early-AboveChildren g early i h lt e = ground (
    arith,
    g.across i,
    time_gte-false (due ht moved) (due ht (ht.heap (parent slot))),
    time_gte_self (due ht moved),
    NotAfter-trans (due ht moved) (due ht (ht.heap (parent slot))) (due ht (ht.heap i)),
  )

  late-BelowParent :
      (n : ℕ)
      → time_gte (due mid moved) (due mid (mid.heap (parent slot))) ≡ true
      → BelowParent (due mid) n mid.heap slot moved
  late-BelowParent n late pos_slot =
      time_gte-true (due mid moved) (due mid (mid.heap (parent slot))) late

-- The entry behind the last slot moves into the gap and one of the two loops restores the order.
pub refill-Sifted :
    (ht : Timers) (slot : ℕ)
    → slot < ht.cur_size
    → Linked ht ht.cur_size slot (ht.heap ht.cur_size)
    → HasGap (due ht) ht.cur_size ht.heap slot
    → IsLive ht (ht.heap ht.cur_size)
    → Sifted ht ht.cur_size (refill ht slot)
unfolding refill copy_node
refill-Sifted ht slot inside l g live =
    let moved = ht.heap ht.cur_size in
    let m = mid ht slot moved in
    elim (Bool-cases (time_gte (due m moved) (due m (m.heap (parent slot))))) [
      | inl late ↦
          rw (lt→ltb slot ht.cur_size inside, late)
            (mid-Sifted ht slot moved inside live (
              reheap_down-Sifted moved m.cur_size m slot (mid-Linked ht slot moved l)
                (mid-HasGap ht slot moved g) (late-BelowParent ht slot moved m.cur_size late) inside
                live (omega arith)))
      | inr early ↦
          rw (lt→ltb slot ht.cur_size inside, early)
            (mid-Sifted ht slot moved inside live (
              reheap_up-Sifted ht.cur_size moved slot m slot (mid-Linked ht slot moved l)
                (mid-HasGap ht slot moved g) (early-AboveChildren ht slot moved g early) inside live
                (omega arith)))
    ]
