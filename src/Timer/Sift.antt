-- ===== src/Timer/Sift.antt =====
-- The sifting loops of src/timer.c: `reheap_up` and `reheap_down` put the moved entry where the
-- heap order wants it, and keep the table of ids in step.
use emlib.Prelude.{
  ℕ, zero, suc, ◌≤◌, ◌<◌, ◌≡◌, ◌≢◌, refl, true, false, arith, ltb, ◌&&◌, Bool-cases, inl, inr,
}
use emlib.Prelude.Int.{ℤ, eq_ℤ_iff}
use emlib.Time.{TimeVal, time_lt}
use emlib.Time.Order.{NotAfter, time_lt-true, time_lt-false}
use emlib.Timer.{Timers, tid, due, parent, copy_node, reheap_up}
use emlib.Timer.Linked.{IsLive, Linked, AllLinked, copy_node-AllLinked, copy_node-Linked}
use emlib.Timer.Gap.{
  IsOrdered, HasGap, AboveChildren, BelowParent, fill, up-HasGap, up-AboveChildren,
}

-- What sifting into n slots achieves and what it leaves alone.
pub record Sifted (ht : Timers) (n : ℕ) (ht' : Timers) : Type 0 where
  pub linked : AllLinked ht' n
  pub ordered : IsOrdered (due ht') ht'.heap n
  pub entries : ht'.entries ≡ ht.entries
  pub cur_size : ht'.cur_size ≡ ht.cur_size
  pub max_size : ht'.max_size ≡ ht.max_size
  pub freelist : ht'.freelist ≡ ht.freelist
  pub per_poll : ht'.per_poll ≡ ht.per_poll
  pub other_ids :
      (x : ℤ) → ((e : ℕ) → IsLive ht e → tid ht e ≢ x) → ht'.timer_ids x ≡ ht.timer_ids x
  pub outside : (j : ℕ) → n ≤ j → ht'.heap j ≡ ht.heap j

-- What the test of a round of `reheap_up` says.
up_test : (gap : ℕ) (a b : TimeVal) → (ltb 0 gap && time_lt a b) ≡ true → (0 < gap) × NotAfter a b
up_test gap a b h = (ground arith, time_lt-true a b (ground arith))

up_test_fails :
    (gap : ℕ) (a b : TimeVal) → (ltb 0 gap && time_lt a b) ≡ false → 0 < gap → NotAfter b a
up_test_fails gap a b h above = ground (arith, time_lt-false a b)

pub down_test_fails :
    (child n : ℕ) (a b : TimeVal) → (ltb child n && time_lt a b) ≡ false → child < n → NotAfter b a
down_test_fails child n a b h inside = ground (arith, time_lt-false a b)

module _ (n moved : ℕ) where
  pub fill-Sifted :
      (ht : Timers) (gap : ℕ)
      → Linked ht n gap moved
      → HasGap (due ht) n ht.heap gap
      → AboveChildren (due ht) n ht.heap gap moved
      → BelowParent (due ht) n ht.heap gap moved
      → gap < n
      → IsLive ht moved
      → Sifted ht n (copy_node ht gap moved)
  unfolding copy_node
  fill-Sifted ht gap l g above below inside live = record {
    linked = copy_node-AllLinked ht n gap moved l inside live;
    ordered = fill (due ht) n ht.heap gap moved g above below;
    entries = refl;
    cur_size = refl;
    max_size = refl;
    freelist = refl;
    per_poll = refl;
    other_ids = λ x free. ground (arith, free moved, eq_ℤ_iff (tid ht moved) x);
    outside = λ j h. ground arith;
  }

  -- One round: the rest of the loop starts from the gap at `p`.
  pub round-Sifted :
      (ht : Timers) (gap p : ℕ) (ht' : Timers)
      → Linked ht n gap moved
      → gap < n
      → p < n
      → p ≢ gap
      → Sifted (copy_node ht gap (ht.heap p)) n ht'
      → Sifted ht n ht'
  unfolding copy_node
  round-Sifted ht gap p ht' l inside lt ne s = record {
    linked = s.linked;
    ordered = s.ordered;
    entries = s.entries;
    cur_size = s.cur_size;
    max_size = s.max_size;
    freelist = s.freelist;
    per_poll = s.per_poll;
    other_ids = λ x free.
        ground (
          arith,
          s.other_ids x free,
          free (ht.heap p),
          l.located p,
          eq_ℤ_iff (tid ht (ht.heap p)) x,
        );
    outside = λ j h. ground (arith, s.outside j);
  }

  -- With fuel for every slot up to the root, `reheap_up` sifts.
  pub reheap_up-Sifted :
      (fuel : ℕ) (ht : Timers) (gap : ℕ)
      → Linked ht n gap moved
      → HasGap (due ht) n ht.heap gap
      → AboveChildren (due ht) n ht.heap gap moved
      → gap < n
      → IsLive ht moved
      → gap ≤ fuel
      → Sifted ht n (reheap_up fuel ht moved gap (parent gap))
  unfolding reheap_up copy_node
  reheap_up-Sifted zero ht gap l g above inside live fuel =
      fill-Sifted ht gap l g above (λ up. absurd (omega arith)) inside live
  reheap_up-Sifted (suc f) ht gap l g above inside live fuel =
      let up = parent gap in
      elim (Bool-cases (ltb 0 gap && time_lt (due ht moved) (due ht (ht.heap up)))) [
        | inl go ↦ rw go (
            let (positive, early) = up_test gap (due ht moved) (due ht (ht.heap up)) go in
            round-Sifted ht gap up _ l inside (ground arith) (ground arith) (
              reheap_up-Sifted f (copy_node ht gap (ht.heap up)) up
                (copy_node-Linked ht n gap moved l up (ground arith) (ground arith) inside)
                (up-HasGap (due ht) n ht.heap gap moved g positive)
                (up-AboveChildren (due ht) n ht.heap gap moved g positive early) (ground arith) live
                (ground arith)))
        | inr stop ↦ rw stop (
            fill-Sifted ht gap l g above
              (λ h. up_test_fails gap (due ht moved) (due ht (ht.heap up)) stop h) inside live)
      ]
