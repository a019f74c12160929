-- ===== src/Timer/Insert.antt =====
-- `schedule_entry` of src/timer.c: an id from the free list, room for one more, and a place in the
-- heap.
use emlib.Prelude.{
  ℕ, suc, ◌+◌, ◌≤◌, ◌≡◌, ◌≢◌, sym, ap, subst, List, ◌∷◌, ◌++◌, arith, All, All-append, All-mono,
  All-and, All-left, All-right, Avoids, Distinct-pop,
}
use native.Mathlib.Decide.{ℕ_discrete}
use emlib.Prelude.Int.{pos, pos_part}
use emlib.Time.{TimeVal}
use emlib.Timer.{Timers, tid, due, parent, pop_freelist, assign, reheap_up}
use emlib.Timer.Gap.{HasGap}
use emlib.Timer.Linked.{Linked}
use emlib.Timer.Sift.{Sifted, reheap_up-Sifted}
use emlib.Timer.Freelist.{IsIdle, Chain-IsIdle, Chain-frame}
use emlib.Timer.Valid.{IsValid, IsPending}

module _ (ht : Timers) (e k : ℕ) (time : TimeVal) (free held : List ℕ)
    (v : IsValid ht (k ∷ free) held) (unused : pos_part (tid ht e) ≡ 0) where
  head-IsIdle : IsIdle ht.timer_ids ht.max_size k
  head-IsIdle =
      (Chain-IsIdle ht.max_size (omega (arith, v.roomy)) ht.timer_ids ht.freelist (k ∷ free)
        v.chain).0

  taken : ht.freelist ≡ pos k
  taken = v.chain.0

  pub assign-IsPending : IsPending (assign ht e time) e free held
  unfolding pop_freelist
  assign-IsPending =
      let (d, av) = Distinct-pop held k free v.distinct in
      record {
        linked = record {
          located = λ i lt ne. ground (arith, v.linked.located i);
          placed = λ d live ne. ground (arith, v.linked.placed d);
          apart = λ d live ne same. ground (arith, v.linked.placed d, head-IsIdle, taken);
        };
        ordered =
            λ i h lt. ground (arith, v.ordered i, v.linked.located i, v.linked.located (parent i));
        live = ground (arith, taken, head-IsIdle);
        bounded = λ d live. ground (arith, v.bounded d, taken, head-IsIdle);
        chain = rw taken v.chain.3;
        distinct = d;
        own =
            subst (λ x. Avoids x (held ++ free)) {x = k} {y = pos_part (tid (assign ht e time) e)}
              (ground (arith, taken)) av;
        reserved = v.reserved;
        counted = ground (arith, v.counted);
      }

-- The ids of live entries are not idle: an idle id is untouched by the sifting.
Sifted-idle :
    {ht ht' : Timers} {n e max : ℕ}
    → Linked ht (suc n) n e
    → Sifted ht (suc n) ht'
    → (k : ℕ) → pos_part (tid ht e) ≢ k
    → IsIdle ht.timer_ids max k
    → ht'.timer_ids (pos k) ≡ ht.timer_ids (pos k)
Sifted-idle {ht} {e} l s k ne idle = s.other_ids (pos k) (λ d live same. elim (ℕ_discrete d e) [
  | yes eq ↦ ne (ap pos_part (rw eq at same))
  | no ne' ↦ ground (arith, l.placed d live ne', same)
])

module _ (ht : Timers) (e : ℕ) (free held : List ℕ) (p : IsPending ht e free held) where
  pending_gap : HasGap (due ht) (suc ht.cur_size) ht.heap ht.cur_size
  pending_gap = record {
    rest = λ i h lt ne ne'. p.ordered i h (omega arith);
    across = λ i h lt e' g. absurd (ground arith);
  }

  pub place-Sifted :
      Sifted ht (suc ht.cur_size) (reheap_up ht.cur_size ht e ht.cur_size (parent ht.cur_size))
  place-Sifted =
      reheap_up-Sifted (suc ht.cur_size) e ht.cur_size ht ht.cur_size p.linked pending_gap
        (λ i h lt same. absurd (ground arith)) (omega arith) p.live (omega arith)

  pub pending-IsIdle : All (IsIdle ht.timer_ids ht.max_size) (held ++ free)
  pending-IsIdle =
      All-append (IsIdle ht.timer_ids ht.max_size) held free p.reserved
        (Chain-IsIdle ht.max_size (omega (arith, p.counted)) ht.timer_ids ht.freelist free p.chain)

  -- The table at the idle ids is as it was.
  IsIdle-same :
      {ht' : Timers}
      → Sifted ht (suc ht.cur_size) ht'
      → All
          (λ k. (ht'.timer_ids (pos k) ≡ ht.timer_ids (pos k)) × IsIdle ht.timer_ids ht.max_size k)
          (held ++ free)
  IsIdle-same s =
      All-mono _ _ (held ++ free) (λ k h. (Sifted-idle p.linked s k (λ e'. h.0 (sym e')) h.1, h.1))
        (All-and (λ k. k ≢ pos_part (tid ht e)) (IsIdle ht.timer_ids ht.max_size) (held ++ free)
          p.own pending-IsIdle)

  -- The heap after the sifting, counting the new entry.
  pub seated-IsValid :
      (ht' : Timers)
      → Sifted ht (suc ht.cur_size) ht'
      → suc ht.cur_size + 2 ≤ ht.max_size
      → IsValid (record ht' { cur_size = ht'.cur_size + 1 }) free held
  seated-IsValid ht' s room =
      let size : ht'.cur_size + 1 ≡ suc ht.cur_size = omega (arith, s.cur_size) in
      record {
        linked = record {
          located = λ i lt. s.linked.located i (rw size at lt);
          placed = λ d live. rw size (s.linked.placed d live);
        };
        ordered = λ i h lt. s.ordered i h (rw size at lt);
        bounded = λ d live. rw (s.max_size, s.entries) (p.bounded d (rw s.entries at live));
        chain =
            rw (s.max_size, s.freelist)
              (Chain-frame ht.max_size (omega (arith, p.counted)) ht.timer_ids ht'.timer_ids
                ht.freelist free
                (All-mono _ _ free (λ k h. h.0) (All-right _ held free (IsIdle-same s))) p.chain);
        distinct = p.distinct;
        reserved =
            All-mono _ _ held (λ k h. rw (s.max_size, h.0) h.1)
              (All-left _ held free (IsIdle-same s));
        counted = omega (arith, p.counted, s.cur_size, s.max_size);
        roomy = omega (arith, s.cur_size, s.max_size);
      }
