-- ===== src/Timer/Emptied.antt =====
-- `remove_node` of src/timer.c before the free slot is filled: the id goes back to the free list.
use emlib.Prelude.{
  ℕ, ◌-◌, ◌<◌, ◌≡◌, ◌≢◌, sym, ap, subst, List, ◌∷◌, ◌++◌, arith, All, All-append, All-mono,
  All-right, Avoids,
}
use emlib.Prelude.Int.{pos, neg, pos_part, neg_part, eq_ℤ_iff}
use emlib.Time.Order.{NotAfter-trans}
use emlib.Timer.{Timers, tid, due, put_id, parent, push_freelist, forget}
use emlib.Timer.Gap.{HasGap}
use emlib.Timer.Linked.{IsLive, Linked, AllLinked}
use emlib.Timer.Freelist.{IsIdle, Chain, Chain-IsIdle, Chain-push}
use emlib.Timer.Valid.{IsValid}

-- The heap after the id of the entry at `slot` went back and before the slot is refilled.
abbrev pub emptied : Timers → ℕ → Timers
emptied ht slot =
    let ht' = push_freelist ht (tid ht (ht.heap slot)) in
    forget (record ht' { cur_size = ht'.cur_size - 1 }) (ht.heap slot)

module _ (ht : Timers) (slot : ℕ) (free held : List ℕ) (v : IsValid ht free held)
    (used : slot < ht.cur_size) where
  abbrev pub removed : ℕ
  removed = ht.heap slot

  abbrev pub last : ℕ
  last = ht.cur_size - 1

  -- The entry that stood last moves into the free slot.
  pub emptied-Linked : slot < last → Linked (emptied ht slot) last slot (ht.heap last)
  unfolding push_freelist
  emptied-Linked h = record {
    located = λ i lt ne. ground (
      arith,
      v.linked.located i,
      v.linked.located slot,
      v.linked.located last,
      eq_ℤ_iff (tid ht removed) (tid ht (ht.heap i)),
    );
    placed = λ e live ne. ground (
      arith,
      v.linked.placed e,
      v.linked.located slot,
      v.linked.located last,
      eq_ℤ_iff (tid ht removed) (tid ht e),
    );
    apart = λ e live ne same.
        ground (arith, v.linked.placed e, v.linked.located slot, v.linked.located last);
  }

  pub emptied-AllLinked : slot ≡ last → AllLinked (emptied ht slot) last
  unfolding push_freelist
  emptied-AllLinked h = record {
    located = λ i lt. ground (
      arith,
      v.linked.located i,
      v.linked.located slot,
      eq_ℤ_iff (tid ht removed) (tid ht (ht.heap i)),
    );
    placed = λ e live.
        ground
          (arith, v.linked.placed e, v.linked.located slot, eq_ℤ_iff (tid ht removed) (tid ht e));
  }

  pub due-emptied : (e : ℕ) → due (emptied ht slot) e ≡ due ht e
  unfolding push_freelist
  due-emptied e = ground arith

  pub emptied-HasGap : HasGap (due (emptied ht slot)) last ht.heap slot
  emptied-HasGap = record {
    rest = λ i h lt ne ne'.
        rw (due-emptied (ht.heap (parent i)), due-emptied (ht.heap i))
          (v.ordered i h (omega arith));
    across = λ i h lt e g.
        rw (due-emptied (ht.heap (parent slot)), due-emptied (ht.heap i))
          (NotAfter-trans (due ht (ht.heap (parent slot))) (due ht (ht.heap slot))
            (due ht (ht.heap i)) (v.ordered slot g used) (rw e at (v.ordered i h (omega arith))));
  }

  abbrev pub freed : ℕ
  freed = pos_part (tid ht removed)

  pub freed_id : tid ht removed ≡ pos freed
  freed_id = ground (arith, v.linked.located slot)

  -- The tables of ids, with the id that went back.
  pub emptied_ids : (emptied ht slot).timer_ids ≡ put_id ht.timer_ids (pos freed) (neg ht.freelist)
  unfolding push_freelist
  emptied_ids = ap (λ x. put_id ht.timer_ids x (neg ht.freelist)) freed_id

  pub emptied_live :
      (e : ℕ)
      → IsLive (emptied ht slot) e
      → neg_part ((emptied ht slot).timer_ids (tid (emptied ht slot) e)) ≡ 0
  unfolding push_freelist
  emptied_live e live =
      ground (arith, v.linked.placed e, v.linked.located slot, eq_ℤ_iff (tid ht removed) (tid ht e))

  IsIdle-in_emptied :
      (k : ℕ)
      → IsIdle ht.timer_ids ht.max_size k
      → (k ≢ freed) × IsIdle (put_id ht.timer_ids (pos freed) (neg ht.freelist)) ht.max_size k
  IsIdle-in_emptied k idle =
      ground (arith, v.linked.located slot, freed_id, eq_ℤ_iff (pos freed) (pos k))

  pub avoids : Avoids freed (held ++ free)
  avoids =
      All-mono _ _ (held ++ free) (λ k idle. (IsIdle-in_emptied k idle).0)
        (All-append (IsIdle ht.timer_ids ht.max_size) held free v.reserved
          (Chain-IsIdle ht.max_size (omega (arith, v.roomy)) ht.timer_ids ht.freelist free v.chain))

  pub emptied-Chain : Chain (emptied ht slot).timer_ids ht.max_size (pos freed) (freed ∷ free)
  emptied-Chain =
      subst (λ ids. Chain ids ht.max_size (pos freed) (freed ∷ free)) (sym emptied_ids)
        (Chain-push ht.max_size (omega (arith, v.roomy)) ht.timer_ids ht.freelist free freed v.chain
          ((v.linked.located slot used).0) (v.bounded removed (v.linked.located slot used).0)
          (All-right _ held free avoids))

  pub emptied-IsIdle : All (IsIdle (emptied ht slot).timer_ids ht.max_size) (held ++ (freed ∷ free))
  emptied-IsIdle =
      All-append (IsIdle (emptied ht slot).timer_ids ht.max_size) held (freed ∷ free)
        (All-mono _ _ held
          (λ k idle.
            subst (λ ids. IsIdle ids ht.max_size k) (sym emptied_ids) (IsIdle-in_emptied k idle).1)
          v.reserved)
        (Chain-IsIdle ht.max_size (omega (arith, v.roomy)) (emptied ht slot).timer_ids (pos freed)
          (freed ∷ free) emptied-Chain)
