-- ===== src/Timer/Remove.antt =====
-- `remove_node` of src/timer.c: an entry leaves the heap, and its id goes back to the free list.
use emlib.Prelude.{
  ℕ, suc, ◌-◌, ◌≤◌, ◌<◌, ◌≡◌, refl, sym, ap, subst, ◌∙◌, List, ◌∷◌, ◌++◌, arith, All, All-mono,
  All-left, All-right, Distinct-push, ltb, Bool-cases, inl, inr,
}
use emlib.Prelude.Int.{pos}
use emlib.Timer.{Timers, tid, due, push_freelist, forget, refill, remove_node}
use emlib.Timer.Gap.{IsOrdered}
use emlib.Timer.Linked.{IsLive, AllLinked}
use emlib.Timer.Sift.{Sifted}
use emlib.Timer.Freelist.{IsIdle, Chain, Chain-frame}
use emlib.Timer.Valid.{IsValid}
use emlib.Timer.Refill.{refill-Sifted}
use emlib.Timer.Emptied.{
  emptied, freed, emptied-Linked, emptied-AllLinked, emptied-HasGap, emptied_live, emptied-Chain,
  emptied-IsIdle, avoids, freed_id,
}

-- What `remove_node` does to the rest of the state.
pub record Removed (ht : Timers) (e : ℕ) (ht' : Timers) : Type 0 where
  pub cur_size : suc ht'.cur_size ≡ ht.cur_size
  pub max_size : ht'.max_size ≡ ht.max_size
  pub freelist : ht'.freelist ≡ tid ht e
  pub per_poll : ht'.per_poll ≡ ht.per_poll
  pub entries : ht'.entries ≡ (forget ht e).entries

module _ (ht : Timers) (slot : ℕ) (free held : List ℕ) (v : IsValid ht free held)
    (used : slot < ht.cur_size) where
  abbrev idle_now : List ℕ
  idle_now = freed ht slot free held v used ∷ free

  last-IsLive : slot < ht.cur_size - 1 → IsLive (emptied ht slot) (ht.heap (ht.cur_size - 1))
  unfolding push_freelist
  last-IsLive h = ground (arith, v.linked.located slot, v.linked.located (ht.cur_size - 1))

  stays : (ht.cur_size - 1) ≤ slot → Sifted (emptied ht slot) (ht.cur_size - 1) (emptied ht slot)
  unfolding push_freelist
  stays h = record {
    linked = emptied-AllLinked ht slot free held v used (omega arith);
    ordered = λ i pos_i lt.
        (emptied-HasGap ht slot free held v used).rest i pos_i lt (omega arith) (ground arith);
    entries = refl;
    cur_size = refl;
    max_size = refl;
    freelist = refl;
    per_poll = refl;
    other_ids = λ x f. refl;
    outside = λ j h. refl;
  }

  emptied-Sifted : Sifted (emptied ht slot) (ht.cur_size - 1) (refill (emptied ht slot) slot)
  unfolding refill push_freelist
  emptied-Sifted = elim (Bool-cases (ltb slot (ht.cur_size - 1))) [
    | inl h ↦
        refill-Sifted (emptied ht slot) slot (ground arith)
          (emptied-Linked ht slot free held v used (ground arith))
          (emptied-HasGap ht slot free held v used) (last-IsLive (ground arith))
    | inr h ↦ rw h (stays (ground arith))
  ]

  idle_kept :
      (k : ℕ)
      → IsIdle (emptied ht slot).timer_ids ht.max_size k
      → (refill (emptied ht slot) slot).timer_ids (pos k) ≡ (emptied ht slot).timer_ids (pos k)
  idle_kept k idle =
      emptied-Sifted.other_ids (pos k)
        (λ e live same. ground (arith, emptied_live ht slot free held v used e live, same, idle))

  abbrev IsKept : ℕ → Type 0
  IsKept k =
      ((refill (emptied ht slot) slot).timer_ids (pos k) ≡ (emptied ht slot).timer_ids (pos k))
      × IsIdle (emptied ht slot).timer_ids ht.max_size k

  ids-IsKept : All IsKept (held ++ idle_now)
  ids-IsKept =
      All-mono _ _ (held ++ idle_now) (λ k idle. (idle_kept k idle, idle))
        (emptied-IsIdle ht slot free held v used)

  pub remove_node-Removed : Removed ht (ht.heap slot) (remove_node ht slot).1
  unfolding remove_node push_freelist
  remove_node-Removed = record {
    cur_size = omega (arith, emptied-Sifted.cur_size);
    max_size = emptied-Sifted.max_size;
    freelist = emptied-Sifted.freelist;
    per_poll = emptied-Sifted.per_poll;
    entries = emptied-Sifted.entries;
  }

  free_again : (remove_node ht slot).1.freelist ≡ pos (freed ht slot free held v used)
  free_again = remove_node-Removed.freelist ∙ freed_id ht slot free held v used

  pub remove_node-IsValid :
      IsValid (remove_node ht slot).1 (freed ht slot free held v used ∷ free) held
  unfolding remove_node push_freelist
  remove_node-IsValid =
      let s = emptied-Sifted in
      let m = emptied ht slot in
      record {
        linked = subst (AllLinked (refill m slot)) (sym s.cur_size) s.linked;
        ordered =
            subst (IsOrdered (due (refill m slot)) (refill m slot).heap) (sym s.cur_size) s.ordered;
        bounded =
            λ e live. ground (arith, v.bounded e, s.max_size, ap (λ f. (f e).timer_id) s.entries);
        chain =
            subst (λ x. Chain (refill m slot).timer_ids x (refill m slot).freelist idle_now)
              (sym s.max_size)
              (subst (λ x. Chain (refill m slot).timer_ids ht.max_size x idle_now) (sym free_again)
                (Chain-frame ht.max_size (omega (arith, v.roomy)) m.timer_ids
                  (refill m slot).timer_ids (pos (freed ht slot free held v used)) idle_now
                  (All-mono IsKept _ idle_now (λ k h. h.0)
                    (All-right IsKept held idle_now ids-IsKept))
                  (emptied-Chain ht slot free held v used)));
        distinct =
            Distinct-push held (freed ht slot free held v used) free v.distinct
              (avoids ht slot free held v used);
        reserved =
            All-mono IsKept _ held (λ k h. rw (s.max_size, h.0) h.1)
              (All-left IsKept held idle_now ids-IsKept);
        counted = omega (arith, v.counted, s.cur_size, s.max_size);
        roomy = omega (arith, v.roomy, s.cur_size, s.max_size);
      }
