-- ===== src/Timer/Cancel.antt =====
-- `cancel` of src/timer.c.
use emlib.Prelude.{
  ℕ, ◌+◌, ◌≡◌, ◌≢◌, refl, sym, ap, subst, true, false, List, ◌∷◌, arith, Bool-cases, inl, inr,
}
use emlib.Prelude.Int.{pos, pos_part, lt_ℤ}
use emlib.Timer.{Timers, tid, forget, cancel, remove_node, entry_running, if◌then◌else◌}
use emlib.Timer.Linked.{IsLive, slot_of}
use emlib.Timer.Remove.{Removed, remove_node-IsValid, remove_node-Removed}
use emlib.Timer.Valid.{IsValid}

-- The tests of `cancel` for the entry of a live id.
cancel_live :
    (ht : Timers) (e : ℕ) (free held : List ℕ)
    → IsValid ht free held
    → IsLive ht e
    → cancel ht e ≡ (1, (remove_node ht (slot_of ht e)).1)
unfolding cancel
cancel_live ht e free held v live = ground (arith, v.linked.placed e, v.bounded e)

-- `forget` of an entry that is not scheduled changes no live entry.
forget-IsValid :
    (ht : Timers) (e : ℕ) (free held : List ℕ)
    → IsValid ht free held
    → pos_part (tid ht e) ≡ 0
    → IsValid (forget ht e) free held
forget-IsValid ht e free held v idle = record {
  linked = record {
    located = λ i lt. ground (arith, v.linked.located i);
    placed = λ d live. ground (arith, v.linked.placed d);
  };
  ordered = λ i h lt. ground (arith, v.ordered i h lt);
  bounded = λ d live. ground (arith, v.bounded d);
  chain = v.chain;
  distinct = v.distinct;
  reserved = v.reserved;
  counted = v.counted;
  roomy = v.roomy;
}

-- `cancel` of a scheduled entry answers 1 and leaves a valid heap without it. The entry is no longer
-- scheduled, its id is the first of the free list, and the other entries are as they were.
pub cancel-Removed :
    (ht : Timers) (e : ℕ) (free held : List ℕ)
    → IsValid ht free held
    → IsLive ht e
    → ((cancel ht e).0 ≡ 1)
      × IsValid (cancel ht e).1 (pos_part (tid ht e) ∷ free) held
      × Removed ht e (cancel ht e).1
cancel-Removed ht e free held v live =
    let (_, used, here) = v.linked.placed e live in
    let slot = slot_of ht e in
    let same = sym (cancel_live ht e free held v live) in
    (
      ap (λ p. p.0) (sym same),
      subst (λ p. IsValid p.1 (pos_part (tid ht e) ∷ free) held) same
          (subst (λ d. IsValid (remove_node ht slot).1 (pos_part (tid ht d) ∷ free) held) here
            (remove_node-IsValid ht slot free held v used)),
      subst (λ p. Removed ht e p.1) same
          (subst (λ d. Removed ht d (remove_node ht slot).1) here
            (remove_node-Removed ht slot free held v used)),
    )

cancel_idle :
    (ht : Timers) (e : ℕ) → lt_ℤ (tid ht e) (pos 0) ≡ true → cancel ht e ≡ (0, forget ht e)
unfolding cancel
cancel_idle ht e negative = rw negative refl

-- On a valid heap, for an entry whose id is not 0, `cancel` answers 1 if em_timer_entry_running said
-- yes and 0 if not, takes as many entries out of the heap, leaves it valid, and afterwards the entry
-- is not running.
pub cancel_total :
    (ht : Timers) (e : ℕ) (free held : List ℕ)
    → IsValid ht free held
    → tid ht e ≢ pos 0
    → (free' : List ℕ) × ((cancel ht e).0 ≡ (if entry_running (ht.entries e) then 1 else 0))
      × ((cancel ht e).1.cur_size + (cancel ht e).0 ≡ ht.cur_size)
      × IsValid (cancel ht e).1 free' held
      × (entry_running ((cancel ht e).1.entries e) ≡ false)
cancel_total ht e free held v used = elim (Bool-cases (lt_ℤ (tid ht e) (pos 0))) [
  | inl negative ↦ rw (cancel_idle ht e negative) (
    free,
    ground arith,
    ground arith,
    forget-IsValid ht e free held v (ground arith),
    ground arith,
  )
  | inr live ↦
      let (one, valid, r) = cancel-Removed ht e free held v (ground arith) in
      (
        pos_part (tid ht e) ∷ free,
        rw one (ground arith),
        rw one (omega (arith, r.cur_size)),
        valid,
        rw r.entries (ground arith),
      )
]
