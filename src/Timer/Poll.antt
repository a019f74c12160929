-- ===== src/Timer/Poll.antt =====
-- em_timer_heap_poll of src/timer.c: it ends, within its limit, on a valid heap.
use emlib.Prelude.{
  ℕ, suc, zero, ◌+◌, ◌≤◌, ◌<◌, ◌≡◌, refl, sym, subst, Option, none, some, false, ◌&&◌, List, [],
  ◌∷◌, ◌++◌, arith, ltb, Bool-cases, inl, inr, ◌⊎◌,
}
use emlib.Time.{TimeVal, time_lte}
use emlib.Timer.{Timers, due, push_freelist}
use emlib.Timer.Linked.{IsLive}
use emlib.Timer.Root.{root_before}
use emlib.Timer.Held.{expire-IsValid, push_freelist-IsValid}
use emlib.Timer.Valid.{IsValid}
use emlib.Timer.Calls.{LockCall, call_back, expire, dec_refs, has_due, next_delay, poll_loop, poll}

-- Callbacks work on the heap by its calls only: they keep the invariant and the ids held back, and
-- they do not change the limit of the poll.
unfoldable pub KeepsValid : (ℕ → Timers → ℕ → Timers) → Type 0
KeepsValid callbacks =
    (f : ℕ) (ht : Timers) (e : ℕ) (free held : List ℕ)
    → IsValid ht free held
    → (free' : List ℕ) × IsValid (callbacks f ht e) free' held
      × ((callbacks f ht e).per_poll ≡ ht.per_poll)

-- The heap when a poll ends: valid, and the limit is reached or the root is not due.
record Polled (ht : Timers) (now : TimeVal) (held : List ℕ) (n : ℕ) (ht' : Timers) (free' : List ℕ)
    : Type 0 where
  pub valid : IsValid ht' free' held
  pub within : n ≤ ht.per_poll
  pub ends : (n ≡ ht.per_poll) ⊎ (has_due ht' now ≡ false)

module _ (callbacks : ℕ → Timers → ℕ → Timers) (keeps : KeepsValid callbacks) where
  call_back-IsValid :
      (cb : Option ℕ) (ht : Timers) (e : ℕ) (free held : List ℕ)
      → IsValid ht free held
      → (free' : List ℕ) × IsValid (call_back callbacks cb ht e) free' held
        × ((call_back callbacks cb ht e).per_poll ≡ ht.per_poll)
  unfolding KeepsValid
  call_back-IsValid none ht e free held v = (free, v, refl)
  call_back-IsValid (some f) ht e free held v = keeps f ht e free held v

  abbrev called_back : Timers → Timers
  called_back ht =
      let ht' = (expire ht).3 in
      call_back callbacks (ht'.entries (expire ht).0).cb ht' (expire ht).0

  -- The heap after a round of the loop.
  abbrev after_round : Timers → Timers
  after_round ht = push_freelist (called_back ht) (expire ht).1

  after_round-IsValid :
      (ht : Timers) (free held : List ℕ)
      → IsValid ht free held
      → 0 < ht.cur_size
      → (free' : List ℕ) × IsValid (after_round ht) free' held
        × ((after_round ht).per_poll ≡ ht.per_poll)
  unfolding push_freelist
  after_round-IsValid ht free held v some_entry =
      let (k, same, w, _, per) = expire-IsValid ht free held v some_entry in
      let (free', u, per') =
        call_back-IsValid ((expire ht).3.entries (expire ht).0).cb (expire ht).3 (expire ht).0 free
          (k ∷ held) w in
      let back = called_back ht in
      (
        k ∷ free',
        subst (λ x. IsValid (push_freelist back x) (k ∷ free') held) (sym same)
            (push_freelist-IsValid back k free' held u),
        ground (arith, per, per'),
      )

  poll_loop_total :
      (fuel : ℕ) (ht : Timers) (now : TimeVal) (count : ℕ) (free held : List ℕ)
      → IsValid ht free held
      → count ≤ ht.per_poll
      → ht.per_poll < fuel + count
      → (n : ℕ) × (ht' : Timers) × (calls : List LockCall) × (free' : List ℕ) × (poll_loop fuel
            callbacks ht now count
          ≡ some (n, ht', calls))
        × Polled ht now held n ht' free'
  unfolding poll_loop
  poll_loop_total zero ht now count free held v le enough = absurd (omega arith)
  poll_loop_total (suc fuel) ht now count free held v le enough =
      elim (Bool-cases (has_due ht now && ltb count ht.per_poll)) [
        | inl go ↦
            let (free', w, per) = after_round-IsValid ht free held v (ground arith) in
            let (n, ht', calls, free'', eq, p) =
              poll_loop_total fuel (after_round ht) now (count + 1) free' held w (ground arith)
                (ground arith) in
            (
              n,
              ht',
              dec_refs (expire ht).2 ++ calls,
              free'',
              rw (go, eq) refl,
              record {
                valid = p.valid;
                within = omega (arith, p.within, per);
                ends = subst (λ m. (n ≡ m) ⊎ (has_due ht' now ≡ false)) per p.ends;
              },
            )
        | inr stop ↦ (
          count,
          ht,
          [],
          free,
          rw stop refl,
          record { valid = v; within = le; ends = ground arith },
        )
      ]

  poll_of_loop :
      (ht : Timers) (now : TimeVal) (n : ℕ) (ht' : Timers) (calls : List LockCall)
      → poll_loop (suc ht.per_poll) callbacks ht now 0 ≡ some (n, ht', calls)
      → poll callbacks ht now ≡ some (n, next_delay ht' now, ht', calls)
  unfolding poll
  poll_of_loop ht now n ht' calls eq = rw (poll, eq) refl

  -- A poll of a valid heap, with callbacks that keep it valid, always returns; the heap is valid
  -- again with the same ids held back; no more callbacks were made than the limit; and if fewer
  -- were made, then no entry that is still scheduled is due at the time of the poll.
  pub poll_total :
      (ht : Timers) (now : TimeVal) (free held : List ℕ)
      → IsValid ht free held
      → (n : ℕ) × (ht' : Timers) × (calls : List LockCall) × (free' : List ℕ) × (poll callbacks ht
            now
          ≡ some (n, next_delay ht' now, ht', calls))
        × IsValid ht' free' held
        × (n ≤ ht.per_poll)
        × ((n ≡ ht.per_poll) ⊎ ((e : ℕ) → IsLive ht' e → time_lte (due ht' e) now ≡ false))
  poll_total ht now free held v =
      let (n, ht', calls, free', eq, p) =
        poll_loop_total (suc ht.per_poll) ht now 0 free held v (omega arith) (omega arith) in
      (
        n,
        ht',
        calls,
        free',
        poll_of_loop ht now n ht' calls eq,
        p.valid,
        p.within,
        elim p.ends [
          | inl e ↦ inl e
          | inr idle ↦ inr (λ e live.
              ground
                (arith, root_before ht' free' held e p.valid live, p.valid.linked.placed e live))
        ],
      )
