-- ===== src/Timer/Held.antt =====
-- em_timer_heap_poll of src/timer.c keeps the id of an entry back while the callback of it runs:
-- the id leaves the free list before and returns after.
use emlib.Prelude.{
  ℕ, suc, ◌<◌, ◌≡◌, ◌≢◌, List, ◌∷◌, arith, All-mono, All-right, Distinct-pop, Distinct-push,
}
use emlib.Prelude.Int.{pos, eq_ℤ_iff}
use emlib.Timer.{Timers, tid, pop_freelist, push_freelist, remove_node}
use emlib.Timer.Freelist.{IsIdle, Chain-IsIdle, Chain-push, Chain-positive}
use emlib.Timer.Remove.{remove_node-IsValid, remove_node-Removed}
use emlib.Timer.Emptied.{freed}
use emlib.Timer.Valid.{IsValid}
use emlib.Timer.Calls.{expire}

-- The first free id becomes a held one.
pop_freelist-IsValid :
    (ht : Timers) (k : ℕ) (free held : List ℕ)
    → IsValid ht (k ∷ free) held
    → IsValid (pop_freelist ht).1 free (k ∷ held)
unfolding pop_freelist
pop_freelist-IsValid ht k free held v =
    let (d, av) = Distinct-pop held k free v.distinct in
    record {
      linked = record { located = v.linked.located; placed = v.linked.placed };
      ordered = v.ordered;
      bounded = v.bounded;
      chain = rw v.chain.0 v.chain.3;
      distinct = (av, d);
      reserved = (
        (Chain-IsIdle ht.max_size (omega (arith, v.roomy)) ht.timer_ids ht.freelist (k ∷ free)
            v.chain).0,
        v.reserved,
      );
      counted = omega (arith, v.counted);
      roomy = v.roomy;
    }

-- A held id returns to the free list.
pub push_freelist-IsValid :
    (ht : Timers) (k : ℕ) (free held : List ℕ)
    → IsValid ht free (k ∷ held)
    → IsValid (push_freelist ht (pos k)) (k ∷ free) held
unfolding push_freelist
push_freelist-IsValid ht k free held v = record {
  linked = record {
    located = λ i lt.
        ground (arith, v.linked.located i, v.reserved.0, eq_ℤ_iff (pos k) (tid ht (ht.heap i)));
    placed = λ e live. ground (arith, v.linked.placed e, v.reserved.0, eq_ℤ_iff (pos k) (tid ht e));
  };
  ordered = v.ordered;
  bounded = v.bounded;
  chain =
      Chain-push ht.max_size (omega (arith, v.roomy)) ht.timer_ids ht.freelist free k v.chain
        (v.reserved.0.0) (v.reserved.0.1) (All-right (λ x. x ≢ k) held free v.distinct.0);
  distinct = Distinct-push held k free v.distinct.1 v.distinct.0;
  reserved =
      All-mono (IsIdle ht.timer_ids ht.max_size) _ held
        (λ x idle. ground (
          arith,
          eq_ℤ_iff (pos k) (pos x),
          Chain-positive ht.max_size (omega (arith, v.roomy)) ht.timer_ids ht.freelist free v.chain,
        ))
        v.reserved.1;
  counted = omega (arith, v.counted);
  roomy = v.roomy;
}

-- Up to the callback a round takes the root out of the heap and holds its id back.
pub expire-IsValid :
    (ht : Timers) (free held : List ℕ)
    → IsValid ht free held
    → 0 < ht.cur_size
    → (k : ℕ) × ((expire ht).1 ≡ pos k)
      × IsValid (expire ht).3 free (k ∷ held)
      × (suc (expire ht).3.cur_size ≡ ht.cur_size)
      × ((expire ht).3.per_poll ≡ ht.per_poll)
unfolding pop_freelist
expire-IsValid ht free held v some_entry =
    let r = remove_node-Removed ht 0 free held v some_entry in
    let w = remove_node-IsValid ht 0 free held v some_entry in
    let k = freed ht 0 free held v some_entry in
    let q = pop_freelist-IsValid (remove_node ht 0).1 k free held w in
    (
      k,
      w.chain.0,
      record {
        linked = record {
          located = λ i lt. ground (arith, q.linked.located i);
          placed = λ d live. ground (arith, q.linked.placed d);
        };
        ordered = λ i h lt. ground (arith, q.ordered i h lt);
        bounded = λ d live. ground (arith, q.bounded d);
        chain = q.chain;
        distinct = q.distinct;
        reserved = q.reserved;
        counted = q.counted;
        roomy = q.roomy;
      },
      r.cur_size,
      r.per_poll,
    )
