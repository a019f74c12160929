-- ===== src/Timer/Schedule.antt =====
-- `schedule_entry` and `cancel` of src/timer.c on heaps that keep the invariant.
use emlib.Prelude.{
  ℕ, suc, ◌+◌, ◌≤◌, ◌≡◌, refl, ap, ◌∙◌, some, true, List, [], ◌∷◌, ◌++◌, arith, leb, lt→ltb,
  Bool-cases, inl, inr,
}
use emlib.Prelude.Int.{ℤ, pos, pos_part}
use emlib.Time.{TimeVal}
use emlib.Timer.{
  Timers, NewArrays, tid, put_at, pop_freelist, grow_heap, place, insert_node, assign,
  schedule_entry,
}
use emlib.Timer.Insert.{assign-IsPending, place-Sifted, seated-IsValid}
use emlib.Timer.Grow.{grown, added, grown-IsPending}
use emlib.Timer.Valid.{IsValid, IsPending}

-- The heap has one entry more; the new entry has the id and the time; the others are as they were.
pub record Scheduled (ht : Timers) (e : ℕ) (id : ℕ) (time : TimeVal) (ht' : Timers) : Type 0 where
  pub cur_size : ht'.cur_size ≡ suc ht.cur_size
  pub entries :
      ht'.entries
      ≡ put_at ht.entries e (record (ht.entries e) { timer_id = pos id; timer_value = time })

module _ (ht : Timers) (e : ℕ) (free held : List ℕ) (p : IsPending ht e free held) where
  place-IsValid : suc ht.cur_size + 2 ≤ ht.max_size → IsValid (place ht e) free held
  unfolding place
  place-IsValid room = seated-IsValid ht e free held p _ (place-Sifted ht e free held p) room

  place_same : ((place ht e).cur_size ≡ suc ht.cur_size) × ((place ht e).entries ≡ ht.entries)
  unfolding place
  place_same = (
    omega (arith, (place-Sifted ht e free held p).cur_size),
    (place-Sifted ht e free held p).entries,
  )

-- The pool has memory for the larger arrays.
module _ (h : ℕ → ℕ) (t : ℤ → ℤ) where
  abbrev pub arrays : NewArrays
  arrays = record { new_heap = some h; new_timer_ids = some t }

  insert_node-IsValid :
      (ht : Timers) (e : ℕ) (free held : List ℕ)
      → IsPending ht e free held
      → (ht' : Timers) × (free' : List ℕ) × (insert_node ht e arrays ≡ some ht')
        × IsValid ht' free' held
        × (ht'.cur_size ≡ suc ht.cur_size)
        × (ht'.entries ≡ ht.entries)
  unfolding insert_node grow_heap
  insert_node-IsValid ht e free held p = elim (Bool-cases (leb ht.max_size (ht.cur_size + 2))) [
    | inl full ↦
        let g = grown ht h t in
        let q = grown-IsPending ht e free held p h t in
        (
          place g e,
          free ++ added ht e free held p h t,
          rw full refl,
          place-IsValid g e (free ++ added ht e free held p h t) held q (ground (arith, p.counted)),
          (place_same g e (free ++ added ht e free held p h t) held q).0,
          (place_same g e (free ++ added ht e free held p h t) held q).1,
        )
    | inr room ↦ (
      place ht e,
      free,
      rw room refl,
      place-IsValid ht e free held p (ground arith),
      (place_same ht e free held p).0,
      (place_same ht e free held p).1,
    )
  ]

-- `schedule_entry` on a valid heap, with an id left, of an entry that is not scheduled, with memory
-- for larger arrays, answers 0 and leaves a valid heap with one entry more: the new one has the
-- next free id and the time given, and all other entries are as they were.
pub schedule_entry_total :
    (ht : Timers) (e k : ℕ) (time : TimeVal) (free held : List ℕ) (h : ℕ → ℕ) (t : ℤ → ℤ)
    → IsValid ht (k ∷ free) held
    → pos_part (tid ht e) ≡ 0
    → (ht' : Timers) × (free' : List ℕ) × (schedule_entry ht e time (arrays h t) ≡ some (true, ht'))
      × IsValid ht' free' held
      × Scheduled ht e k time ht'
unfolding schedule_entry pop_freelist
schedule_entry_total ht e k time free held h t v unused =
    let (ht', free', eq, v', size, same) =
      insert_node-IsValid h t (assign ht e time) e free held
        (assign-IsPending ht e k time free held v unused) in
    (
      ht',
      free',
      rw (lt→ltb ht.cur_size ht.max_size (omega (arith, v.counted)), eq) refl,
      v',
      record {
        cur_size = size;
        entries =
            same
            ∙ ap
                (λ x.
                  put_at ht.entries e (record (ht.entries e) { timer_id = x; timer_value = time }))
                v.chain.0;
      },
    )

-- While no callback runs there is an id for the next entry.
pub has_id :
    (ht : Timers) (free : List ℕ)
    → IsValid ht free []
    → (k : ℕ) × (rest : List ℕ) × (free ≡ k ∷ rest)
has_id ht [] v = absurd (omega (arith, v.counted, v.roomy))
has_id ht (k ∷ rest) v = (k, rest, refl)
