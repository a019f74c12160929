-- ===== src/Timer/Down.antt =====
-- `reheap_down` of src/timer.c.
use emlib.Prelude.{
  ℕ, zero, suc, ◌+◌, ◌≤◌, ◌<◌, ◌≡◌, false, arith, ltb, ◌&&◌, Bool-cases, inl, inr, ◌⊎◌,
}
use emlib.Time.{TimeVal, time_lt}
use emlib.Time.Order.{NotAfter, NotAfter-refl, NotAfter-trans, time_lt-true, time_lt-false}
use emlib.Timer.{Timers, due, parent, left, copy_node, smaller_child, reheap_down}
use emlib.Timer.Linked.{IsLive, Linked, copy_node-Linked}
use emlib.Timer.Sift.{Sifted, fill-Sifted, round-Sifted, down_test_fails}
use emlib.Timer.Gap.{HasGap, AboveChildren, BelowParent, down-HasGap, down-BelowParent}

smaller_child_cases :
    (ht : Timers) (child : ℕ)
    → ((smaller_child ht child ≡ child + 1)
        × (child + 1 < ht.cur_size)
        × NotAfter (due ht (ht.heap (child + 1))) (due ht (ht.heap child)))
      ⊎ ((smaller_child ht child ≡ child)
          × (child + 1 < ht.cur_size
              → NotAfter (due ht (ht.heap child)) (due ht (ht.heap (child + 1)))))
smaller_child_cases ht child = elim (Bool-cases (ltb (child + 1) ht.cur_size && time_lt a b)) [
  | inl right ↦ inl (rw right, ground arith, time_lt-true a b (ground arith))
  | inr here ↦ inr (rw here, λ h. ground (arith, time_lt-false a b))
]
  where
    a : TimeVal
    a = due ht (ht.heap (child + 1))

    b : TimeVal
    b = due ht (ht.heap child)

-- A slot that is the first among the children of the gap.
pub record IsFirstChild (ht : Timers) (gap c : ℕ) : Type 0 where
  pub child : parent c ≡ gap
  pub below : gap < c
  pub inside : c < ht.cur_size
  pub first :
      (i : ℕ)
      → 0 < i
      → i < ht.cur_size
      → parent i ≡ gap
      → NotAfter (due ht (ht.heap c)) (due ht (ht.heap i))

children_of : (gap i : ℕ) → 0 < i → parent i ≡ gap → (i ≡ left gap) ⊎ (i ≡ left gap + 1)
children_of gap i h e = ground arith

-- A round of `reheap_down` chooses the child that is due first.
pub smaller_child-IsFirstChild :
    (ht : Timers) (gap : ℕ)
    → left gap < ht.cur_size
    → IsFirstChild ht gap (smaller_child ht (left gap))
smaller_child-IsFirstChild ht gap h = elim (smaller_child_cases ht (left gap)) [
  | inl (e, lt, na) ↦ rw e (record {
    child = ground arith;
    below = ground arith;
    inside = lt;
    first = λ i h_i lt_i e_i. elim (children_of gap i h_i e_i) [
      | inl l ↦ rw l na
      | inr r ↦ rw r (NotAfter-refl (due ht (ht.heap (left gap + 1))))
    ];
  })
  | inr (e, na) ↦ rw e (record {
    child = ground arith;
    below = ground arith;
    inside = h;
    first = λ i h_i lt_i e_i. elim (children_of gap i h_i e_i) [
      | inl l ↦ rw l (NotAfter-refl (due ht (ht.heap (left gap))))
      | inr r ↦ rw r (na (rw r at lt_i))
    ];
  })
]

-- Where the loop stops, the moved entry is due no later than the children of the gap.
stop-AboveChildren :
    (ht : Timers) (gap moved : ℕ)
    → (ltb (left gap) ht.cur_size
        && time_lt (due ht (ht.heap (smaller_child ht (left gap)))) (due ht moved))
      ≡ false
    → AboveChildren (due ht) ht.cur_size ht.heap gap moved
stop-AboveChildren ht gap moved stop i h lt e =
    let c = smaller_child ht (left gap) in
    let inside : left gap < ht.cur_size = ground arith in
    NotAfter-trans (due ht moved) (due ht (ht.heap c)) (due ht (ht.heap i))
      (down_test_fails (left gap) ht.cur_size (due ht (ht.heap c)) (due ht moved) stop inside)
      ((smaller_child-IsFirstChild ht gap inside).first i h lt e)

module _ (moved : ℕ) where
  -- With fuel for every slot down to the end, `reheap_down` sifts.
  pub reheap_down-Sifted :
      (fuel : ℕ) (ht : Timers) (gap : ℕ)
      → Linked ht ht.cur_size gap moved
      → HasGap (due ht) ht.cur_size ht.heap gap
      → BelowParent (due ht) ht.cur_size ht.heap gap moved
      → gap < ht.cur_size
      → IsLive ht moved
      → ht.cur_size ≤ fuel + gap
      → Sifted ht ht.cur_size (reheap_down fuel ht moved gap (left gap))
  unfolding reheap_down copy_node
  reheap_down-Sifted zero ht gap l g below inside live fuel = absurd (omega arith)
  reheap_down-Sifted (suc f) ht gap l g below inside live fuel =
      let c = smaller_child ht (left gap) in
      elim (Bool-cases
        (ltb (left gap) ht.cur_size && time_lt (due ht (ht.heap c)) (due ht moved))) [
          | inl go ↦ rw go (
              let fc = smaller_child-IsFirstChild ht gap (ground arith) in
              let early = time_lt-true (due ht (ht.heap c)) (due ht moved) (ground arith) in
              round-Sifted ht.cur_size moved ht gap c _ l inside fc.inside (ground arith) (
                reheap_down-Sifted f (copy_node ht gap (ht.heap c)) c
                  (copy_node-Linked ht ht.cur_size gap moved l c fc.inside (ground arith) inside)
                  (down-HasGap (due ht) ht.cur_size ht.heap gap moved g c fc.child (ground arith)
                    fc.inside fc.first)
                  (down-BelowParent (due ht) ht.cur_size ht.heap gap moved g c fc.child
                    (ground arith) fc.inside early)
                  fc.inside live (ground arith)))
          | inr stop ↦ rw stop (
              fill-Sifted ht.cur_size moved ht gap l g (stop-AboveChildren ht gap moved stop) below
                inside live)
        ]
