-- ===== src/GrpLock/Priority.antt =====
-- The order of the locks of a group in src/lock.c.
use emlib.Prelude.{
  ℕ, ◌+◌, ◌<◌, ◌≡◌, refl, ap, List, [], ◌∷◌, arith, false, Bool-cases, inl, inr, ◌==◌,
  if◌then◌else◌,
}
use emlib.Prelude.Int.{ℤ, lt_ℤ, pos_part}
use emlib.GrpLock.{
  LockItem, GrpLock, kept, insert_prio, chain_lock, lock_times, grp_lock_acquire, grp_lock_add_ref,
}
use emlib.GrpLock.Levels.{count, left_by, grp_lock_release-kept}

-- Each item's priority is at most that of the next.
abbrev pub Below : ℤ → List LockItem → Type 0
Below p [] = Unit
Below p (i ∷ is) = lt_ℤ i.prio p ≡ false

abbrev pub IsSorted : List LockItem → Type 0
IsSorted [] = Unit
IsSorted (i ∷ is) = Below i.prio is × IsSorted is

insert_prio-Below :
    (p : ℤ) (new : LockItem) (is : List LockItem)
    → lt_ℤ new.prio p ≡ false
    → Below p is
    → Below p (insert_prio new is)
insert_prio-Below p new [] h b = h
insert_prio-Below p new (i ∷ is) h b = elim (Bool-cases (lt_ℤ i.prio new.prio)) [
  | inl e ↦ rw e b
  | inr e ↦ rw e h
]

insert_prio-IsSorted :
    (new : LockItem) (is : List LockItem) → IsSorted is → IsSorted (insert_prio new is)
insert_prio-IsSorted new [] s = (tt, tt)
insert_prio-IsSorted new (i ∷ is) s = elim (Bool-cases (lt_ℤ i.prio new.prio)) [
  | inl e ↦
      rw e (insert_prio-Below i.prio new is (ground arith) s.0, insert_prio-IsSorted new is s.1)
  | inr e ↦ rw e (e, s)
]

count-insert_prio :
    (new : LockItem) (is : List LockItem) (x : ℕ)
    → count (insert_prio new is) x ≡ count is x + (if new.lock == x then 1 else 0)
count-insert_prio new [] x = omega arith
count-insert_prio new (i ∷ is) x = elim (Bool-cases (lt_ℤ i.prio new.prio)) [
  | inl e ↦ rw e (omega (arith, count-insert_prio new is x))
  | inr e ↦ rw e (omega arith)
]

-- On a group lock with a reference left and with its locks in the order of their priorities,
-- em_grp_lock_chain_lock adds the lock given once, keeps the order and all other locks, and destroys
-- nothing.
pub chain_lock-IsSorted :
    (g : GrpLock) (lock : ℕ) (prio : ℤ)
    → 0 < pos_part g.ref_cnt
    → IsSorted g.lock_list
    → (g' : GrpLock) × (chain_lock g lock prio ≡ (kept g', []))
      × IsSorted g'.lock_list
      × ((x : ℕ) → count g'.lock_list x ≡ count g.lock_list x + (if lock == x then 1 else 0))
unfolding chain_lock grp_lock_acquire grp_lock_add_ref
chain_lock-IsSorted g lock prio h s =
    let new : LockItem = record { prio = prio; lock = lock } in
    let g' = (grp_lock_acquire g).1 in
    let more : GrpLock = record g' {
      held = lock_times g'.owner_cnt g'.held lock;
      lock_list = insert_prio new g'.lock_list;
    } in
    (
      left_by more g.ref_cnt,
      ap (λ r. (r.1, r.2)) (grp_lock_release-kept more g.ref_cnt h refl),
      insert_prio-IsSorted new g.lock_list s,
      λ x. count-insert_prio new g.lock_list x,
    )
