-- ===== src/GrpLock/Chained.antt =====
-- Chaining and unchaining of a lock in src/lock.c.
use emlib.Prelude.{
  ℕ, ◌<◌, ◌≡◌, refl, ap, ◌∙◌, List, [], ◌∷◌, arith, true, false, Bool-cases, inl, inr, ◌==◌,
  if◌then◌else◌,
}
use emlib.Prelude.Int.{ℤ, lt_ℤ, pos_part}
use emlib.GrpLock.{
  LockItem, GrpLock, kept, lock_times, unlock_times, is_chained, insert_prio, chain_lock,
  remove_lock, unchain_lock, grp_lock_acquire, grp_lock_add_ref,
}
use emlib.GrpLock.Levels.{count, left_by, grp_lock_release-kept}

same : (new : LockItem) → (new.lock == new.lock) ≡ true
same new = ground arith

differs :
    (new i : LockItem) (is : List LockItem)
    → count (i ∷ is) new.lock ≡ 0
    → (i.lock == new.lock) ≡ false
differs new i is none = ground arith

remove_lock-insert_prio :
    (new : LockItem) (is : List LockItem)
    → count is new.lock ≡ 0
    → remove_lock new.lock (insert_prio new is) ≡ is
remove_lock-insert_prio new [] none = ground arith
remove_lock-insert_prio new (i ∷ is) none = elim (Bool-cases (lt_ℤ i.prio new.prio)) [
  | inl e ↦
      rw (e, differs new i is none)
        (ap (λ l. i ∷ l) (remove_lock-insert_prio new is (ground arith)))
  | inr e ↦ rw (e, same new) refl
]

-- The two calls.
module _ (g : GrpLock) (lock : ℕ) (h : 0 < pos_part g.ref_cnt) where
  chained :
      (prio : ℤ)
      → (g' : GrpLock) × (chain_lock g lock prio ≡ (kept g', []))
        × (g'.lock_list ≡ insert_prio (record { prio = prio; lock = lock }) g.lock_list)
        × (g'.ref_cnt ≡ g.ref_cnt)
  unfolding chain_lock grp_lock_acquire grp_lock_add_ref
  chained prio =
      let g' = (grp_lock_acquire g).1 in
      let more : GrpLock = record g' {
        held = lock_times g'.owner_cnt g'.held lock;
        lock_list = insert_prio (record { prio = prio; lock = lock }) g'.lock_list;
      } in
      (
        left_by more g.ref_cnt,
        ap (λ r. (r.1, r.2)) (grp_lock_release-kept more g.ref_cnt h refl),
        refl,
        refl,
      )

  unchained :
      (g' : GrpLock) × (unchain_lock g lock ≡ (kept g', []))
      × (g'.lock_list ≡ remove_lock lock g.lock_list)
      × (g'.ref_cnt ≡ g.ref_cnt)
  unfolding unchain_lock grp_lock_acquire grp_lock_add_ref
  unchained =
      let g' = (grp_lock_acquire g).1 in
      let less : GrpLock = record g' {
        held =
            if is_chained lock g'.lock_list
            then unlock_times g'.owner_cnt g'.held lock
            else g'.held;
        lock_list = remove_lock lock g'.lock_list;
      } in
      (
        left_by less g.ref_cnt,
        ap (λ r. (r.1, r.2)) (grp_lock_release-kept less g.ref_cnt h refl),
        refl,
        refl,
      )

-- On a group lock with a reference left, chaining a lock that is not in the group, with any priority,
-- and unchaining it gives back the list of locks and the count of references.
pub unchain_lock-chain_lock :
    (g : GrpLock) (lock : ℕ) (prio : ℤ)
    → 0 < pos_part g.ref_cnt
    → count g.lock_list lock ≡ 0
    → (g1 : GrpLock) × (g2 : GrpLock) × (chain_lock g lock prio ≡ (kept g1, []))
      × (unchain_lock g1 lock ≡ (kept g2, []))
      × (g2.lock_list ≡ g.lock_list)
      × (g2.ref_cnt ≡ g.ref_cnt)
unchain_lock-chain_lock g lock prio h away =
    let (g1, e1, list, refs) = chained g lock h prio in
    let (g2, e2, list', refs') = unchained g1 lock (rw refs h) in
    (
      g1,
      g2,
      e1,
      e2,
      list'
          ∙ (ap (remove_lock lock) list
              ∙ remove_lock-insert_prio (record { prio = prio; lock = lock }) g.lock_list away),
      refs' ∙ refs,
    )
