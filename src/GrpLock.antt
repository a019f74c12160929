-- ===== src/GrpLock.antt =====
-- src/lock.c: the group lock, as the thread sees it that owns it or finds it free. A lock is an
-- address, and `held` counts how often the thread holds it; em_lock of a recursive mutex that is free
-- or the thread's own succeeds. Atomic counters are integers without bounds.
pub mod Levels
pub mod Priority
pub mod Chained
pub mod Handlers
pub mod Called
mod Tests
use emlib.Prelude.{
  ℕ, zero, suc, ◌+◌, ◌-◌, Option, none, some, Bool, true, false, not, ◌&&◌, List, [], ◌∷◌, ◌++◌,
  ltb, leb, ◌==◌, if◌then◌else◌,
}
use emlib.Prelude.Int.{ℤ, pos, lt_ℤ, eq_ℤ, ◌+ℤ◌, ◌-ℤ◌}

-- `grp_lock_item`
pub record LockItem : Type 0 where
  pub prio : ℤ
  pub lock : ℕ

-- `em_grp_lock_t`; `alive` is that `pool` is not NULL. The handlers are pairs of `comp` and the
-- function.
pub record GrpLock : Type 0 where
  pub ref_cnt : ℤ
  pub own_lock : ℕ
  pub owner_cnt : ℕ
  pub lock_list : List LockItem
  pub destroy_list : List (ℕ × ℕ)
  pub alive : Bool
  pub held : ℕ → ℕ

pub data LockStatus : Type 0 where
  succ : LockStatus
  einval : LockStatus
  egone : LockStatus
  busy : LockStatus

-- What a call that may be the last leaves: the group lock, or, since it stands in the pool that
-- `grp_lock_destroy` releases, nothing of it, and how often the thread still holds each lock. No
-- call can be made on a group lock that is released.
pub data After : Type 0 where
  kept : GrpLock → After
  released : (ℕ → ℕ) → After

-- `em_lock` and `em_unlock` of one lock, n times.
abbrev pub lock_times : ℕ → (ℕ → ℕ) → ℕ → ℕ → ℕ
lock_times n held l x = if l == x then held x + n else held x

abbrev pub unlock_times : ℕ → (ℕ → ℕ) → ℕ → ℕ → ℕ
unlock_times n held l x = if l == x then held x - n else held x

-- The loop of `grp_lock_acquire` over the list.
abbrev pub lock_each : List LockItem → (ℕ → ℕ) → ℕ → ℕ
lock_each [] held = held
lock_each (i ∷ is) held = lock_each is (lock_times 1 held i.lock)

-- The list from its end.
abbrev pub backward : List LockItem → List LockItem
backward [] = []
backward (i ∷ is) = backward is ++ (i ∷ [])

-- `grp_lock_set_owner_thread` and `grp_lock_unset_owner_thread`
abbrev pub set_owner_thread : GrpLock → GrpLock
set_owner_thread g = record g { owner_cnt = g.owner_cnt + 1 }

abbrev pub unset_owner_thread : GrpLock → GrpLock
unset_owner_thread g = record g { owner_cnt = g.owner_cnt - 1 }

unfoldable pub grp_lock_add_ref : GrpLock → GrpLock
grp_lock_add_ref g = record g { ref_cnt = g.ref_cnt +ℤ pos 1 }

unfoldable pub grp_lock_acquire : GrpLock → LockStatus × GrpLock
grp_lock_acquire g =
    (succ, grp_lock_add_ref (set_owner_thread (record g { held = lock_each g.lock_list g.held })))

-- The loops of `grp_lock_tryacquire`: `free` says which locks no other thread holds. `done` are the
-- items passed, the last one first; after a failure the code calls em_lock on each of them again.
abbrev pub try_each : (ℕ → Bool) → List LockItem → List LockItem → (ℕ → ℕ) → LockStatus × (ℕ → ℕ)
try_each free done [] held = (succ, held)
try_each free done (i ∷ is) held =
    let rest = try_each free (i ∷ done) is (lock_times 1 held i.lock) in
    if free i.lock then rest else (busy, lock_each done held)

abbrev pub owned_if : GrpLock → LockStatus × (ℕ → ℕ) → LockStatus × GrpLock
owned_if g (succ, held) = (succ, grp_lock_add_ref (set_owner_thread (record g { held = held })))
owned_if g (einval, held) = (einval, record g { held = held })
owned_if g (egone, held) = (egone, record g { held = held })
owned_if g (busy, held) = (busy, record g { held = held })

unfoldable pub grp_lock_tryacquire : GrpLock → (ℕ → Bool) → LockStatus × GrpLock
grp_lock_tryacquire g free = owned_if g (try_each free [] g.lock_list g.held)

-- The loop of `grp_lock_destroy` that gives up the chained locks.
abbrev pub unlock_each : ℕ → ℕ → List LockItem → (ℕ → ℕ) → ℕ → ℕ
unlock_each own n [] held = held
unlock_each own n (i ∷ is) held =
    unlock_each own n is (if i.lock == own then held else unlock_times n held i.lock)

-- `grp_lock_destroy`: the status, what is left, and the handlers that are called, in their order.
unfoldable pub grp_lock_destroy : GrpLock → LockStatus × After × List (ℕ × ℕ)
grp_lock_destroy g =
    if not g.alive
    then (einval, kept g, [])
    else (succ, released (unlock_each g.own_lock g.owner_cnt g.lock_list g.held), g.destroy_list)

unfoldable pub grp_lock_dec_ref : GrpLock → LockStatus × After × List (ℕ × ℕ)
grp_lock_dec_ref g =
    let cnt = g.ref_cnt -ℤ pos 1 in
    let g' = record g { ref_cnt = cnt } in
    let gone = grp_lock_destroy g' in
    if eq_ℤ cnt (pos 0) then (egone, gone.1, gone.2) else (succ, kept g', [])

-- `grp_lock_release`; its loop calls em_lock.
unfoldable pub grp_lock_release : GrpLock → LockStatus × After × List (ℕ × ℕ)
grp_lock_release g =
    let g' = unset_owner_thread g in
    grp_lock_dec_ref (record g' { held = lock_each (backward g'.lock_list) g'.held })

-- The loop of `em_grp_lock_chain_lock` with the insertion before the item it stops at.
abbrev pub insert_prio : LockItem → List LockItem → List LockItem
insert_prio new [] = new ∷ []
insert_prio new (i ∷ is) =
    let rest = insert_prio new is in if not (lt_ℤ i.prio new.prio) then new ∷ (i ∷ is) else i ∷ rest

unfoldable pub chain_lock : GrpLock → ℕ → ℤ → After × List (ℕ × ℕ)
chain_lock g lock prio =
    let g' = (grp_lock_acquire g).1 in
    let r = grp_lock_release (record g' {
      held = lock_times g'.owner_cnt g'.held lock;
      lock_list = insert_prio (record { prio = prio; lock = lock }) g'.lock_list;
    }) in
    (r.1, r.2)

-- The loop of `em_grp_lock_unchain_lock` with the removal of the item it stops at.
abbrev pub remove_lock : ℕ → List LockItem → List LockItem
remove_lock lock [] = []
remove_lock lock (i ∷ is) =
    let rest = remove_lock lock is in if i.lock == lock then is else i ∷ rest

abbrev pub is_chained : ℕ → List LockItem → Bool
is_chained lock [] = false
is_chained lock (i ∷ is) = let rest = is_chained lock is in if i.lock == lock then true else rest

unfoldable pub unchain_lock : GrpLock → ℕ → After × List (ℕ × ℕ)
unchain_lock g lock =
    let g' = (grp_lock_acquire g).1 in
    let r = grp_lock_release (record g' {
      held =
          if is_chained lock g'.lock_list then unlock_times g'.owner_cnt g'.held lock else g'.held;
      lock_list = remove_lock lock g'.lock_list;
    }) in
    (r.1, r.2)

-- `em_grp_lock_replace`: what is left of the old group lock, and the new one. The handlers move to the new one,
-- so that destroying the old one calls none.
abbrev pub replace : GrpLock → GrpLock → After × GrpLock
replace old new = (
  (grp_lock_destroy (record old { destroy_list = [] })).1,
  record new { destroy_list = new.destroy_list ++ old.destroy_list },
)
