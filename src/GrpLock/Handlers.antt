-- ===== src/GrpLock/Handlers.antt =====
-- The creation of group locks and the registration of handlers in src/lock.c. The memory for a handler
-- is taken as given; what the pool, the counter and the mutex of a new group lock answer are
-- arguments.
use emlib.Prelude.{
  ℕ, Bool, true, false, ◌&&◌, Option, none, some, List, [], ◌∷◌, ◌++◌, ◌==◌, if◌then◌else◌,
}
use emlib.Prelude.Int.{pos}
use emlib.GrpLock.{
  LockStatus, GrpLock, After, kept, released, succ, grp_lock_acquire, grp_lock_release,
}

-- A handler: the `comp` it is called with, and the function.
abbrev pub Handler : Type 0
Handler = ℕ × ℕ

-- `em_grp_lock_create`, with the lock that em_lock_create_recursive_mutex makes: NULL if the pool, the
-- counter or the lock cannot be made.
abbrev pub create : Bool → Bool → Bool → ℕ → (ℕ → ℕ) → Option GrpLock
create pool_made counter_made lock_made own_lock held =
    if pool_made && (counter_made && lock_made)
    then some (record {
      ref_cnt = pos 0;
      own_lock = own_lock;
      owner_cnt = 0;
      lock_list = record { prio = pos 0; lock = own_lock } ∷ [];
      destroy_list = [];
      alive = true;
      held = held;
    })
    else none

-- `grp_lock_add_handler` and `em_grp_lock_add_handler`, with the handlers that are called
abbrev pub push_handler : GrpLock → Handler → GrpLock
push_handler g h = record g { destroy_list = g.destroy_list ++ (h ∷ []) }

unfoldable pub grp_lock_add_handler : GrpLock → Handler → Bool → LockStatus × After × List Handler
grp_lock_add_handler g h acquire_lock =
    let r = grp_lock_release (push_handler (grp_lock_acquire g).1 h) in
    if acquire_lock then (succ, r.1, r.2) else (succ, kept (push_handler g h), [])

abbrev pub em_grp_lock_add_handler : GrpLock → Handler → LockStatus × After × List Handler
em_grp_lock_add_handler g h = grp_lock_add_handler g h true

-- The group lock after a call that keeps it.
abbrev pub kept_or : GrpLock → After → GrpLock
kept_or g (kept g') = g'
kept_or g (released held) = g

-- `em_grp_lock_create_w_handler`
abbrev pub with_handler : Handler → Option GrpLock → Option GrpLock
with_handler h none = none
with_handler h (some g) = some (kept_or g (grp_lock_add_handler g h false).1)

abbrev pub create_w_handler : Bool → Bool → Bool → ℕ → (ℕ → ℕ) → Handler → Option GrpLock
create_w_handler pool_made counter_made lock_made own_lock held h =
    with_handler h (create pool_made counter_made lock_made own_lock held)

-- The loop of `em_grp_lock_del_handler` with the removal of the handler it stops at.
abbrev pub remove_handler : Handler → List Handler → List Handler
remove_handler h [] = []
remove_handler h (cb ∷ cbs) =
    let rest = remove_handler h cbs in if cb.0 == h.0 && cb.1 == h.1 then cbs else cb ∷ rest

unfoldable pub em_grp_lock_del_handler : GrpLock → Handler → LockStatus × After × List Handler
em_grp_lock_del_handler g h =
    let g' = (grp_lock_acquire g).1 in
    let r = grp_lock_release (record g' { destroy_list = remove_handler h g'.destroy_list }) in
    (succ, r.1, r.2)

-- Handlers that a user of the group lock adds one after the other while it is there, with the handlers
-- that are called.
abbrev pub then_called : List Handler → After × List Handler → After × List Handler
then_called called (left, later) = (left, called ++ later)

abbrev pub add_each : After → List Handler → After × List Handler
add_each left [] = (left, [])
add_each (released held) (h ∷ hs) = (released held, [])
add_each (kept g) (h ∷ hs) =
    let r = em_grp_lock_add_handler g h in then_called r.2 (add_each r.1 hs)
