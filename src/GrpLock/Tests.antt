-- ===== src/GrpLock/Tests.antt =====
-- A group lock of two locks.
use emlib.Prelude.{ℕ, ◌≡◌, ◌+◌, ◌*◌, refl, some, true, List, [], ◌∷◌, arith}
use emlib.Prelude.Int.{pos}
use emlib.GrpLock.{
  GrpLock, kept, released, succ, egone, grp_lock_acquire, grp_lock_release, grp_lock_add_ref,
  grp_lock_dec_ref,
}
use emlib.GrpLock.Levels.{count, grp_lock_release-grp_lock_acquire}
use emlib.GrpLock.Handlers.{
  Handler, grp_lock_add_handler, create_w_handler, em_grp_lock_add_handler, add_each,
}
use emlib.GrpLock.Called.{held_after, create_w_handler_lem}

abbrev two_locks : GrpLock
two_locks = record {
  ref_cnt = pos 1;
  own_lock = 100;
  owner_cnt = 0;
  lock_list = record { prio = pos 0; lock = 100 } ∷ (record { prio = pos 3; lock = 200 } ∷ []);
  destroy_list = (1, 2) ∷ [];
  alive = true;
  held = λ x. 0;
}

grp_lock_release-grp_lock_acquire_example :
    (g' : GrpLock) × (grp_lock_release (grp_lock_acquire two_locks).1 ≡ (succ, kept g', []))
    × (g'.ref_cnt ≡ pos 1)
    × (g'.owner_cnt ≡ 0)
    × (g'.held 200 ≡ 0 + 2 * count two_locks.lock_list 200)
grp_lock_release-grp_lock_acquire_example =
    grp_lock_release-grp_lock_acquire two_locks 200 (omega arith)

-- A group lock with the handler (7, 1), to which (8, 1) and (9, 2) are added.
abbrev made : GrpLock
made = record {
  ref_cnt = pos 0;
  own_lock = 100;
  owner_cnt = 0;
  lock_list = record { prio = pos 0; lock = 100 } ∷ [];
  destroy_list = (7, 1) ∷ [];
  alive = true;
  held = λ x. 0;
}

abbrev added : List Handler
added = (8, 1) ∷ ((9, 2) ∷ [])

made_by_create : create_w_handler true true true 100 (λ x. 0) (7, 1) ≡ some made
unfolding grp_lock_add_handler
made_by_create = refl

create_w_handler_lem_example :
    ((g' : GrpLock) × (add_each (kept (grp_lock_add_ref made)) added ≡ (kept g', []))
      × (grp_lock_dec_ref g'
          ≡ (egone, released (held_after g'), (7, 1) ∷ ((8, 1) ∷ ((9, 2) ∷ [])))))
    × ((held' : ℕ → ℕ) × (em_grp_lock_add_handler made (8, 1)
          ≡ (succ, released held', (7, 1) ∷ ((8, 1) ∷ []))))
create_w_handler_lem_example =
    create_w_handler_lem true true true 100 (λ x. 0) (7, 1) (8, 1) added made made_by_create
