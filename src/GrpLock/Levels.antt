-- ===== src/GrpLock/Levels.antt =====
-- How often the locks of a group are held in src/lock.c.
use emlib.Prelude.{
  ℕ, ◌+◌, ◌-◌, ◌*◌, ◌<◌, ◌≡◌, refl, ◌∙◌, List, [], ◌∷◌, ◌++◌, arith, false, ◌==◌, if◌then◌else◌,
}
use emlib.Prelude.Int.{ℤ, pos, pos_part, +ℤ_cancel, eq_ℤ, ◌+ℤ◌}
use emlib.GrpLock.{
  LockItem, GrpLock, kept, succ, lock_times, lock_each, backward, grp_lock_add_ref,
  grp_lock_acquire, grp_lock_release, grp_lock_dec_ref,
}

-- How often a lock is in the list.
abbrev pub count : List LockItem → ℕ → ℕ
count [] x = 0
count (i ∷ is) x = (if i.lock == x then 1 else 0) + count is x

count-lock_each :
    (is : List LockItem) (held : ℕ → ℕ) (x : ℕ) → lock_each is held x ≡ held x + count is x
count-lock_each [] held x = omega arith
count-lock_each (i ∷ is) held x = ground (arith, count-lock_each is (lock_times 1 held i.lock) x)

count-append : (is js : List LockItem) (x : ℕ) → count (is ++ js) x ≡ count is x + count js x
count-append [] js x = omega arith
count-append (i ∷ is) js x = omega (arith, count-append is js x)

count-backward : (is : List LockItem) (x : ℕ) → count (backward is) x ≡ count is x
count-backward [] x = refl
count-backward (i ∷ is) x =
    omega (arith, count-append (backward is) (i ∷ []) x, count-backward is x)

pub not_zero : (a : ℤ) → 0 < pos_part a → eq_ℤ a (pos 0) ≡ false
not_zero a h = ground arith

-- A release when r references are left.
abbrev pub left_by : GrpLock → ℤ → GrpLock
left_by g r = record g {
  owner_cnt = g.owner_cnt - 1;
  held = lock_each (backward g.lock_list) g.held;
  ref_cnt = r;
}

pub grp_lock_release-kept :
    (g : GrpLock) (r : ℤ)
    → 0 < pos_part r
    → g.ref_cnt ≡ r +ℤ pos 1
    → grp_lock_release g ≡ (succ, kept (left_by g r), [])
unfolding grp_lock_release grp_lock_dec_ref
grp_lock_release-kept g r h e = rw (e, +ℤ_cancel r (pos 1), not_zero r h) refl

-- With a reference left, acquiring a group lock and releasing it restores the counts of references
-- and of ownership and destroys nothing, but every lock of the group is held twice as often more as
-- it is in the list, and not as often as before.
pub grp_lock_release-grp_lock_acquire :
    (g : GrpLock) (x : ℕ)
    → 0 < pos_part g.ref_cnt
    → (g' : GrpLock) × (grp_lock_release (grp_lock_acquire g).1 ≡ (succ, kept g', []))
      × (g'.ref_cnt ≡ g.ref_cnt)
      × (g'.owner_cnt ≡ g.owner_cnt)
      × (g'.held x ≡ g.held x + 2 * count g.lock_list x)
unfolding grp_lock_acquire grp_lock_add_ref
grp_lock_release-grp_lock_acquire g x h = (
  left_by (grp_lock_acquire g).1 g.ref_cnt,
  grp_lock_release-kept (grp_lock_acquire g).1 g.ref_cnt h refl,
  refl,
  omega arith,
  count-lock_each (backward g.lock_list) (lock_each g.lock_list g.held) x
      ∙ omega (arith, count-lock_each g.lock_list g.held x, count-backward g.lock_list x),
)
