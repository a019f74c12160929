-- ===== src/GrpLock/Called.antt =====
-- Which handlers a group lock of src/lock.c calls at its end.
use emlib.Prelude.{
  ℕ, ◌<◌, ◌≡◌, refl, sym, ap, ap₂, ◌∙◌, Bool, true, false, Option, none, some, List, [], ◌∷◌, ◌++◌,
  arith, append_assoc, append-nil, ◌&&◌, ◌==◌, Avoids, Bool-cases, inl, inr,
}
use emlib.Prelude.Int.{pos, pos_part, eq_ℤ, ◌+ℤ◌, ◌-ℤ◌}
use emlib.GrpLock.{
  GrpLock, kept, released, succ, egone, unlock_each, lock_each, backward, unset_owner_thread,
  grp_lock_acquire, grp_lock_release, grp_lock_add_ref, grp_lock_dec_ref, grp_lock_destroy,
}
use emlib.GrpLock.Levels.{left_by, grp_lock_release-kept}
use emlib.GrpLock.Handlers.{
  Handler, create_w_handler, push_handler, then_called, grp_lock_add_handler,
  em_grp_lock_add_handler, remove_handler, em_grp_lock_del_handler, add_each,
}

-- A handler is added to a group lock with a reference left.
add_handler_lem :
    (g : GrpLock) (h : Handler)
    → 0 < pos_part g.ref_cnt
    → (g' : GrpLock) × (em_grp_lock_add_handler g h ≡ (succ, kept g', []))
      × (g'.destroy_list ≡ g.destroy_list ++ (h ∷ []))
      × (g'.ref_cnt ≡ g.ref_cnt)
      × (g'.alive ≡ g.alive)
unfolding grp_lock_add_handler grp_lock_acquire grp_lock_add_ref
add_handler_lem g h r =
    let pushed = push_handler (grp_lock_acquire g).1 h in
    (
      left_by pushed g.ref_cnt,
      ap (λ x. (succ, x.1, x.2)) (grp_lock_release-kept pushed g.ref_cnt r refl),
      refl,
      refl,
      refl,
    )

add_each_lem :
    (g : GrpLock) (hs : List Handler)
    → 0 < pos_part g.ref_cnt
    → (g' : GrpLock) × (add_each (kept g) hs ≡ (kept g', []))
      × (g'.destroy_list ≡ g.destroy_list ++ hs)
      × (g'.ref_cnt ≡ g.ref_cnt)
      × (g'.alive ≡ g.alive)
add_each_lem g [] r = (g, refl, sym (append-nil g.destroy_list), refl, refl)
add_each_lem g (h ∷ hs) r =
    let (g1, e, list, refs, alive) = add_handler_lem g h r in
    let (g2, e', list', refs', alive') = add_each_lem g1 hs (rw refs r) in
    (
      g2,
      ap (λ x. then_called x.2 (add_each x.1 hs)) e ∙ ap (then_called []) e',
      list' ∙ (ap (λ l. l ++ hs) list ∙ append_assoc g.destroy_list (h ∷ []) hs),
      refs' ∙ refs,
      alive' ∙ alive,
    )

last_one : eq_ℤ (pos 1 -ℤ pos 1) (pos 0) ≡ true
unfolding ◌-ℤ◌
last_one = refl

-- How often the thread still holds each lock when the group lock is destroyed.
abbrev pub held_after : GrpLock → ℕ → ℕ
held_after g = unlock_each g.own_lock g.owner_cnt g.lock_list g.held

-- The last reference is dropped.
dropped :
    (g : GrpLock)
    → g.ref_cnt ≡ pos 1
    → g.alive ≡ true
    → grp_lock_dec_ref g ≡ (egone, released (held_after g), g.destroy_list)
unfolding grp_lock_dec_ref grp_lock_destroy
dropped g r a = rw (r, a, last_one) refl

created :
    (pool_made counter_made lock_made : Bool) (own_lock : ℕ) (held : ℕ → ℕ) (first : Handler)
    (g : GrpLock)
    → create_w_handler pool_made counter_made lock_made own_lock held first ≡ some g
    → ((grp_lock_add_ref g).destroy_list ≡ first ∷ [])
      × ((grp_lock_add_ref g).ref_cnt ≡ pos 1)
      × ((grp_lock_add_ref g).alive ≡ true)
unfolding grp_lock_add_handler grp_lock_add_ref ◌+ℤ◌
created true true true own_lock held first g e =
    let of_some : Option GrpLock → GrpLock = λ o. elim o [ none ↦ g | some x ↦ x ] in
    let same = ap of_some e in
    (
      ap (λ x. x.destroy_list) (sym same),
      ap (λ x. x.ref_cnt +ℤ pos 1) (sym same),
      ap (λ x. x.alive) (sym same),
    )
created true true false own_lock held first g e = absurd (ground arith)
created true false lock_made own_lock held first g e = absurd (ground arith)
created false counter_made lock_made own_lock held first g e = absurd (ground arith)

-- On a group lock without a reference.
add_handler-unreferenced :
    (g : GrpLock) (h : Handler)
    → (grp_lock_add_ref g).ref_cnt ≡ pos 1
    → g.alive ≡ true
    → (held : ℕ → ℕ) × (em_grp_lock_add_handler g h
        ≡ (succ, released held, g.destroy_list ++ (h ∷ [])))
unfolding grp_lock_add_handler grp_lock_acquire grp_lock_release grp_lock_add_ref
add_handler-unreferenced g h r a =
    let last = unset_owner_thread (push_handler (grp_lock_acquire g).1 h) in
    let given : GrpLock = record last { held = lock_each (backward last.lock_list) last.held } in
    (held_after given, ap (λ x. (succ, x.1, x.2)) (dropped given r a))

-- A group lock that em_grp_lock_create_w_handler makes, and that gets a reference, keeps all handlers
-- that are added and calls none of them meanwhile; when this reference is dropped it calls the
-- first handler and then the others in the order in which they were added, each once, and is
-- released. Without a reference, the first em_grp_lock_add_handler calls the handler of the
-- creation and the new one, and releases the group lock.
pub create_w_handler_lem :
    (pool_made counter_made lock_made : Bool) (own_lock : ℕ) (held : ℕ → ℕ) (first next : Handler)
    (hs : List Handler) (g : GrpLock)
    → create_w_handler pool_made counter_made lock_made own_lock held first ≡ some g
    → ((g' : GrpLock) × (add_each (kept (grp_lock_add_ref g)) hs ≡ (kept g', []))
        × (grp_lock_dec_ref g' ≡ (egone, released (held_after g'), first ∷ hs)))
      × ((held' : ℕ → ℕ) × (em_grp_lock_add_handler g next
            ≡ (succ, released held', first ∷ (next ∷ []))))
unfolding grp_lock_add_ref
create_w_handler_lem pool_made counter_made lock_made own_lock held first next hs g e =
    let (list, refs, alive) = created pool_made counter_made lock_made own_lock held first g e in
    let (g', e', list', refs', alive') =
      add_each_lem (grp_lock_add_ref g) hs (rw refs (omega arith)) in
    let (held', e'') = add_handler-unreferenced g next refs alive in
    (
      (
        g',
        e',
        dropped g' (refs' ∙ refs) (alive' ∙ alive)
            ∙ ap (λ l. (egone, released (held_after g'), l)) (list' ∙ ap (λ l. l ++ hs) list),
      ),
      (held', e'' ∙ ap (λ l. (succ, released held', l ++ (next ∷ []))) list),
    )

remove_pushed :
    (h : Handler) (hs : List Handler) → Avoids h hs → remove_handler h (hs ++ (h ∷ [])) ≡ hs
remove_pushed h [] a = ground arith
remove_pushed h (cb ∷ cbs) a = elim (Bool-cases (cb.0 == h.0 && cb.1 == h.1)) [
  | inl e ↦
      let comp : cb.0 ≡ h.0 = ground arith in
      let function : cb.1 ≡ h.1 = ground arith in absurd (a.0 (ap₂ (λ x y. (x, y)) comp function))
  | inr other ↦ rw other (ap (λ l. cb ∷ l) (remove_pushed h cbs a.1))
]

-- On a group lock with a reference left, em_grp_lock_del_handler takes away a handler that was not
-- registered before em_grp_lock_add_handler added it: the other handlers, their order and the count
-- of references are as before, and no handler is called.
pub del_handler-add_handler :
    (g : GrpLock) (h : Handler)
    → 0 < pos_part g.ref_cnt
    → Avoids h g.destroy_list
    → (g1 : GrpLock) × (g2 : GrpLock) × (em_grp_lock_add_handler g h ≡ (succ, kept g1, []))
      × (em_grp_lock_del_handler g1 h ≡ (succ, kept g2, []))
      × (g2.destroy_list ≡ g.destroy_list)
      × (g2.ref_cnt ≡ g.ref_cnt)
unfolding em_grp_lock_del_handler grp_lock_acquire grp_lock_add_ref
del_handler-add_handler g h r a =
    let (g1, e1, list, refs, _) = add_handler_lem g h r in
    let taken = (grp_lock_acquire g1).1 in
    let less : GrpLock = record taken { destroy_list = remove_handler h taken.destroy_list } in
    (
      g1,
      left_by less g1.ref_cnt,
      e1,
      ap (λ x. (succ, x.1, x.2)) (grp_lock_release-kept less g1.ref_cnt (rw refs r) refl),
      ap (remove_handler h) list ∙ remove_pushed h g.destroy_list a,
      refs,
    )
