-- ===== src/Event/Tests.antt =====
-- Events with two threads that wait.
use emlib.Prelude.{◌+◌, ◌≡◌, refl, inr, Bool, true, false, arith}
use emlib.Event.{
  off, on, System, set, pulse, arrive, woken, start, Reach, created, later, arrives, sets,
}
use emlib.Event.Valid.{IsSound, Reach-IsSound}
use emlib.Event.Release.{resumed, EndsIn, after_set, remaining, release_lem}

abbrev waiting_pair : Bool → System
waiting_pair manual_reset = arrive (arrive (start manual_reset false))

waiting_pair-Reach : (manual_reset : Bool) → Reach manual_reset false (waiting_pair manual_reset)
waiting_pair-Reach manual_reset = later (later created arrives) arrives

-- After a set with automatic reset one thread is awake, and one sleeps.
abbrev one_woken : System
one_woken = woken 1 (set (waiting_pair false).event).0 (waiting_pair false)

one_woken-Reach : Reach false false one_woken
one_woken-Reach = later (waiting_pair-Reach false) (sets 1 (omega arith, inr (omega arith)))

Reach-IsSound_example : IsSound one_woken
Reach-IsSound_example = Reach-IsSound false false one_woken one_woken-Reach

-- Both threads pass a manual event that is set, and it stays on.
both_pass : resumed 2 (woken 2 (set (waiting_pair true).event).0 (waiting_pair true)) ≡ record {
  event = record { state = on; auto_reset = false; threads_waiting = 0; threads_to_release = 1 };
  sleeping = 0;
  awake = 0;
}
unfolding resumed
both_pass = refl

release_lem_example :
    EndsIn (after_set true) (remaining true 2) (resumed (0 + 1) one_woken)
    × EndsIn off
        (remaining true 2)
        (resumed (0 + 2) (woken 2 (pulse (waiting_pair false).event).0 (waiting_pair false)))
release_lem_example =
    release_lem (waiting_pair false) 1 2
      (Reach-IsSound false false (waiting_pair false) (waiting_pair-Reach false)) (omega arith)
      (omega arith, inr (omega arith)) (omega arith, inr (omega arith))
