-- ===== src/TimerTask/Tests.antt =====
-- A timer task that is stopped in the middle of a millisecond.
use emlib.Prelude.{◌≡◌, refl, Bool, true, false}
use emlib.Prelude.Int.{pos}
use emlib.TimerTask.{
  OsTask, Spec, Settime, armed, TimerCreate, made, not_made, succeeded, after_arming, zero_spec,
  ttask_stop, ttask_resume,
}
use emlib.TimerTask.Stopped.{disarms, resumed_with, stopped_at, ttask_resume-ttask_stop}
use emlib.TimerTask.Created.{task_in_seconds}

abbrev five_seconds : OsTask
five_seconds = task_in_seconds 3 4096 0 5 2

abbrev some_ns_left : Spec
some_ns_left = record {
  value_sec = pos 1;
  value_nsec = pos 2500000;
  interval_sec = pos 2;
  interval_nsec = pos 0;
}

abbrev answers : Spec → Spec → Settime
answers old new = armed old

-- 1.0025 s remained, and the timer is armed with 1.002 s.
ttask_resume-ttask_stop_example :
    (ttask_stop (answers some_ns_left) five_seconds
      ≡ (succeeded, stopped_at five_seconds 1 2500000))
    × (ttask_resume (answers zero_spec) (ttask_stop (answers some_ns_left) five_seconds).1
        ≡ after_arming
            (stopped_at five_seconds 1 2500000)
            (answers zero_spec (resumed_with five_seconds 1 2500000)))
    × (disarms (resumed_with five_seconds 1 2500000) ≡ false)
ttask_resume-ttask_stop_example =
    ttask_resume-ttask_stop (answers some_ns_left) (answers zero_spec) five_seconds some_ns_left 1
      2500000 refl refl refl

-- A task of which less than a millisecond remains is not armed again.
short_rest-disarms : disarms (resumed_with five_seconds 0 999999) ≡ true
short_rest-disarms = refl

abbrev makes : Bool → TimerCreate
makes true = made 3
makes false = not_made 22
