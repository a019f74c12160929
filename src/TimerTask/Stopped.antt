-- ===== src/TimerTask/Stopped.antt =====
-- Stopping and resuming timer tasks of src/os_core_unix.c.
use emlib.Prelude.{ℕ, ◌*◌, ◌/◌, ◌≡◌, refl, Bool, ◌&&◌, ◌==◌, ltb, inl, inr, arith, Bool-cases}
use emlib.Prelude.Int.{pos, eq_ℤ}
use emlib.TimerTask.{
  OsTask, Spec, Settime, armed, refused, succeeded, stopped, after_arming, set_running, scaled,
  ns_per_ms, zero_spec, ttask_stop, ttask_resume,
}

-- What timer_settime takes as an order to disarm.
abbrev pub disarms : Spec → Bool
disarms s = eq_ℤ s.value_sec (pos 0) && eq_ℤ s.value_nsec (pos 0)

-- The setting that a task is resumed with: the time that remained, without its part below a
-- millisecond, and the interval of the task.
abbrev pub resumed_with : OsTask → ℕ → ℕ → Spec
resumed_with t sec nsec = record {
  value_sec = pos sec;
  value_nsec = pos (nsec / ns_per_ms * ns_per_ms);
  interval_sec = t.interval.sec;
  interval_nsec = scaled t.interval.msec ns_per_ms;
}

-- The task once it was stopped with this time remaining.
abbrev pub stopped_at : OsTask → ℕ → ℕ → OsTask
stopped_at t sec nsec = record t {
  value = record { sec = pos sec; msec = pos (nsec / ns_per_ms) };
  tt_state = stopped;
}

-- A resume sets the state that the start inside it has set.
set_running-after_arming :
    (t : OsTask) (a : Settime) → set_running (after_arming t a) ≡ after_arming t a
set_running-after_arming t (armed old) = refl
set_running-after_arming t (refused e) = elim (Bool-cases (e == 0)) [
  | inl z ↦ rw z refl
  | inr nz ↦ rw nz refl
]

divided_back-is_zero : (n : ℕ) → (n / ns_per_ms * ns_per_ms == 0) ≡ ltb n ns_per_ms
divided_back-is_zero n = ground arith

resumed_with-disarms :
    (t : OsTask) (sec nsec : ℕ)
    → disarms (resumed_with t sec nsec) ≡ (sec == 0 && ltb nsec ns_per_ms)
resumed_with-disarms t sec nsec = elim (Bool-cases (sec == 0)) [
  | inl z ↦ ground (arith, divided_back-is_zero nsec)
  | inr nz ↦ ground (arith, nz)
]

-- When timer_settime stops a timer and says that `sec` seconds and `nsec` nanoseconds remained, the task
-- is stopped, and resuming it asks timer_settime for that time without its part below a millisecond, and
-- for the interval the task had. That request arms the timer, unless less than a millisecond remained:
-- it then disarms it.
pub ttask_resume-ttask_stop :
    (stop_settime resume_settime : Spec → Settime) (t : OsTask) (remain : Spec) (sec nsec : ℕ)
    → stop_settime zero_spec ≡ armed remain
    → remain.value_sec ≡ pos sec
    → remain.value_nsec ≡ pos nsec
    → (ttask_stop stop_settime t ≡ (succeeded, stopped_at t sec nsec))
      × (ttask_resume resume_settime (ttask_stop stop_settime t).1
          ≡ after_arming (stopped_at t sec nsec) (resume_settime (resumed_with t sec nsec)))
      × (disarms (resumed_with t sec nsec) ≡ (sec == 0 && ltb nsec ns_per_ms))
ttask_resume-ttask_stop stop_settime resume_settime t remain sec nsec e es en =
    let stops : ttask_stop stop_settime t ≡ (succeeded, stopped_at t sec nsec) =
      rw e rw es rw en refl in
    (
      stops,
      rw stops (
          set_running-after_arming (stopped_at t sec nsec)
            (resume_settime (resumed_with t sec nsec))),
      resumed_with-disarms t sec nsec,
    )
