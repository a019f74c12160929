-- ===== src/TimerTask/Created.antt =====
-- Creating timer tasks with src/timer_task.c and starting them.
use emlib.Prelude.{
  ℕ, ◌≡◌, refl, Option, some, none, Bool, true, false, ◌==◌, Bool-cases, inl, inr, ap,
}
use emlib.Prelude.Int.{pos}
use emlib.Time.Normalize.{normalize-of_seconds}
use emlib.TimerTask.{
  OsTask, Spec, Settime, TaskStatus, TimerCreate, made, not_made, succeeded, no_memory,
  return_os_error, created, after_arming, ttask_start,
}
use emlib.TimerTask.Calls.{seconds, as_created, create_thnotify}

-- A task with this timer, callback and times in seconds.
abbrev pub task_in_seconds : (id callback args it_value it_interval : ℕ) → OsTask
task_in_seconds id callback args it_value it_interval = record {
  timer_id = id;
  callback = callback;
  args = args;
  value = seconds it_value;
  interval = seconds it_interval;
  tt_state = created;
}

abbrev pub spec_in_seconds : ℕ → ℕ → Spec
spec_in_seconds it_value it_interval = record {
  value_sec = pos it_value;
  value_nsec = pos 0;
  interval_sec = pos it_interval;
  interval_nsec = pos 0;
}

-- How a creation ends, by the answers of calloc and timer_create: a refused timer leaves no task.
abbrev pub creation :
    (memory os_memory : Bool)
    → TimerCreate
    → (it_value it_interval callback args : ℕ) → Option (TaskStatus × Option OsTask)
creation false os_memory answer it_value it_interval callback args = some (no_memory, none)
creation true false answer it_value it_interval callback args = none
creation true true (made id) it_value it_interval callback args =
    some (succeeded, some (task_in_seconds id callback args it_value it_interval))
creation true true (not_made e) it_value it_interval callback args = some (return_os_error e, none)

as_created-refused :
    (t : OsTask) (e : ℕ) → as_created (return_os_error e, some t) ≡ (return_os_error e, none)
as_created-refused t e = elim (Bool-cases (e == 0)) [ inl z ↦ rw z refl | inr nz ↦ rw nz refl ]

-- em_ttask_create_thnotify for a callback, whatever calloc and timer_create answer: it fails as its
-- calls do, but writes through the null pointer when only the second calloc fails; and the task
-- that it makes asks timer_settime, when it is started, for whole seconds, those of the request.
pub create_thnotify-ttask_start :
    (memory os_memory : Bool) (timer_create : Bool → TimerCreate) (settime : Spec → Settime)
    (it_value it_interval callback args id : ℕ)
    → (callback == 0) ≡ false
    → (create_thnotify memory os_memory timer_create it_value it_interval callback args
        ≡ creation memory os_memory (timer_create true) it_value it_interval callback args)
      × (ttask_start settime (task_in_seconds id callback args it_value it_interval)
          ≡ after_arming
              (task_in_seconds id callback args it_value it_interval)
              (settime (spec_in_seconds it_value it_interval)))
create_thnotify-ttask_start memory os_memory timer_create settime it_value it_interval callback args
      id h =
    (creates memory os_memory (timer_create true) refl, refl)
  where
    creates :
        (memory os_memory : Bool) (answer : TimerCreate)
        → timer_create true ≡ answer
        → create_thnotify memory os_memory timer_create it_value it_interval callback args
          ≡ creation memory os_memory answer it_value it_interval callback args
    creates false os_memory answer e = rw h refl
    creates true false answer e = rw h refl
    creates true true (made id) e =
        rw e rw h rw (normalize-of_seconds it_value) rw (normalize-of_seconds it_interval) refl
    creates true true (not_made n) e = rw e rw h (ap some (as_created-refused _ n))
