-- ===== src/TimerTask/Calls.antt =====
-- The functions of src/timer_task.c, and the macros of include/em/timer_task.h, on the timers of the parent module.
use emlib.Prelude.{ℕ, ◌/◌, ◌%◌, Option, some, none, Bool, ◌==◌, if◌then◌else◌}
use emlib.Prelude.Int.{pos}
use emlib.Time.{TimeVal}
use emlib.TimerTask.{
  NotifyType, OsTask, Settime, Spec, TaskStatus, TimerCreate, create_os_task, failed, invalid,
  no_memory, os_error, signal, succeeded, thread, ttask_destroy, ttask_mod, ttask_resume,
  ttask_start, ttask_stop,
}

-- `create_timer_task` of src/timer_task.c for a pool, a name and a callback, and
-- `em_ttask_create_thnotify` and `em_ttask_create_signotify` on top of it. The table of functions is that of
-- the functions above.
abbrev pub as_created : TaskStatus × Option OsTask → TaskStatus × Option OsTask
as_created (succeeded, t) = (succeeded, t)
as_created (invalid, t) = (invalid, none)
as_created (no_memory, t) = (no_memory, none)
as_created (os_error e, t) = (os_error e, none)
as_created (failed, t) = (failed, none)

abbrev pub map_created : Option (TaskStatus × Option OsTask) → Option (TaskStatus × Option OsTask)
map_created none = none
map_created (some r) = some (as_created r)

abbrev pub create_timer_task :
    (memory os_memory : Bool) (timer_create : Bool → TimerCreate)
    → TimeVal
    → TimeVal
    → NotifyType
    → (callback args : ℕ) → Option (TaskStatus × Option OsTask)
create_timer_task memory os_memory timer_create v i notify callback args =
    let made = map_created (create_os_task os_memory timer_create v i notify callback args) in
    if callback == 0 then some (invalid, none) else if memory then made else some (no_memory, none)

abbrev pub seconds : ℕ → TimeVal
seconds s = record { sec = pos s; msec = pos 0 }

abbrev pub create_thnotify :
    (memory os_memory : Bool) (timer_create : Bool → TimerCreate)
    (it_value it_interval callback args : ℕ)
    → Option (TaskStatus × Option OsTask)
create_thnotify memory os_memory timer_create it_value it_interval callback args =
    create_timer_task memory os_memory timer_create (seconds it_value) (seconds it_interval) thread
      callback args

abbrev pub create_signotify :
    (memory os_memory : Bool) (timer_create : Bool → TimerCreate)
    (it_value it_interval callback args : ℕ)
    → Option (TaskStatus × Option OsTask)
create_signotify memory os_memory timer_create it_value it_interval callback args =
    create_timer_task memory os_memory timer_create (seconds it_value) (seconds it_interval) signal
      callback args

-- TIMER_MOD_MS_ONCE and TIMER_MOD_MS
abbrev pub milliseconds : ℕ → TimeVal
milliseconds ms = record { sec = pos (ms / 1000); msec = pos (ms % 1000) }

abbrev pub mod_ms_once : (settime : Spec → Settime) → OsTask → ℕ → TaskStatus × OsTask
mod_ms_once settime t ms = ttask_mod settime t (milliseconds ms) (seconds 0)

abbrev pub mod_ms : (settime : Spec → Settime) → OsTask → ℕ → TaskStatus × OsTask
mod_ms settime t ms = ttask_mod settime t (milliseconds ms) (milliseconds ms)

-- The functions of src/timer_task.c on a task that may be null, which `em_ttask_mod` does not test.
abbrev pub unless_null : Option OsTask → (OsTask → TaskStatus × OsTask) → TaskStatus × Option OsTask
unless_null none act = (invalid, none)
unless_null (some t) act = ((act t).0, some (act t).1)

abbrev pub em_ttask_start : (settime : Spec → Settime) → Option OsTask → TaskStatus × Option OsTask
em_ttask_start settime tt = unless_null tt (ttask_start settime)

abbrev pub em_ttask_stop : (settime : Spec → Settime) → Option OsTask → TaskStatus × Option OsTask
em_ttask_stop settime tt = unless_null tt (ttask_stop settime)

abbrev pub em_ttask_resume : (settime : Spec → Settime) → Option OsTask → TaskStatus × Option OsTask
em_ttask_resume settime tt = unless_null tt (ttask_resume settime)

abbrev pub em_ttask_destroy : Option ℕ → Option OsTask → TaskStatus
em_ttask_destroy answer none = invalid
em_ttask_destroy answer (some t) = ttask_destroy answer

abbrev pub em_ttask_mod :
    (settime : Spec → Settime) → Option OsTask → TimeVal → TimeVal → Option (TaskStatus × OsTask)
em_ttask_mod settime none v i = none
em_ttask_mod settime (some t) v i = some (ttask_mod settime t v i)
