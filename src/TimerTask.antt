-- ===== src/TimerTask.antt =====
-- Timer tasks: the functions on POSIX timers at the end of src/os_core_unix.c. What
-- calloc, timer_create, timer_settime and timer_delete answer are arguments; the name of a task, which
-- only the log shows, is left out.
pub mod Calls
pub mod Stopped
pub mod Created
mod Tests
use emlib.Prelude.{
  ℕ, suc, ◌*◌, ◌/◌, ◌%◌, Option, some, none, Bool, true, false, not, ◌&&◌, ◌==◌, if◌then◌else◌,
}
use emlib.Prelude.Int.{ℤ, pos, negsuc, neg}
use emlib.Time.{TimeVal, normalize}

-- em_tt_notify_type_e and em_tt_state_e
pub data NotifyType : Type 0 where
  signal : NotifyType
  thread : NotifyType
  thread_pool : NotifyType

pub data TtState : Type 0 where
  created : TtState
  running : TtState
  stopped : TtState

-- EM_SUCC, EM_EINVAL, EM_ENOMEM and EM_RETURN_OS_ERROR, which is -1 when the system names no error.
pub data TaskStatus : Type 0 where
  succeeded : TaskStatus
  invalid : TaskStatus
  no_memory : TaskStatus
  os_error : ℕ → TaskStatus
  failed : TaskStatus

abbrev pub return_os_error : ℕ → TaskStatus
return_os_error e = if e == 0 then failed else os_error e

-- The system's struct itimerspec, and its answers: the previous setting, or the error.
pub record Spec : Type 0 where
  pub value_sec : ℤ
  pub value_nsec : ℤ
  pub interval_sec : ℤ
  pub interval_nsec : ℤ

pub data Settime : Type 0 where
  armed : Spec → Settime
  refused : ℕ → Settime

pub data TimerCreate : Type 0 where
  made : ℕ → TimerCreate
  not_made : ℕ → TimerCreate

-- `em_os_tt_obj_t`; a callback and its argument are addresses.
pub record OsTask : Type 0 where
  pub timer_id : ℕ
  pub callback : ℕ
  pub args : ℕ
  pub value : TimeVal
  pub interval : TimeVal
  pub tt_state : TtState

-- Products and quotients of a `long`, as in C.
abbrev pub scaled : ℤ → ℕ → ℤ
scaled (pos n) k = pos (n * k)
scaled (negsuc n) k = neg (pos (suc n * k))

abbrev pub divided : ℤ → ℕ → ℤ
divided (pos n) k = pos (n / k)
divided (negsuc n) k = neg (pos (suc n / k))

abbrev pub ns_per_ms : ℕ
ns_per_ms = 1000000

abbrev pub new_value : TimeVal → TimeVal → Spec
new_value v i = record {
  value_sec = v.sec;
  value_nsec = scaled v.msec ns_per_ms;
  interval_sec = i.sec;
  interval_nsec = scaled i.msec ns_per_ms;
}

-- `notify_function`: the call it makes, if any.
abbrev pub expired : OsTask → Option (ℕ × ℕ)
expired t = if t.callback == 0 then none else some (t.callback, t.args)

-- The static `create_timer_task`. Only a notification by a thread fills in the sigevent, and the
-- answer of timer_create depends on whether it was.
abbrev pub fills_sigevent : NotifyType → Bool
fills_sigevent signal = false
fills_sigevent thread = true
fills_sigevent thread_pool = false

abbrev pub with_timer : OsTask → TimerCreate → TaskStatus × OsTask
with_timer t (made id) = (succeeded, record t { timer_id = id })
with_timer t (not_made e) = (return_os_error e, t)

abbrev pub create_posix_timer :
    (timer_create : Bool → TimerCreate) → OsTask → NotifyType → TaskStatus × OsTask
create_posix_timer timer_create t notify = with_timer t (timer_create (fills_sigevent notify))

-- `em_create_timer_task` with the address of a pointer to write to; `none` for the write through the
-- null pointer when calloc fails.
abbrev pub create_os_task :
    (memory : Bool) (timer_create : Bool → TimerCreate)
    → TimeVal
    → TimeVal
    → NotifyType
    → (callback args : ℕ) → Option (TaskStatus × Option OsTask)
create_os_task memory timer_create v i notify callback args =
    let zeroed : OsTask = record {
      timer_id = 0;
      callback = callback;
      args = args;
      value = normalize v;
      interval = normalize i;
      tt_state = created;
    } in
    let (status, t) = create_posix_timer timer_create zeroed notify in
    if callback == 0 then some (invalid, none) else if memory then some (status, some t) else none

-- The functions that act on a task. `ttask_start` is `em_os_ttask_start`, and so on.
abbrev pub after_arming : OsTask → Settime → TaskStatus × OsTask
after_arming t (armed old) = (succeeded, record t { tt_state = running })
after_arming t (refused e) = (return_os_error e, t)

abbrev pub ttask_start : (settime : Spec → Settime) → OsTask → TaskStatus × OsTask
ttask_start settime t = after_arming t (settime (new_value t.value t.interval))

abbrev pub zero_spec : Spec
zero_spec = record {
  value_sec = pos 0;
  value_nsec = pos 0;
  interval_sec = pos 0;
  interval_nsec = pos 0;
}

abbrev pub after_disarming : OsTask → Settime → TaskStatus × OsTask
after_disarming t (armed remain) = (
  succeeded,
  record t {
    value = record { sec = remain.value_sec; msec = divided remain.value_nsec ns_per_ms };
    tt_state = stopped;
  },
)
after_disarming t (refused e) = (return_os_error e, t)

abbrev pub ttask_stop : (settime : Spec → Settime) → OsTask → TaskStatus × OsTask
ttask_stop settime t = after_disarming t (settime zero_spec)

abbrev pub set_running : TaskStatus × OsTask → TaskStatus × OsTask
set_running (succeeded, t) = (succeeded, record t { tt_state = running })
set_running (invalid, t) = (invalid, t)
set_running (no_memory, t) = (no_memory, t)
set_running (os_error e, t) = (os_error e, t)
set_running (failed, t) = (failed, t)

abbrev pub ttask_resume : (settime : Spec → Settime) → OsTask → TaskStatus × OsTask
ttask_resume settime t = set_running (ttask_start settime t)

abbrev pub ttask_mod : (settime : Spec → Settime) → OsTask → TimeVal → TimeVal → TaskStatus × OsTask
ttask_mod settime t v i = after_arming t (settime (new_value v i))

-- `em_os_ttask_destroy`, with the error of timer_delete, if any.
abbrev pub ttask_destroy : Option ℕ → TaskStatus
ttask_destroy none = succeeded
ttask_destroy (some e) = return_os_error e
