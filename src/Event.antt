-- ===== src/Event.antt =====
-- The event objects of src/os_core_unix.c and the threads that wait for them. The mutex of an event makes
-- each piece of code between a lock, or a wake-up, and an unlock, or a sleep, one step. Threads that
-- wait are counted: those asleep on the condition variable, and those that were woken and have not yet
-- taken the mutex again. They are fewer than 2 ^ 32, so that the counters do not wrap.
pub mod Valid
pub mod Release
mod Tests
use emlib.Prelude.{
  ℕ, zero, suc, ◌+◌, ◌-◌, ◌≤◌, ◌<◌, ◌≡◌, ◌⊎◌, Bool, true, false, not, ◌==◌, if◌then◌else◌,
}

pub data EvState : Type 0 where
  off : EvState
  on : EvState
  pulsed : EvState

-- `em_event_t`, without the mutex and the condition variable
pub record Event : Type 0 where
  pub state : EvState
  pub auto_reset : Bool
  pub threads_waiting : ℕ
  pub threads_to_release : ℕ

-- `em_event_create`
abbrev pub create : Bool → Bool → Event
create manual_reset initial = record {
  state = if initial then on else off;
  auto_reset = not manual_reset;
  threads_waiting = 0;
  threads_to_release = if initial then 1 else 0;
}

-- `event_on_one_release`
abbrev pub turned_off : Event → Event
turned_off e = record e { threads_to_release = 0; state = off }

abbrev pub one_less : Event → Event
one_less e = record e {
  threads_to_release = e.threads_to_release - 1;
  state = if e.threads_to_release - 1 == 0 then off else e.state;
}

abbrev pub released_in : EvState → Event → Event
released_in on e = if e.auto_reset then turned_off e else e
released_in off e = if e.auto_reset then turned_off e else one_less e
released_in pulsed e = if e.auto_reset then turned_off e else one_less e

abbrev pub on_one_release : Event → Event
on_one_release e = released_in e.state e

-- `em_event_set`, `em_event_pulse` and `em_event_reset`, with the call on the condition variable.
pub data Wake : Type 0 where
  no_call : Wake
  signal : Wake
  broadcast : Wake

abbrev pub set : Event → Event × Wake
set e =
    (record e { threads_to_release = 1; state = on }, if e.auto_reset then signal else broadcast)

abbrev pub pulse : Event → Event × Wake
pulse e =
    let n = if e.auto_reset then 1 else e.threads_waiting in
    if e.threads_waiting == 0
    then (e, no_call)
    else (record e { threads_to_release = n; state = pulsed }, if n == 1 then signal else broadcast)

abbrev pub reset : Event → Event
reset e = record e { state = off; threads_to_release = 0 }

-- `em_event_trywait`: whether it succeeds, and the event.
abbrev pub trywait_in : EvState → Event → Bool × Event
trywait_in off e = (false, e)
trywait_in on e = (true, on_one_release e)
trywait_in pulsed e = (true, on_one_release e)

abbrev pub trywait : Event → Bool × Event
trywait e = trywait_in e.state e

-- The event and the threads that wait for it.
pub record System : Type 0 where
  pub event : Event
  pub sleeping : ℕ
  pub awake : ℕ

-- `em_event_wait`: the test of its loop by a thread that holds the mutex, after which the thread
-- sleeps, or leaves and returns.
abbrev pub leave : Event → Event
leave e = on_one_release (record e { threads_waiting = e.threads_waiting - 1 })

abbrev pub test_in : EvState → System → System
test_in off s = record s { sleeping = s.sleeping + 1 }
test_in on s = record s { event = leave s.event }
test_in pulsed s = record s { event = leave s.event }

abbrev pub test : System → System
test s = test_in s.event.state s

-- The start of `em_event_wait` up to the first sleep or the return, and what a woken thread does.
abbrev pub arrive : System → System
arrive s =
    test (record s { event = record (s.event) { threads_waiting = s.event.threads_waiting + 1 } })

abbrev pub resume : System → System
resume s = test (record s { awake = s.awake - 1 })

-- How many of the sleeping threads a call wakes: POSIX says at least one, if there is one, for
-- pthread_cond_signal, and all for pthread_cond_broadcast.
abbrev pub Wakes : Wake → ℕ → ℕ → Type 0
Wakes no_call sleeping k = k ≡ 0
Wakes signal sleeping k = (k ≤ sleeping) × ((sleeping ≡ 0) ⊎ (0 < k))
Wakes broadcast sleeping k = k ≡ sleeping

abbrev pub woken : ℕ → Event → System → System
woken k e s = record { event = e; sleeping = s.sleeping - k; awake = s.awake + k }

-- One step of one of the threads; a sleeping thread may also wake of itself.
pub data Step (s : System) : System → Type 0 where
  arrives : Step s (arrive s)
  resumes : 0 < s.awake → Step s (resume s)
  wakes_up : 0 < s.sleeping → Step s (woken 1 s.event s)
  tries : Step s (record s { event = (trywait s.event).1 })
  sets : (k : ℕ) → Wakes (set s.event).1 s.sleeping k → Step s (woken k (set s.event).0 s)
  pulses : (k : ℕ) → Wakes (pulse s.event).1 s.sleeping k → Step s (woken k (pulse s.event).0 s)
  resets : Step s (record s { event = reset s.event })

abbrev pub start : Bool → Bool → System
start manual_reset initial = record { event = create manual_reset initial; sleeping = 0; awake = 0 }

pub data Reach (manual_reset initial : Bool) : System → Type 0 where
  created : Reach manual_reset initial (start manual_reset initial)
  later : {s t : System} → Reach manual_reset initial s → Step s t → Reach manual_reset initial t
