-- ===== src/Event/Release.antt =====
-- What a set and a pulse of an event of src/os_core_unix.c do to the threads that wait for it, once those
-- that are awake have run.
use emlib.Prelude.{
  ℕ, zero, suc, ◌+◌, ◌-◌, ◌<◌, ◌≡◌, refl, ◌∙◌, Bool, true, false, ◌==◌, if◌then◌else◌, arith,
}
use emlib.Event.{
  EvState, off, on, pulsed, signal, broadcast, set, pulse, System, resume, Wakes, woken,
}
use emlib.Event.Valid.{IsSound, system, all_woken}

-- As many threads as given take the mutex, one after the other.
unfoldable pub resumed : ℕ → System → System
resumed zero s = s
resumed (suc n) s = resumed n (resume s)

-- No thread is awake any more; the event is in this state, and so many threads wait.
pub record EndsIn (st : EvState) (waiting : ℕ) (s : System) : Type 0 where
  pub state : s.event.state ≡ st
  pub left : s.event.threads_waiting ≡ waiting
  pub awake : s.awake ≡ 0

resumed-off :
    (auto : Bool) (w m sl a n : ℕ) → a ≡ n → EndsIn off w (resumed n (system off auto w m sl a))
unfolding resumed
resumed-off auto w m sl a zero e = record { state = refl; left = refl; awake = e }
resumed-off auto w m sl a (suc n) e = resumed-off auto w m (sl + 1) (a - 1) n (omega arith)

resumed-on : (w m sl a n : ℕ) → a ≡ n → EndsIn on (w - n) (resumed n (system on false w m sl a))
unfolding resumed
resumed-on w m sl a zero e = record { state = refl; left = omega arith; awake = e }
resumed-on w m sl a (suc n) e =
    let r = resumed-on (w - 1) m sl (a - 1) n (omega arith) in
    record { state = r.state; left = r.left ∙ omega arith; awake = r.awake }

resumed-pulsed :
    (w m sl a n : ℕ)
    → a ≡ suc n
    → m ≡ suc n
    → EndsIn off (w - suc n) (resumed (suc n) (system pulsed false w m sl a))
unfolding resumed
resumed-pulsed w m sl a zero e e' =
    let last : (m - 1 == 0) ≡ true = ground arith in
    rw last record { state = refl; left = refl; awake = omega arith }
resumed-pulsed w m sl a (suc n) e e' =
    let more : (m - 1 == 0) ≡ false = ground arith in
    let r = resumed-pulsed (w - 1) (m - 1) sl (a - 1) n (omega arith) (omega arith) in
    rw more record { state = r.state; left = r.left ∙ omega arith; awake = r.awake }

-- With automatic reset the first thread passes, and the others sleep.
resumed-auto_on :
    (w m sl a n : ℕ) → a ≡ suc n → EndsIn off (w - 1) (resumed (suc n) (system on true w m sl a))
unfolding resumed
resumed-auto_on w m sl a n e = resumed-off true (w - 1) 0 sl (a - 1) n (omega arith)

resumed-auto_pulsed :
    (w m sl a n : ℕ)
    → a ≡ suc n
    → EndsIn off (w - 1) (resumed (suc n) (system pulsed true w m sl a))
unfolding resumed
resumed-auto_pulsed w m sl a n e = resumed-off true (w - 1) 0 sl (a - 1) n (omega arith)

-- How many threads still wait after a release of this kind, and the state after a set.
abbrev pub remaining : Bool → ℕ → ℕ
remaining auto w = if auto then w - 1 else 0

abbrev pub after_set : Bool → EvState
after_set auto = if auto then off else on

one_awake : (w sl aw k : ℕ) → w ≡ sl + aw → 0 < w → Wakes signal sl k → (n : ℕ) × (aw + k ≡ suc n)
one_awake w sl aw k e h wk = (aw + k - 1, ground (arith, wk))

set_ends :
    (st : EvState) (auto : Bool) (w m sl aw k : ℕ)
    → w ≡ sl + aw
    → 0 < w
    → Wakes (set (system st auto w m sl aw).event).1 sl k
    → EndsIn
        (after_set auto)
        (remaining auto w)
        (resumed (aw + k) (system on auto w 1 (sl - k) (aw + k)))
set_ends st true w m sl aw k e h wk =
    let (n, some_awake) = one_awake w sl aw k e h wk in
    rw some_awake (resumed-auto_on w 1 (sl - k) (suc n) n refl)
set_ends st false w m sl aw k e h wk =
    let r = resumed-on w 1 (sl - k) (aw + k) (aw + k) refl in
    record { state = r.state; left = r.left ∙ omega (arith, wk); awake = r.awake }

-- A pulse when threads wait.
pulse_ends :
    (auto : Bool) (w sl aw k : ℕ)
    → w ≡ sl + aw
    → 0 < w
    → Wakes (if (if auto then 1 else w) == 1 then signal else broadcast) sl k
    → EndsIn off
        (remaining auto w)
        (resumed (aw + k) (system pulsed auto w (if auto then 1 else w) (sl - k) (aw + k)))
pulse_ends true w sl aw k e h wk =
    let (n, some_awake) = one_awake w sl aw k e h wk in
    rw some_awake (resumed-auto_pulsed w 1 (sl - k) (suc n) n refl)
pulse_ends false w sl aw k e h wk =
    let (le, all) = all_woken w sl aw k e h wk in
    let everyone : aw + k ≡ suc (w - 1) = omega (arith, le, all) in
    let r = resumed-pulsed w w (sl - k) (suc (w - 1)) (w - 1) refl (omega arith) in
    rw everyone record { state = r.state; left = r.left ∙ omega arith; awake = r.awake }

-- In a valid state in which threads wait, after em_event_set, or after em_event_pulse, whichever threads the
-- call wakes: once those that are awake have run, of a manual event none waits any more, and of one
-- with automatic reset exactly one less waits. The event is then off, but a manual one that was set
-- stays on.
pub release_lem :
    (s : System) (k k' : ℕ)
    → IsSound s
    → 0 < s.event.threads_waiting
    → Wakes (set s.event).1 s.sleeping k
    → Wakes (pulse s.event).1 s.sleeping k'
    → EndsIn
        (after_set s.event.auto_reset)
        (remaining s.event.auto_reset s.event.threads_waiting)
        (resumed (s.awake + k) (woken k (set s.event).0 s))
      × EndsIn off
          (remaining s.event.auto_reset s.event.threads_waiting)
          (resumed (s.awake + k') (woken k' (pulse s.event).0 s))
release_lem s k k' v h wk wk' =
    let e = s.event in
    let some_wait : (e.threads_waiting == 0) ≡ false = ground arith in
    (
      set_ends e.state e.auto_reset e.threads_waiting e.threads_to_release s.sleeping s.awake k
          v.waiting h wk,
      rw some_wait (
          pulse_ends e.auto_reset e.threads_waiting s.sleeping s.awake k' v.waiting h
            (rw some_wait at wk')),
    )
