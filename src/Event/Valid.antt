-- ===== src/Event/Valid.antt =====
-- What holds of an event of src/os_core_unix.c and the threads that wait for it, after any steps.
use emlib.Prelude.{
  ℕ, suc, ◌+◌, ◌-◌, ◌≤◌, ◌<◌, ◌≡◌, ◌⊎◌, refl, inl, inr, Bool, true, false, ◌==◌, if◌then◌else◌,
  arith, Bool-cases,
}
use emlib.Event.{
  EvState, off, on, pulsed, signal, broadcast, set, pulse, trywait, System, test, arrive, resume,
  Wakes, woken, Step, start, Reach, arrives, resumes, wakes_up, tries, sets, pulses, resets,
  created, later,
}

-- The number of threads to release fits the state.
abbrev pub Counts : EvState → Bool → ℕ → ℕ → Type 0
Counts off auto waiting n = n ≡ 0
Counts on auto waiting n = n ≡ 1
Counts pulsed true waiting n = n ≡ 1
Counts pulsed false waiting n = (0 < n) × (n ≤ waiting)

-- No wake-up is lost: while a manual event lets threads pass, none sleeps; while one with automatic
-- reset does, and threads sleep, another is awake and will pass.
abbrev pub NoneLost : EvState → Bool → ℕ → ℕ → Type 0
NoneLost off auto sleeping awake = Unit
NoneLost on true sleeping awake = (sleeping ≡ 0) ⊎ (0 < awake)
NoneLost pulsed true sleeping awake = (sleeping ≡ 0) ⊎ (0 < awake)
NoneLost on false sleeping awake = sleeping ≡ 0
NoneLost pulsed false sleeping awake = sleeping ≡ 0

pub record IsSound (s : System) : Type 0 where
  pub waiting : s.event.threads_waiting ≡ s.sleeping + s.awake
  pub counts :
      Counts s.event.state s.event.auto_reset s.event.threads_waiting s.event.threads_to_release
  pub none_lost : NoneLost s.event.state s.event.auto_reset s.sleeping s.awake

-- The same of the fields alone.
abbrev pub system : EvState → Bool → ℕ → ℕ → ℕ → ℕ → System
system st auto w n sleeping awake = record {
  event = record { state = st; auto_reset = auto; threads_waiting = w; threads_to_release = n };
  sleeping = sleeping;
  awake = awake;
}

valid :
    (st : EvState) (auto : Bool) (w n sl aw : ℕ)
    → w ≡ sl + aw
    → Counts st auto w n
    → NoneLost st auto sl aw
    → IsSound (system st auto w n sl aw)
valid st auto w n sl aw h c l = record { waiting = h; counts = c; none_lost = l }

-- A thread that holds the mutex and is counted as waiting makes its test.
test-IsSound :
    (st : EvState) (auto : Bool) (w n sl aw : ℕ)
    → w ≡ suc (sl + aw)
    → Counts st auto w n
    → NoneLost st auto sl (suc aw)
    → IsSound (test (system st auto w n sl aw))
test-IsSound off auto w n sl aw h c l = valid off auto w n (sl + 1) aw (omega arith) c tt
test-IsSound on true w n sl aw h c l = valid off true (w - 1) 0 sl aw (omega arith) refl tt
test-IsSound on false w n sl aw h c l = valid on false (w - 1) n sl aw (omega arith) c l
test-IsSound pulsed true w n sl aw h c l = valid off true (w - 1) 0 sl aw (omega arith) refl tt
test-IsSound pulsed false w n sl aw h c l = elim (Bool-cases (n - 1 == 0)) [
  | inl last ↦ rw last (valid off false (w - 1) (n - 1) sl aw (omega arith) (ground arith) tt)
  | inr more ↦ rw more (
      valid pulsed false (w - 1) (n - 1) sl aw (omega arith)
        (ground (arith, c.0, c.1), omega (arith, c.1)) l)
]

awake-NoneLost :
    (st : EvState) (auto : Bool) (sl aw aw' : ℕ)
    → NoneLost st auto sl aw
    → 0 < aw'
    → NoneLost st auto sl aw'
awake-NoneLost off auto sl aw aw' l h = tt
awake-NoneLost on true sl aw aw' l h = inr h
awake-NoneLost on false sl aw aw' l h = l
awake-NoneLost pulsed true sl aw aw' l h = inr h
awake-NoneLost pulsed false sl aw aw' l h = l

wider-Counts :
    (st : EvState) (auto : Bool) (w w' n : ℕ) → Counts st auto w n → w ≤ w' → Counts st auto w' n
wider-Counts off auto w w' n c h = c
wider-Counts on auto w w' n c h = c
wider-Counts pulsed true w w' n c h = c
wider-Counts pulsed false w w' n c h = (c.0, omega (arith, c.1))

arrive-IsSound : (s : System) → IsSound s → IsSound (arrive s)
arrive-IsSound s v =
    let e = s.event in
    test-IsSound e.state e.auto_reset (e.threads_waiting + 1) e.threads_to_release s.sleeping
      s.awake (omega (arith, v.waiting))
      (wider-Counts e.state e.auto_reset e.threads_waiting (e.threads_waiting + 1)
        e.threads_to_release v.counts (omega arith))
      (awake-NoneLost e.state e.auto_reset s.sleeping s.awake (suc s.awake) v.none_lost
        (omega arith))

pub resume-IsSound : (s : System) → IsSound s → 0 < s.awake → IsSound (resume s)
resume-IsSound s v h =
    let e = s.event in
    test-IsSound e.state e.auto_reset e.threads_waiting e.threads_to_release s.sleeping
      (s.awake - 1) (omega (arith, v.waiting)) v.counts
      (awake-NoneLost e.state e.auto_reset s.sleeping s.awake (suc (s.awake - 1)) v.none_lost
        (omega arith))

fewer_asleep :
    (st : EvState) (auto : Bool) (sl aw : ℕ)
    → NoneLost st auto sl aw
    → NoneLost st auto (sl - 1) (aw + 1)
fewer_asleep off auto sl aw l = tt
fewer_asleep on true sl aw l = inr (omega arith)
fewer_asleep on false sl aw l = omega arith
fewer_asleep pulsed true sl aw l = inr (omega arith)
fewer_asleep pulsed false sl aw l = omega arith

wake_up-IsSound : (s : System) → IsSound s → 0 < s.sleeping → IsSound (woken 1 s.event s)
wake_up-IsSound s v h = record {
  waiting = omega (arith, v.waiting);
  counts = v.counts;
  none_lost = fewer_asleep s.event.state s.event.auto_reset s.sleeping s.awake v.none_lost;
}

try-IsSound :
    (st : EvState) (auto : Bool) (w n sl aw : ℕ)
    → IsSound (system st auto w n sl aw)
    → IsSound
        (record (system st auto w n sl aw) { event = (trywait (system st auto w n sl aw).event).1 })
try-IsSound off auto w n sl aw v = v
try-IsSound on true w n sl aw v = valid off true w 0 sl aw v.waiting refl tt
try-IsSound on false w n sl aw v = v
try-IsSound pulsed true w n sl aw v = valid off true w 0 sl aw v.waiting refl tt
try-IsSound pulsed false w n sl aw v = elim (Bool-cases (n - 1 == 0)) [
  | inl last ↦ rw last (valid off false w (n - 1) sl aw v.waiting (ground arith) tt)
  | inr more ↦ rw more (
      valid pulsed false w (n - 1) sl aw v.waiting
        (ground (arith, v.counts.0), omega (arith, v.counts.1)) v.none_lost)
]

-- After a signal, or a broadcast.
pub woken_some : (sl aw k : ℕ) → Wakes signal sl k → (sl - k ≡ 0) ⊎ (0 < aw + k)
woken_some sl aw k h = ground (arith, h)

set-IsSound :
    (st : EvState) (auto : Bool) (w n sl aw k : ℕ)
    → IsSound (system st auto w n sl aw)
    → Wakes (set (system st auto w n sl aw).event).1 sl k
    → IsSound (woken k (set (system st auto w n sl aw).event).0 (system st auto w n sl aw))
set-IsSound st true w n sl aw k v h =
    valid on true w 1 (sl - k) (aw + k) (omega (arith, v.waiting, h.0)) refl (woken_some sl aw k h)
set-IsSound st false w n sl aw k v h =
    valid on false w 1 (sl - k) (aw + k) (omega (arith, v.waiting, h)) refl (omega (arith, h))

asleep-NoneLost : (st : EvState) (auto : Bool) (sl aw : ℕ) → sl ≡ 0 → NoneLost st auto sl aw
asleep-NoneLost off auto sl aw e = tt
asleep-NoneLost on true sl aw e = inl e
asleep-NoneLost on false sl aw e = e
asleep-NoneLost pulsed true sl aw e = inl e
asleep-NoneLost pulsed false sl aw e = e

-- A broadcast, or a signal when one thread waits.
pub all_woken :
    (w sl aw k : ℕ)
    → w ≡ sl + aw
    → 0 < w
    → Wakes (if w == 1 then signal else broadcast) sl k
    → (k ≤ sl) × (sl - k ≡ 0)
all_woken w sl aw k e h wk = elim (Bool-cases (w == 1)) [
  | inl one ↦ ground (arith, rw one at wk)
  | inr several ↦ ground (arith, rw several at wk)
]

pulse-IsSound :
    (st : EvState) (auto : Bool) (w n sl aw k : ℕ)
    → IsSound (system st auto w n sl aw)
    → Wakes (pulse (system st auto w n sl aw).event).1 sl k
    → IsSound (woken k (pulse (system st auto w n sl aw).event).0 (system st auto w n sl aw))
pulse-IsSound st auto w n sl aw k v h = elim (Bool-cases (w == 0)) [
  | inl none_waits ↦
      let zero_k : k ≡ 0 = rw none_waits at h in
      rw none_waits (
        valid st auto w n (sl - k) (aw + k) (omega (arith, v.waiting, zero_k)) v.counts
          (asleep-NoneLost st auto (sl - k) (aw + k) (ground (arith, v.waiting))))
  | inr waits ↦ rw waits (pulsed_valid auto (ground arith) (rw waits at h))
]
  where
    pulsed_valid :
        (auto : Bool)
        → 0 < w
        → Wakes (if (if auto then 1 else w) == 1 then signal else broadcast) sl k
        → IsSound (
            woken k
              (record {
                state = pulsed;
                auto_reset = auto;
                threads_waiting = w;
                threads_to_release = if auto then 1 else w;
              })
              (system st auto w n sl aw))
    pulsed_valid true some_wait wk =
        valid pulsed true w 1 (sl - k) (aw + k) (omega (arith, v.waiting, wk.0)) refl
          (woken_some sl aw k wk)
    pulsed_valid false some_wait wk =
        let (le, all) = all_woken w sl aw k v.waiting some_wait wk in
        valid pulsed false w w (sl - k) (aw + k) (omega (arith, v.waiting, le))
          (some_wait, omega arith) all

Step-IsSound : {s t : System} → Step s t → IsSound s → IsSound t
Step-IsSound {s} arrives v = arrive-IsSound s v
Step-IsSound {s} (resumes h) v = resume-IsSound s v h
Step-IsSound {s} (wakes_up h) v = wake_up-IsSound s v h
Step-IsSound {s} tries v =
    let e = s.event in
    try-IsSound e.state e.auto_reset e.threads_waiting e.threads_to_release s.sleeping s.awake v
Step-IsSound {s} (sets k h) v =
    let e = s.event in
    set-IsSound e.state e.auto_reset e.threads_waiting e.threads_to_release s.sleeping s.awake k v h
Step-IsSound {s} (pulses k h) v =
    let e = s.event in
    pulse-IsSound e.state e.auto_reset e.threads_waiting e.threads_to_release s.sleeping s.awake k v
      h
Step-IsSound {s} resets v = record { waiting = v.waiting; counts = refl; none_lost = tt }

start-IsSound : (manual_reset initial : Bool) → IsSound (start manual_reset initial)
start-IsSound true true = record { waiting = omega arith; counts = refl; none_lost = refl }
start-IsSound false true = record { waiting = omega arith; counts = refl; none_lost = inl refl }
start-IsSound manual_reset false = record { waiting = omega arith; counts = refl; none_lost = tt }

-- From em_event_create on, whatever threads wait, try, set, pulse and reset in whatever order: the
-- waiting threads are counted; the number to release is 0 while the event is off, 1 while it is on or
-- pulsed with automatic reset, and between 1 and the number of waiting threads while a manual event is
-- pulsed; and no thread sleeps while the event is not off, but with automatic reset beside one that
-- is awake and will pass.
pub Reach-IsSound :
    (manual_reset initial : Bool) (s : System) → Reach manual_reset initial s → IsSound s
Reach-IsSound manual_reset initial _ created = start-IsSound manual_reset initial
Reach-IsSound manual_reset initial t (later {s} r st) =
    Step-IsSound st (Reach-IsSound manual_reset initial s r)
