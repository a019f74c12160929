-- ===== src/Timestamp/Sleep.antt =====
-- The sleeping functions of src/os_time_unix.c: em_sleep, em_usleep and em_msleep. What clock_gettime, clock_nanosleep and
-- nanosleep return are arguments; those of clock_nanosleep are a list, for one call after the other.
use emlib.Prelude.{
  ℕ, zero, suc, ◌+◌, ◌-◌, ◌*◌, ◌/◌, ◌%◌, ◌<◌, ◌≡◌, refl, ap, ◌∙◌, true, false, Option, some, none,
  List, [], ◌∷◌, ◌++◌, replicate, ltb, leb, ◌==◌, if◌then◌else◌, arith, Bool-cases, inl, inr,
}

-- `em_sleep_val` and struct timespec
pub record SleepVal : Type 0 where
  pub sec : ℕ
  pub nsec : ℕ

abbrev pub s2ns : ℕ
s2ns = 1000000000

-- TIME2SV_T and TIMEADD
abbrev pub time2sv : (time t2s t2ns : ℕ) → SleepVal
time2sv time t2s t2ns =
    if ltb 0 time
    then record { sec = time / t2s; nsec = time % t2s * t2ns }
    else record { sec = 0; nsec = 0 }

abbrev pub timeadd : SleepVal → SleepVal → SleepVal
timeadd ts sv =
    let nsec = ts.nsec + sv.nsec in
    if leb s2ns nsec
    then record { sec = ts.sec + sv.sec + 1; nsec = nsec - s2ns }
    else record { sec = ts.sec + sv.sec; nsec = nsec }

-- EM_SUCC, or the error that the system names, which is 0 if it names none
pub data SleepStatus : Type 0 where
  woken : SleepStatus
  os_error : ℕ → SleepStatus

-- The loop of `_em_sleep`; `none` while the list of answers has not ended it. The error that is returned
-- is that of errno, and not the answer.
unfoldable pub sleep_loop : (eintr errno : ℕ) → (answers : List ℕ) → Option SleepStatus
sleep_loop eintr errno [] = none
sleep_loop eintr errno (ret ∷ answers) =
    let rest = sleep_loop eintr errno answers in
    if ret == 0 then some woken else if ret == eintr then rest else some (os_error errno)

-- `_em_sleep` with the reading of the clock, if there is one: the time until which it sleeps, and how it
-- ends; and the one for systems without clock_nanosleep.
abbrev pub sleep_val :
    (clock : Option SleepVal) (eintr errno : ℕ) (answers : List ℕ)
    → SleepVal
    → Option SleepVal × Option SleepStatus
sleep_val none eintr errno answers sv = (none, some (os_error errno))
sleep_val (some now) eintr errno answers sv =
    (some (timeadd now sv), sleep_loop eintr errno answers)

abbrev pub nanosleep_val : (errno answer : ℕ) → SleepStatus
nanosleep_val errno answer = if answer == 0 then woken else os_error errno

-- `em_sleep`, `em_usleep` and `em_msleep`
module _ (clock : Option SleepVal) (eintr errno : ℕ) (answers : List ℕ) where
  abbrev pub sleep : ℕ → Option SleepVal × Option SleepStatus
  sleep sec = sleep_val clock eintr errno answers (time2sv sec 1 s2ns)

  abbrev pub usleep : ℕ → Option SleepVal × Option SleepStatus
  usleep usec = sleep_val clock eintr errno answers (time2sv usec 1000000 1000)

  abbrev pub msleep : ℕ → Option SleepVal × Option SleepStatus
  msleep msec = sleep_val clock eintr errno answers (time2sv msec 1000 1000000)

abbrev pub total : SleepVal → ℕ
total t = t.sec * s2ns + t.nsec

-- A proper struct timespec of so many nanoseconds
pub record Spans (n : ℕ) (t : SleepVal) : Type 0 where
  pub exact : total t ≡ n
  pub proper : t.nsec < s2ns

timeadd-Spans :
    (s n s' n' : ℕ)
    → n < s2ns
    → n' < s2ns
    → Spans
        (s * s2ns + n + (s' * s2ns + n'))
        (timeadd (record { sec = s; nsec = n }) (record { sec = s'; nsec = n' }))
timeadd-Spans s n s' n' h h' = elim (Bool-cases (leb s2ns (n + n'))) [
  | inl over ↦ rw over (record { exact = ground (arith, over); proper = ground (arith, over) })
  | inr fits ↦ rw fits (record { exact = omega arith; proper = ground (arith, fits) })
]

sleep_loop-interrupted :
    (eintr errno k : ℕ) (rest : List ℕ)
    → 0 < eintr
    → sleep_loop eintr errno (replicate k eintr ++ (0 ∷ rest)) ≡ some woken
unfolding sleep_loop
sleep_loop-interrupted eintr errno zero rest h = refl
sleep_loop-interrupted eintr errno (suc k) rest h =
    let not_done : (eintr == 0) ≡ false = ground arith in
    let again : (eintr == eintr) ≡ true = ground arith in
    rw not_done rw again (sleep_loop-interrupted eintr errno k rest h)

time2sv-Spans-seconds : (n : ℕ) → Spans (n * s2ns) (time2sv n 1 s2ns)
time2sv-Spans-seconds n = elim (Bool-cases (ltb 0 n)) [
  | inl some_time ↦ rw some_time (record { exact = omega arith; proper = omega arith })
  | inr no_time ↦ rw no_time (record { exact = ground (arith, no_time); proper = omega arith })
]

time2sv-Spans-microseconds : (n : ℕ) → Spans (n * 1000) (time2sv n 1000000 1000)
time2sv-Spans-microseconds n = elim (Bool-cases (ltb 0 n)) [
  | inl some_time ↦ rw some_time (record { exact = omega arith; proper = omega arith })
  | inr no_time ↦ rw no_time (record { exact = ground (arith, no_time); proper = omega arith })
]

time2sv-Spans-milliseconds : (n : ℕ) → Spans (n * 1000000) (time2sv n 1000 1000000)
time2sv-Spans-milliseconds n = elim (Bool-cases (ltb 0 n)) [
  | inl some_time ↦ rw some_time (record { exact = omega arith; proper = omega arith })
  | inr no_time ↦ rw no_time (record { exact = ground (arith, no_time); proper = omega arith })
]

-- The sleep ends well, and it was until this time of the clock.
pub record SleepsUntil (n : ℕ) (r : Option SleepVal × Option SleepStatus) : Type 0 where
  pub deadline : SleepVal
  pub spans : Spans n deadline
  pub result : r ≡ (some deadline, some woken)

interrupted-SleepsUntil :
    (now sv : SleepVal) (eintr errno k : ℕ) (rest : List ℕ) (n : ℕ)
    → now.nsec < s2ns
    → 0 < eintr
    → Spans n sv
    → SleepsUntil
        (total now + n)
        (sleep_val (some now) eintr errno (replicate k eintr ++ (0 ∷ rest)) sv)
interrupted-SleepsUntil now sv eintr errno k rest n h he sp =
    let added = timeadd-Spans now.sec now.nsec sv.sec sv.nsec h (sp.proper) in
    record {
      deadline = timeadd now sv;
      spans = record {
        exact = added.exact ∙ ap (λ m. total now + m) (sp.exact);
        proper = added.proper;
      };
      result = ap (λ r. (some (timeadd now sv), r)) (sleep_loop-interrupted eintr errno k rest he);
    }

-- Whatever number of signals interrupt it, em_sleep, em_usleep and em_msleep of `n` sleep, by the clock,
-- until exactly that many seconds, microseconds or milliseconds after the time at which they were called,
-- with nanoseconds in their range, and report success.
pub sleep_lem :
    (now : SleepVal) (eintr errno k : ℕ) (rest : List ℕ) (n : ℕ)
    → now.nsec < s2ns
    → 0 < eintr
    → SleepsUntil
        (total now + n * s2ns)
        (sleep (some now) eintr errno (replicate k eintr ++ (0 ∷ rest)) n)
      × SleepsUntil
          (total now + n * 1000)
          (usleep (some now) eintr errno (replicate k eintr ++ (0 ∷ rest)) n)
      × SleepsUntil
          (total now + n * 1000000)
          (msleep (some now) eintr errno (replicate k eintr ++ (0 ∷ rest)) n)
sleep_lem now eintr errno k rest n h he = (
  interrupted-SleepsUntil now (time2sv n 1 s2ns) eintr errno k rest (n * s2ns) h he
      (time2sv-Spans-seconds n),
  interrupted-SleepsUntil now (time2sv n 1000000 1000) eintr errno k rest (n * 1000) h he
      (time2sv-Spans-microseconds n),
  interrupted-SleepsUntil now (time2sv n 1000 1000000) eintr errno k rest (n * 1000000) h he
      (time2sv-Spans-milliseconds n),
)
