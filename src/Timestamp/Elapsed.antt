-- ===== src/Timestamp/Elapsed.antt =====
-- Elapsed times of src/os_timestamp_common.c, on a clock that counts nanoseconds.
use emlib.Prelude.{ℕ, ◌+◌, ◌*◌, ◌/◌, ◌%◌, ◌<◌, ◌≡◌, refl, ap, ◌∙◌, true, some, ltb, arith}
use emlib.Prelude.Int.{pos}
use emlib.Timestamp.{
  word32, word64, half64, nsec_per_sec, as_unsigned, sub_timestamp, get_elapsed, quotient,
  unsigned_product, in_word, time_of, elapsed_msec, elapsed_usec, elapsed_nanosec,
  em_elapsed_msec64, em_elapsed_usec, elapsed_time,
}

-- The time stamp so many nanoseconds later; the counter may wrap.
abbrev pub later : ℕ → ℕ → ℕ
later start d = (start + d) % word64

sub-later : (start d : ℕ) → start < word64 → d < word64 → sub_timestamp (later start d) start ≡ d
sub-later start d h h' = omega arith

get_elapsed-later :
    (start d : ℕ) → start < word64 → d < half64 → get_elapsed start (later start d) ≡ pos d
get_elapsed-later start d h h' =
    let positive : ltb d half64 ≡ true = ground arith in
    rw (sub-later start d h (omega arith)) rw positive refl

elapsed_msec-later :
    (start d : ℕ)
    → start < word64
    → d * 1000 < half64
    → elapsed_msec start (later start d) ≡ some (pos (d * 1000 / nsec_per_sec))
elapsed_msec-later start d h h' =
    let fits : ltb (d * 1000) half64 ≡ true = ground arith in
    rw (get_elapsed-later start d h (omega arith)) rw fits refl

unsigned_product-small :
    (d k : ℕ) → d * k < half64 → d < word64 → unsigned_product (pos d) k ≡ pos (d * k)
unsigned_product-small d k h h' =
    let same : d % word64 ≡ d = omega arith in
    let small : d * k % word64 ≡ d * k = omega arith in
    let positive : ltb (d * k) half64 ≡ true = ground arith in rw same rw small rw positive refl

elapsed_usec-later :
    (start d : ℕ)
    → start < word64
    → d * 1000000 < half64
    → elapsed_usec start (later start d) ≡ pos (d * 1000000 / nsec_per_sec)
elapsed_usec-later start d h h' =
    rw (get_elapsed-later start d h (omega arith))
      (ap (λ e. quotient e nsec_per_sec) (unsigned_product-small d 1000000 h' (omega arith)))

elapsed_nanosec-later :
    (start d : ℕ)
    → start < word64
    → d * nsec_per_sec < half64
    → elapsed_nanosec start (later start d) ≡ d % word32
elapsed_nanosec-later start d h h' = rw (get_elapsed-later start d h (omega arith)) (
    ap (λ e. as_unsigned word32 (quotient e nsec_per_sec))
      (unsigned_product-small d nsec_per_sec h' (omega arith))
    ∙ omega arith)

-- Between two readings of the counter, which may have wrapped, that are `d` nanoseconds apart: for at most
-- 2 ^ 63 / 1000 of them em_elapsed_time is the span in seconds and milliseconds, rounded down, and
-- em_elapsed_msec64 the milliseconds; for at most 2 ^ 63 / 10 ^ 6 em_elapsed_usec is the
-- microseconds, and for at most 2 ^ 63 / 10 ^ 9 em_elapsed_nanosec the nanoseconds, both modulo
-- 2 ^ 32.
pub elapsed_lem :
    (start d d' d'' : ℕ)
    → start < word64
    → d * 1000 < half64
    → d' * 1000000 < half64
    → d'' * nsec_per_sec < half64
    → (elapsed_time start (later start d)
        ≡ some (record { sec = pos (d / nsec_per_sec); msec = pos (d / 1000000 % 1000) }))
      × (em_elapsed_msec64 start (later start d) ≡ some (d / 1000000))
      × (em_elapsed_usec start (later start d') ≡ d' / 1000 % word32)
      × (elapsed_nanosec start (later start d'') ≡ d'' % word32)
elapsed_lem start d d' d'' h hm hu hn =
    let seconds : d * 1000 / nsec_per_sec / 1000 ≡ d / nsec_per_sec = omega arith in
    let rest : d * 1000 / nsec_per_sec % 1000 ≡ d / 1000000 % 1000 = omega arith in
    let whole : d * 1000 / nsec_per_sec % word64 ≡ d / 1000000 = omega arith in
    let micro : d' * 1000000 / nsec_per_sec ≡ d' / 1000 = omega arith in
    (
      ap time_of (elapsed_msec-later start d h hm)
          ∙ ap (λ s. some (record { sec = pos s; msec = pos (d * 1000 / nsec_per_sec % 1000) }))
              seconds
          ∙ ap (λ m. some (record { sec = pos (d / nsec_per_sec); msec = pos m })) rest,
      ap (in_word word64) (elapsed_msec-later start d h hm) ∙ ap some whole,
      ap (as_unsigned word32) (elapsed_usec-later start d' h hu) ∙ ap (λ n. n % word32) micro,
      elapsed_nanosec-later start d'' h hn,
    )
