-- ===== src/Timestamp.antt =====
-- Time stamps: the inline functions on em_timestamp of include/em/os.h, src/os_timestamp_common.c and
-- src/os_timestamp_posix.c with 64-bit integers and the monotonic clock, and the sleeping functions of
-- src/os_time_unix.c. A time stamp is a number below 2 ^ 64. `none` is an overflow of a signed product, which
-- C leaves undefined.
pub mod Agree
pub mod Elapsed
pub mod Sleep
mod Tests
use emlib.Prelude.{
  ℕ, zero, suc, ◌+◌, ◌-◌, ◌*◌, ◌/◌, ◌%◌, Bool, true, false, not, ◌||◌, ◌&&◌, Option, some, none,
  ltb, leb, ◌==◌, if◌then◌else◌,
}
use emlib.Prelude.Int.{ℤ, pos, negsuc, neg, sub_ℕ}
use emlib.Time.{TimeVal}

abbrev pub word32 : ℕ
word32 = 4294967296

abbrev pub word64 : ℕ
word64 = 18446744073709551616

abbrev pub half64 : ℕ
half64 = 9223372036854775808

-- `em_cmp_timestamp`, `em_add_timestamp`, `em_add_timestamp32`, `em_sub_timestamp` and `em_sub_timestamp32`
abbrev pub cmp_timestamp : ℕ → ℕ → ℤ
cmp_timestamp t1 t2 = if ltb t1 t2 then negsuc 0 else if ltb t2 t1 then pos 1 else pos 0

abbrev pub add_timestamp : ℕ → ℕ → ℕ
add_timestamp t1 t2 = (t1 + t2) % word64

abbrev pub sub_timestamp : ℕ → ℕ → ℕ
sub_timestamp t1 t2 = (t1 + word64 - t2) % word64

-- The same for a compiler without 64-bit integers, on two halves.
pub record Halves : Type 0 where
  pub hi : ℕ
  pub lo : ℕ

abbrev pub cmp_halves : Halves → Halves → ℤ
cmp_halves t1 t2 =
    if ltb t1.hi t2.hi || (t1.hi == t2.hi && ltb t1.lo t2.lo)
    then negsuc 0
    else if ltb t2.hi t1.hi || (t1.hi == t2.hi && ltb t2.lo t1.lo)
    then pos 1
    else pos 0

abbrev pub carried : (old : ℕ) → Halves → Halves
carried old t = if ltb t.lo old then record t { hi = (t.hi + 1) % word32 } else t

abbrev pub add_halves : Halves → Halves → Halves
add_halves t1 t2 =
    carried t1.lo (record { hi = (t1.hi + t2.hi) % word32; lo = (t1.lo + t2.lo) % word32 })

abbrev pub add32_halves : Halves → ℕ → Halves
add32_halves t1 t2 = carried t1.lo (record t1 { lo = (t1.lo + t2) % word32 })

abbrev pub borrowed : Bool → Halves → Halves
borrowed enough t = if enough then t else record t { hi = (t.hi + word32 - 1) % word32 }

abbrev pub sub_halves : Halves → Halves → Halves
sub_halves t1 t2 =
    borrowed (leb t2.lo t1.lo)
      (record { hi = (t1.hi + word32 - t2.hi) % word32; lo = (t1.lo + word32 - t2.lo) % word32 })

abbrev pub sub32_halves : Halves → ℕ → Halves
sub32_halves t1 t2 = borrowed (leb t2 t1.lo) (record t1 { lo = (t1.lo + word32 - t2) % word32 })

-- The conversions of C: to int64, to uint64 and uint32, and to int32.
abbrev pub as_int64 : ℕ → ℤ
as_int64 n = if ltb n half64 then pos n else neg (pos (word64 - n))

abbrev pub as_unsigned : ℕ → ℤ → ℕ
as_unsigned w (pos n) = n % w
as_unsigned w (negsuc n) = (w - 1 - n % w) % w

abbrev pub as_int32 : ℕ → ℤ
as_int32 n = if ltb n 2147483648 then pos n else neg (pos (word32 - n))

-- `em_timestamp_diff32`
abbrev pub timestamp_diff32 : ℕ → ℕ → ℤ
timestamp_diff32 t1 t2 = as_int32 (sub_timestamp t2 t1 % word32)

-- `em_get_timestamp` of a reading of the clock, and `em_get_timestamp_freq`
abbrev pub nsec_per_sec : ℕ
nsec_per_sec = 1000000000

abbrev pub get_timestamp : (tv_sec tv_nsec : ℕ) → ℕ
get_timestamp tv_sec tv_nsec = (tv_sec * nsec_per_sec + tv_nsec) % word64

abbrev pub timestamp_freq : ℕ
timestamp_freq = nsec_per_sec

-- `get_elapsed`
abbrev pub get_elapsed : (start stop : ℕ) → ℤ
get_elapsed start stop = as_int64 (sub_timestamp stop start)

-- A quotient of an int64, and the products: that with MSEC is signed, and those with USEC and NANOSEC are
-- of unsigned 64-bit numbers.
abbrev pub quotient : ℤ → ℕ → ℤ
quotient (pos n) k = pos (n / k)
quotient (negsuc n) k = neg (pos (suc n / k))

abbrev pub remainder : ℤ → ℕ → ℤ
remainder (pos n) k = pos (n % k)
remainder (negsuc n) k = neg (pos (suc n % k))

abbrev pub signed_product : ℤ → ℕ → Option ℤ
signed_product (pos n) k = if ltb (n * k) half64 then some (pos (n * k)) else none
signed_product (negsuc n) k = if leb (suc n * k) half64 then some (neg (pos (suc n * k))) else none

abbrev pub unsigned_product : ℤ → ℕ → ℤ
unsigned_product e k = as_int64 (as_unsigned word64 e * k % word64)

-- `elapsed_msec`, `elapsed_usec` and what `em_elapsed_nanosec` computes
abbrev pub divided_by : ℕ → Option ℤ → Option ℤ
divided_by freq none = none
divided_by freq (some e) = some (quotient e freq)

abbrev pub elapsed_msec : (start stop : ℕ) → Option ℤ
elapsed_msec start stop = divided_by timestamp_freq (signed_product (get_elapsed start stop) 1000)

abbrev pub elapsed_usec : (start stop : ℕ) → ℤ
elapsed_usec start stop =
    quotient (unsigned_product (get_elapsed start stop) 1000000) timestamp_freq

abbrev pub elapsed_nanosec : (start stop : ℕ) → ℕ
elapsed_nanosec start stop =
    as_unsigned word32
      (quotient (unsigned_product (get_elapsed start stop) nsec_per_sec) timestamp_freq)

-- `em_elapsed_usec`, `em_elapsed_msec` and `em_elapsed_msec64`, and `em_elapsed_cycle`
abbrev pub em_elapsed_usec : (start stop : ℕ) → ℕ
em_elapsed_usec start stop = as_unsigned word32 (elapsed_usec start stop)

abbrev pub in_word : ℕ → Option ℤ → Option ℕ
in_word w none = none
in_word w (some e) = some (as_unsigned w e)

abbrev pub em_elapsed_msec : (start stop : ℕ) → Option ℕ
em_elapsed_msec start stop = in_word word32 (elapsed_msec start stop)

abbrev pub em_elapsed_msec64 : (start stop : ℕ) → Option ℕ
em_elapsed_msec64 start stop = in_word word64 (elapsed_msec start stop)

abbrev pub elapsed_cycle : (start stop : ℕ) → ℕ
elapsed_cycle start stop = (stop % word32 + word32 - start % word32) % word32

-- `em_elapsed_time` and `em_gettickcount`
abbrev pub time_of : Option ℤ → Option TimeVal
time_of none = none
time_of (some e) = some (record { sec = quotient e 1000; msec = remainder e 1000 })

abbrev pub elapsed_time : (start stop : ℕ) → Option TimeVal
elapsed_time start stop = time_of (elapsed_msec start stop)

abbrev pub gettickcount : (tv_sec tv_nsec : ℕ) → Option TimeVal
gettickcount tv_sec tv_nsec = elapsed_time 0 (get_timestamp tv_sec tv_nsec)
