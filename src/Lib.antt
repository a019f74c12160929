-- ===== src/Lib.antt =====
-- emlib, the C library of containers, memory pools, timers and wrappers of the operating system, as a
-- library of models and theorems. Every module translates one part of the C code; paths are from the
-- root of the repository.
--
--   Prelude    what the parts share: tests on numbers, lists with lengths, writes to and reads of
--              memory as a list of bytes, integers (Prelude/Int) and statements on all elements.
--   Cstr       src/cbuf.c and include/em/cstr.h, the byte buffer. A `Cstr` is the struct with the
--              storage it points to; `none` is a write outside of the storage. Cstr/Calls has the typed
--              puts and gets, Cstr/Stream the bounded byte stream that is the specification of those of
--              blobs and numbers.
--   Time       the comparison and arithmetic macros on em_time_val of include/em/types.h, and
--              em_time_val_normalize of src/os_time_common.c. The timer heap uses them. Time/Span has the
--              quotient of time values by equal spans.
--   Timer      src/timer.c and include/em/timer.h, the timer heap. `Timers` is em_timer_heap_t with the
--              memory of the entries, which are named by their addresses. Timer has the static
--              functions and Timer/Calls the public ones, em_timer_heap_poll with its callbacks among
--              them; a callback is a function on the whole state. Timer/Valid states the invariant that
--              joins the heap array, the table of timer ids and the free list in that table; a poll
--              holds ids back while callbacks run.
--   Pool       src/pool.c and include/em/pool_i.h, the memory pool, with blocks as intervals of
--              addresses, and memory from block_alloc as an argument.
--   PoolBuf    src/pool_buf.c, which makes such pools in a buffer of the caller.
--   CachingPool src/pool_caching.c with the default policy of src/pool_policy_malloc.c, the factory that
--              keeps released pools by size class. It uses Pool for the pools themselves, and its
--              module Reach has the sequences of creations, releases and allocations.
--   Event      the events of src/os_core_unix.c. A `System` is an event with the numbers of threads that
--              sleep and that were woken; `Step` is what one thread does while it holds the mutex.
--   Atomic     the atomic variables of src/os_core_unix.c, as steps of threads with the mutex of the variable.
--   Mutex      the mutexes of src/os_core_unix.c in a build with EM_DEBUG, on a native mutex that is a
--              parameter; `Step` is one call of a thread.
--   TimerTask  the functions on POSIX timers of src/os_core_unix.c, and in TimerTask/Calls those of
--              src/timer_task.c on top of them.
--   Timestamp  the time stamps of include/em/os.h, src/os_timestamp_common.c and src/os_timestamp_posix.c,
--              and in Timestamp/Sleep the sleeping functions of src/os_time_unix.c.
--   Lifetime   em_init, em_atexit and em_shutdown of src/os_core_unix.c. What a registered function does to
--              the exception names is an argument, exception_cleanup of src/except.c one such function.
--   StrNum     the number functions of src/string.c, em_strtoul to em_strtol2 and em_utoa_pad, with the
--              C library's isspace, isdigit and isxdigit as a record `Ctype`.
--   Str        the spans, tokens and trims of src/string.c and the comparisons and bounded copies of
--              include/em/string_i.h. A string that is read is the list of its bytes, the target of a
--              copy a record with its memory. Str/Search has em_strstr and em_stristr.
--   LinkedList include/em/list_i.h, the circular lists, on two arrays of links; IsRing of
--              LinkedList/Chain relates a head to the list of its nodes, LinkedList/Splice what links
--              several nodes in.
--   Utils      src/utils.c, the conversions of bytes to hexadecimal characters and back, and crc16.
--   SockAddr   src/sock_common.c, the accessors and the comparison of em_sockaddr, and the binding at a
--              random port.
--   AddrParse  printing and parsing of addresses in src/sock_common.c, src/sock_bsd.c and
--              src/addr_resolv_sock.c; AddrParse/Resolve has the way from a text to an address.
--   HostIp     em_gethostip and em_getipinterface of src/sock_common.c and the enumeration of interfaces in
--              src/ip_helper_generic.c; HostIp/Choice has the weights and the choice.
--   Errno      src/errno.c, the registry of functions that print error codes, and which of them
--              em_strerror asks; Errno/Text has the buffer that it leaves and Errno/Table its texts.
--   Except     src/except.c, the stack of exception handlers and the ids of exceptions.
--   GrpLock    the group lock of src/lock.c, with the levels at which the owning thread holds each lock, and in
--              GrpLock/Handlers its creation and its handlers. A call that drops the last reference answers
--              `released`, since the struct goes with its pool.
--   NestLock   src/nest_lock.c, the lock that one thread may take several times, with an int32 counter
--              that wraps. No code of the library makes one.
--
-- Bounds and fuel. A byte is a number below 256. Sizes and addresses of the pool are below 2 ^ 64, and
-- wrap there where the code adds them. The long and int values of times and timer ids are integers
-- without bounds. The loops of the timer heap take fuel: a sifting loop gets the number of slots,
-- which bounds its rounds, since each round doubles or halves the slot; a poll gets one more than its
-- limit of callbacks; the digits of em_utoa_pad get 20 rounds, which 64 bits need at most; a
-- walk along a list needs more rounds than the list has nodes; the loop that borrows seconds gets the
-- number of milliseconds.
--
-- The counts of the threads that wait for an event are numbers without bounds. A sleep ends with the
-- list of the answers of clock_nanosleep.
--
-- Parameters. What malloc and block_alloc return, the clock, and the callbacks of timers are
-- arguments of the definitions, and so are the answers of the calls on POSIX timers. Wakes of Event
-- says what a signal and a broadcast of a condition variable do. KeepsValid of Timer/Poll says what
-- is asked of callbacks, and IsMemory of Pool/Grow what is asked of memory from block_alloc.
-- IsMemcmp of Str/Compare says what is asked of memcmp, IsStrncmp of Str/Search what is asked of
-- strncmp and strncasecmp, IsRecursive of Mutex/Tracked what is asked of a recursive pthread mutex,
-- and IsAscii of StrNum/Digits and of Utils/Bcd that the character tests are those of ASCII. The
-- constants and byte orders of the system are the record Net of SockAddr, inet_aton and
-- gethostbyname the record Resolver of AddrParse/Resolve, and what else the choice of an address
-- asks of the system the record Host of HostIp, and IsDecimal of AddrParse/Printed says what
-- snprintf writes of a port. How numbers
-- are printed in error texts and what the C library's strerror returns are the record CTexts of
-- Errno/Text.
--
-- Assertions: the build is one with NASSERT, where a failed assertion is logged, and
-- EMLIB_ASSERT_RETURN returns its value. Only the mutexes are those of a debug build, where the
-- assertion in the unlock stops the program.
--
-- Not modelled: the strings that are allocated from a pool, the random string and em_strtof, which is
-- floating point; the comparison of alphanumeric strings four bytes at a time; the lock objects of
-- src/lock.c, which call a mutex, and the debug variants of the group lock; what other threads do to a
-- group lock; the wrappers of threads, read-write locks, semaphores, sockets and log output and the
-- locks made of pthread mutexes, whose behaviour is that of the operating system; the addresses that
-- getaddrinfo and the interfaces of other systems give.
pub mod Prelude
pub mod Cstr
pub mod Time
pub mod Timer
pub mod Pool
pub mod PoolBuf
pub mod CachingPool
pub mod LinkedList
pub mod Utils
pub mod SockAddr
pub mod AddrParse
pub mod HostIp
pub mod Lifetime
pub mod Timestamp
pub mod Event
pub mod Atomic
pub mod TimerTask
pub mod Errno
pub mod Except
pub mod GrpLock
pub mod Mutex
pub mod NestLock
pub mod StrNum
pub mod Str
