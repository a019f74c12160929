-- ===== src/Lifetime.antt =====
-- The start and the end of the library: em_init, em_atexit and em_shutdown of src/os_core_unix.c, with the part
-- of em_init that is compiled. What the set-up of the threads and of the critical section returns is an
-- argument. So is what each registered function does to the names of exceptions, as exception_cleanup of
-- src/except.c does; the rest of the state they leave alone, and they register no functions.
pub mod Session
mod Tests
use emlib.Prelude.{
  ℕ, zero, suc, ◌+◌, Bool, true, false, not, Option, some, none, List, [], ◌∷◌, ◌++◌, leb, ◌==◌,
  if◌then◌else◌, length, get_elem?,
}
use emlib.Prelude.Int.{ℤ, pos, negsuc, ◌+ℤ◌, ◌-ℤ◌, eq_ℤ}
use emlib.Errno.{Handler}
use emlib.Except.{exception_id_free}

-- `initialized`, `atexit_func` up to `atexit_count`, EM_NO_MEMORY_EXCEPTION with -1 as `none`, and the
-- tables of src/except.c and src/errno.c.
pub record Library : Type 0 where
  pub initialized : ℤ
  pub atexit_func : List ℕ
  pub no_memory_exception : Option ℕ
  pub exception_names : ℕ → Option ℕ
  pub err_msg_hnd : List Handler

-- The size of `atexit_func`
abbrev pub max_atexit : ℕ
max_atexit = 32

abbrev pub is_initialized : Library → Bool
is_initialized l = not (eq_ℤ l.initialized (pos 0))

-- `em_init`: the status, with 0 as EM_SUCC
abbrev pub init : (thread_rc mutex_rc : ℕ) → Library → ℕ × Library
init thread_rc mutex_rc l =
    let counted : Library = record l { initialized = l.initialized +ℤ pos 1 } in
    if is_initialized l
    then (0, counted)
    else if not (thread_rc == 0)
    then (thread_rc, l)
    else if not (mutex_rc == 0)
    then (mutex_rc, l)
    else (0, counted)

-- `em_atexit`: whether there was room
abbrev pub atexit : ℕ → Library → Bool × Library
atexit func l =
    if leb max_atexit (length l.atexit_func)
    then (false, l)
    else (true, record l { atexit_func = l.atexit_func ++ (func ∷ []) })

-- The loop of `em_shutdown`: the functions below an index, from the last one on, in the order of the calls.
abbrev pub cons_some : Option ℕ → List ℕ → List ℕ
cons_some none fs = fs
cons_some (some f) fs = f ∷ fs

unfoldable pub called_from : List ℕ → ℕ → List ℕ
called_from fs zero = []
called_from fs (suc i) = cons_some (get_elem? fs i) (called_from fs i)

abbrev pub freed : Option ℕ → (ℕ → Option ℕ) → ℕ → Option ℕ
freed none names = names
freed (some id) names = (exception_id_free names id).1

-- What a function that is registered does to the exception names, by its address.
abbrev pub Effects : Type 0
Effects = ℕ → (ℕ → Option ℕ) → ℕ → Option ℕ

-- `exception_cleanup` of src/except.c on the names
abbrev pub exception_cleanup : (ℕ → Option ℕ) → ℕ → Option ℕ
exception_cleanup names id = none

-- The names after these calls.
abbrev pub names_after : Effects → List ℕ → (ℕ → Option ℕ) → ℕ → Option ℕ
names_after act [] names = names
names_after act (f ∷ fs) names = names_after act fs (act f names)

-- `em_shutdown`, with the calls that it makes
abbrev pub shutdown : Effects → Library → Library × List ℕ
shutdown act l =
    let calls = called_from l.atexit_func (length l.atexit_func) in
    let less : Library = record l { initialized = l.initialized -ℤ pos 1 } in
    if is_initialized less then (less, []) else (
      record less {
        atexit_func = [];
        no_memory_exception = none;
        exception_names = freed l.no_memory_exception (names_after act calls l.exception_names);
        err_msg_hnd = [];
      },
      calls,
    )

-- What a program calls, when the set-ups succeed.
pub data Call : Type 0 where
  init_call : Call
  atexit_call : ℕ → Call
  shutdown_call : Call

abbrev pub run_call : Effects → Call → Library → Library × List ℕ
run_call act init_call l = ((init 0 0 l).1, [])
run_call act (atexit_call func) l = ((atexit func l).1, [])
run_call act shutdown_call l = shutdown act l

abbrev pub after : Library × List ℕ → Library × List ℕ → Library × List ℕ
after first last = (last.0, first.1 ++ last.1)

unfoldable pub run : Effects → List Call → Library → Library × List ℕ
run act [] l = (l, [])
run act (c ∷ cs) l = after (run_call act c l) (run act cs (run_call act c l).0)
