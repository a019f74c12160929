-- ===== src/Atomic.antt =====
-- The atomic variables of src/os_core_unix.c. Each operation takes the mutex of the variable, reads and writes
-- its value, and releases the mutex; a step is one of these, by one of any number of threads, in any
-- order. A mutex is taken only while no thread has it, as POSIX says of pthread_mutex_lock. A `long` is an
-- integer without bounds here.
pub mod Serial
mod Tests
use emlib.Prelude.{
  ℕ, zero, suc, ◌≡◌, Bool, true, false, Option, some, none, List, [], ◌∷◌, ◌==◌, if◌then◌else◌,
}
use emlib.Prelude.Int.{ℤ, pos, negsuc, ◌+ℤ◌}

-- `em_atomic_set`, `em_atomic_get` and `em_atomic_add_and_get`, of which em_atomic_inc_and_get, em_atomic_dec_and_get,
-- em_atomic_inc, em_atomic_dec and em_atomic_add are cases.
pub data AtomicOp : Type 0 where
  set_to : ℤ → AtomicOp
  get_value : AtomicOp
  add_and_get : ℤ → AtomicOp

abbrev pub inc_and_get : AtomicOp
inc_and_get = add_and_get (pos 1)

abbrev pub dec_and_get : AtomicOp
dec_and_get = add_and_get (negsuc 0)

-- The value that an operation leaves, which is also the one it returns, if it returns one.
abbrev pub value_after : AtomicOp → ℤ → ℤ
value_after (set_to v) old = v
value_after get_value old = old
value_after (add_and_get v) old = old +ℤ v

-- Where a thread stands in an operation: at no one, in front of the mutex, with the mutex, with the old
-- value, and with the new value written.
pub data At : Type 0 where
  outside : At
  waiting : AtomicOp → At
  holding : AtomicOp → At
  has_read : AtomicOp → ℤ → At
  has_written : AtomicOp → ℤ → At

-- `em_atomic_t`, the thread that has its mutex, and where the threads stand. The operations whose value was
-- written, the last first, are a record of the past that the code does not have.
pub record System : Type 0 where
  pub value : ℤ
  pub owner : Option ℕ
  pub at : ℕ → At
  pub past : List (AtomicOp × ℤ)

abbrev pub moved : (ℕ → At) → ℕ → At → ℕ → At
moved at i a j = if i == j then a else at j

-- `em_atomic_create`
abbrev pub create : ℤ → System
create initial = record { value = initial; owner = none; at = λ i. outside; past = [] }

abbrev pub call : ℕ → AtomicOp → System → System
call i op s = record s { at = moved s.at i (waiting op) }

abbrev pub lock_mutex : ℕ → AtomicOp → System → System
lock_mutex i op s = record s { owner = some i; at = moved s.at i (holding op) }

abbrev pub read : ℕ → AtomicOp → System → System
read i op s = record s { at = moved s.at i (has_read op s.value) }

abbrev pub write : ℕ → AtomicOp → ℤ → System → System
write i op old s = record s {
  value = value_after op old;
  at = moved s.at i (has_written op (value_after op old));
  past = (op, value_after op old) ∷ s.past;
}

abbrev pub unlock : ℕ → System → System
unlock i s = record s { owner = none; at = moved s.at i outside }

pub data Step (s : System) : System → Type 0 where
  calls : (i : ℕ) (op : AtomicOp) → s.at i ≡ outside → Step s (call i op s)
  locks :
      (i : ℕ) (op : AtomicOp) → s.at i ≡ waiting op → s.owner ≡ none → Step s (lock_mutex i op s)
  reads : (i : ℕ) (op : AtomicOp) → s.at i ≡ holding op → Step s (read i op s)
  writes : (i : ℕ) (op : AtomicOp) (old : ℤ) → s.at i ≡ has_read op old → Step s (write i op old s)
  unlocks : (i : ℕ) (op : AtomicOp) (new : ℤ) → s.at i ≡ has_written op new → Step s (unlock i s)

pub data Reach (initial : ℤ) : System → Type 0 where
  created : Reach initial (create initial)
  later : {s t : System} → Reach initial s → Step s t → Reach initial t
