-- ===== src/Except.antt =====
-- src/except.c: the stack of exception handlers of one thread, and the ids of exceptions, with
-- EM_HAS_EXCEPTION_NAMES set. setjmp and longjmp are the C library's: a throw is the handler that the
-- jump goes to, with the id.
pub mod Stack
pub mod Ids
mod Tests
use emlib.Prelude.{
  ℕ, zero, suc, ◌+◌, ◌-◌, Option, none, some, Bool, true, false, not, ◌&&◌, ltb, leb, ◌==◌,
  if◌then◌else◌,
}

-- The thread-local pointer to the innermost handler, and the field `prev` of the handlers.
pub record Handlers : Type 0 where
  pub current : Option ℕ
  pub prev : ℕ → Option ℕ

-- `em_push_exception_handler_`
unfoldable pub push_exception_handler : Handlers → ℕ → Handlers
push_exception_handler st handler = record {
  current = some handler;
  prev = λ h. if handler == h then st.current else st.prev h;
}

-- `em_pop_exception_handler_`
abbrev pub pop_if : Handlers → ℕ → Option ℕ → Handlers
pop_if st handler none = st
pop_if st handler (some h) = if h == handler then record st { current = st.prev h } else st

unfoldable pub pop_exception_handler : Handlers → ℕ → Handlers
pop_exception_handler st handler = pop_if st handler st.current

-- `em_throw_exception_`: `none` where no handler is set and the program crashes.
abbrev pub jump : Handlers → ℕ → Option ℕ → Option (ℕ × ℕ × Handlers)
jump st id none = none
jump st id (some h) = some (h, id, pop_if st h st.current)

unfoldable pub throw_exception : Handlers → ℕ → Option (ℕ × ℕ × Handlers)
throw_exception st id = jump st id st.current

-- The table of names of exceptions; `none` is NULL.
abbrev pub max_exception_id : ℕ
max_exception_id = 16

pub data ExceptionStatus : Type 0 where
  succ : ExceptionStatus
  einval : ExceptionStatus
  etoomany : ExceptionStatus

abbrev pub set_name : (ℕ → Option ℕ) → ℕ → Option ℕ → ℕ → Option ℕ
set_name names id name i = if id == i then name else names i

abbrev pub is_null : Option ℕ → Bool
is_null none = true
is_null (some _) = false

-- The loop of `em_exception_id_alloc` from i on; the fuel is the number of ids from i on.
abbrev pub alloc_from : ℕ → ℕ → (ℕ → Option ℕ) → ℕ → ExceptionStatus × Option ℕ × (ℕ → Option ℕ)
alloc_from zero i names name = (etoomany, none, names)
alloc_from (suc fuel) i names name =
    let rest = alloc_from fuel (i + 1) names name in
    if is_null (names i) then (succ, some i, set_name names i (some name)) else rest

unfoldable pub exception_id_alloc : (ℕ → Option ℕ) → ℕ → ExceptionStatus × Option ℕ × (ℕ → Option ℕ)
exception_id_alloc names name = alloc_from (max_exception_id - 1) 1 names name

unfoldable pub exception_id_free : (ℕ → Option ℕ) → ℕ → ExceptionStatus × (ℕ → Option ℕ)
exception_id_free names id =
    if not (ltb 0 id && ltb id max_exception_id)
    then (einval, names)
    else (succ, set_name names id none)
