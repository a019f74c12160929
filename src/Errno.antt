-- ===== src/Errno.antt =====
-- src/errno.c: the registry of the functions that print the error codes of applications. A function
-- is named by its address, with 0 for NULL; codes that are
-- registered are numbers, since lower ones are refused, and those that em_strerror is given are signed. The texts are in Errno/Text.
pub mod Lookup
pub mod Table
pub mod Text
pub mod Printed
pub mod Ranges
mod Tests
use emlib.Prelude.{
  ℕ, zero, suc, ◌+◌, ◌-◌, Option, none, some, Bool, true, false, not, ◌&&◌, ◌||◌, List, [], ◌∷◌,
  ◌++◌, ltb, leb, ◌==◌, if◌then◌else◌, length,
}
use emlib.Prelude.Int.{ℤ, pos, negsuc}

-- `struct err_msg_hnd`
pub record Handler : Type 0 where
  pub begin : ℕ
  pub end : ℕ
  pub strerror : ℕ

pub data RegisterStatus : Type 0 where
  succ : RegisterStatus
  einval : RegisterStatus
  etoomany : RegisterStatus
  eexists : RegisterStatus

abbrev pub max_err_msg_handler : ℕ
max_err_msg_handler = 10

abbrev pub errno_start : ℕ
errno_start = 20000

abbrev pub errno_space_size : ℕ
errno_space_size = 50000

-- EM_ERRNO_START_STATUS, EM_ERRNO_START_SYS and EM_ERRNO_START_USER
abbrev pub errno_start_status : ℕ
errno_start_status = errno_start + errno_space_size

abbrev pub errno_start_sys : ℕ
errno_start_sys = errno_start_status + errno_space_size

abbrev pub errno_start_user : ℕ
errno_start_user = errno_start_sys + errno_space_size

abbrev pub in_range : ℕ → ℕ → ℕ → Bool
in_range val start end = leb start val && ltb val end

-- The test of the loop of `em_register_strerror` on one handler.
abbrev pub covers : Handler → ℕ → ℕ → Bool
covers h start space = in_range start h.begin h.end || in_range (start + space - 1) h.begin h.end

-- The loop: the status it returns with, if it does.
abbrev pub check_handlers : List Handler → ℕ → ℕ → ℕ → Option RegisterStatus
check_handlers [] start space f = none
check_handlers (h ∷ hs) start space f =
    let rest = check_handlers hs start space f in
    if covers h start space
    then (if h.begin == start && h.end == start + space && h.strerror == f
        then some succ
        else some eexists)
    else rest

abbrev pub answer_or_add :
    List Handler → ℕ → ℕ → ℕ → Option RegisterStatus → RegisterStatus × List Handler
answer_or_add hs start space f (some status) = (status, hs)
answer_or_add hs start space f none =
    (succ, hs ++ ((record { begin = start; end = start + space; strerror = f }) ∷ []))

-- `em_register_strerror`: the status and the handlers after.
unfoldable pub register_strerror : List Handler → ℕ → ℕ → ℕ → RegisterStatus × List Handler
register_strerror hs start space f =
    if start == 0 || space == 0 || f == 0
    then (einval, hs)
    else if not (ltb (length hs) max_err_msg_handler)
    then (etoomany, hs)
    else if not (leb errno_start_user start)
    then (eexists, hs)
    else answer_or_add hs start space f (check_handlers hs start space f)

-- Which text `em_strerror` asks for.
pub data Printer : Type 0 where
  success : Printer
  unknown : Printer
  emlib_text : Printer
  platform_text : Printer
  handler_text : ℕ → Printer

-- The loop of `em_strerror` over the handlers.
abbrev pub find_handler : List Handler → ℕ → Printer
find_handler [] code = unknown
find_handler (h ∷ hs) code =
    let rest = find_handler hs code in
    if in_range code h.begin h.end then handler_text h.strerror else rest

-- The choice that `em_strerror` makes, for a signed code.
abbrev pub strerror_from_0 : List Handler → ℕ → Printer
strerror_from_0 hs code =
    if code == 0
    then success
    else if ltb code (errno_start + errno_space_size)
    then unknown
    else if ltb code (errno_start_status + errno_space_size)
    then emlib_text
    else if ltb code (errno_start_sys + errno_space_size)
    then platform_text
    else find_handler hs code

unfoldable pub strerror : List Handler → ℤ → Printer
strerror hs (pos code) = strerror_from_0 hs code
strerror hs (negsuc n) = unknown
