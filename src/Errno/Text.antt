-- ===== src/Errno/Text.antt =====
-- The buffers of src/errno.c and of platform_strerror in src/os_error_unix.c: `size` bytes, less than
-- 2 ^ 31, that are the start of `mem`. How the C library's %d prints a number and what its strerror
-- returns, NULL too, are the record CTexts; the functions that applications register are `answer`,
-- by their address. none is a write outside of the memory.
use emlib.Prelude.{
  ℕ, ◌-◌, Option, none, some, ◌||◌, List, [], ◌∷◌, ◌++◌, Bytes, ltb, leb, ◌==◌, if◌then◌else◌,
  length, take, mem_write,
}
use emlib.Prelude.Int.{ℤ, pos, pos_part, ◌-ℤ◌}
use emlib.Errno.{
  Handler, Printer, success, unknown, emlib_text, platform_text, handler_text, strerror,
  errno_start_sys,
}
use emlib.Errno.Table.{
  success_text, unknown_error_text, unknown_emlib_error_text, common_errors, other_errors,
}

pub record CTexts : Type 0 where
  pub decimal : ℤ → Bytes
  pub os_strerror : ℤ → Option Bytes

abbrev pub unknown_error : CTexts → ℤ → Bytes
unknown_error t code = unknown_error_text ++ t.decimal code

abbrev pub unknown_emlib_error : CTexts → ℤ → Bytes
unknown_emlib_error t code = unknown_emlib_error_text ++ t.decimal code

-- `err_str`
unfoldable pub err_str : List (ℕ × Bytes)
err_str = common_errors ++ other_errors

-- The memory and the length that a function returns.
abbrev pub Written : Type 0
Written = Option Bytes × ℕ

-- snprintf of a text: it cuts the text and returns the whole length.
abbrev pub snprintf : Bytes → ℕ → Bytes → Written
snprintf mem size text = (mem_write mem 0 (take (size - 1) text ++ (0 ∷ [])), length text)

-- The copies of `emlib_error` and `platform_strerror`
abbrev pub copied : Bytes → ℕ → Bytes → Written
copied mem size text =
    let len = if leb size (length text) then size - 1 else length text in
    (mem_write mem 0 (take len text ++ (0 ∷ [])), len)

-- `emlib_error`
abbrev pub lookup : List (ℕ × Bytes) → ℕ → Option Bytes
lookup [] code = none
lookup (e ∷ es) code = let rest = lookup es code in if e.0 == code then some e.1 else rest

abbrev pub not_cut : ℕ → Written → Written
not_cut size (m, len) = (m, if ltb len 1 || leb size len then size - 1 else len)

abbrev pub emlib_message : CTexts → ℕ → Bytes → ℕ → Option Bytes → Written
emlib_message t code mem size none =
    not_cut size (snprintf mem size (unknown_emlib_error t (pos code)))
emlib_message t code mem size (some msg) = copied mem size msg

abbrev pub emlib_error : CTexts → ℕ → Bytes → ℕ → Written
emlib_error t code mem size = emlib_message t code mem size (lookup err_str code)

-- `platform_strerror`, whose text may be a null pointer
abbrev pub text_or_empty : Option Bytes → Bytes
text_or_empty none = []
text_or_empty (some s) = s

abbrev pub platform_strerror : CTexts → ℤ → Bytes → ℕ → Written
platform_strerror t os_code mem size = copied mem size (text_or_empty (t.os_strerror os_code))

-- The end of `em_strerror`
abbrev pub terminated : ℕ → Option Bytes → Written
terminated at none = (none, at)
terminated at (some m) = (mem_write m at (0 ∷ []), at)

unfoldable pub finish : ℕ → Written → Written
finish size (m, len) = if ltb len 1 || leb size len then terminated (size - 1) m else (m, len)

abbrev pub Answer : Type 0
Answer = ℕ → ℤ → Bytes → ℕ → Written

-- `em_strerror`, whose code is not negative where it asks the table or the system
abbrev pub print : CTexts → Answer → ℤ → Bytes → ℕ → Printer → Written
print t answer code mem size success = finish size (snprintf mem size success_text)
print t answer code mem size unknown = finish size (snprintf mem size (unknown_error t code))
print t answer code mem size emlib_text = finish size (emlib_error t (pos_part code) mem size)
print t answer code mem size platform_text =
    finish size (platform_strerror t (code -ℤ pos errno_start_sys) mem size)
print t answer code mem size (handler_text f) = answer f code mem size

unfoldable pub em_strerror : CTexts → Answer → List Handler → ℤ → Bytes → ℕ → Written
em_strerror t answer hs code mem size = print t answer code mem size (strerror hs code)
