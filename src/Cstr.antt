-- ===== src/Cstr.antt =====
-- src/cbuf.c and include/em/cstr.h: a byte buffer that is filled at one end and read from the
-- other. Every function takes the pointer `cs` as an option (`none` is NULL) and answers `none`
-- where the C code has undefined behaviour, else the status, what goes out through a pointer
-- argument, and the object after the call. uint32 fields wrap at 2 ^ 32.
pub mod Calls
pub mod Valid
pub mod Stream
pub mod RoundTrip
pub mod Flaws
pub mod Init
mod Tests
use emlib.Prelude.{
  ℕ, ◌+◌, ◌-◌, ◌/◌, ◌%◌, ◌^◌, Option, none, some, [], ◌∷◌, Bytes, Bool, ◌==◌, ltb, if◌then◌else◌,
  length, replicate, mem_write, mem_read,
}

-- EM_SUCC, EM_EINVAL, CSTR_ERR_NOMEM and CSTR_ERR_OVERFLOW.
pub data Status : Type 0 where
  succ einval nomem overflow : Status

-- `cstr`; `buff` is `none` for NULL, and otherwise the bytes of the storage.
pub record Cstr : Type 0 where
  pub buff : Option Bytes
  pub alen : ℕ
  pub ulen : ℕ
  pub mlen : ℕ
  pub rpos : ℕ

-- The byte order of the host, on which the image of an integer in memory depends.
pub data Endian : Type 0 where
  little big : Endian

-- What a writing function yields: its status and the object after the call.
abbrev pub Reply : Type 0
Reply = Option (Status × Option Cstr)

-- The same for a reading function: the bytes copied to the caller come second (`none` where the
-- caller's variable is not touched).
abbrev pub ReadReply : Type 0
ReadReply = Option (Status × Option Bytes × Option Cstr)

-- return_val_if_fail(cs, EM_EINVAL)
abbrev pub guard_put : Option Cstr → (Cstr → Reply) → Reply
guard_put none body = some (einval, none)
guard_put (some cs) body = body cs

abbrev pub guard_get : Option Cstr → (Cstr → ReadReply) → ReadReply
guard_get none body = some (einval, none, none)
guard_get (some cs) body = body cs

-- The object that both initialisers leave.
abbrev pub fresh : Bytes → ℕ → Cstr
fresh storage len = record { buff = some storage; alen = len; ulen = 0; mlen = len; rpos = 0 }

-- `cstr_init_heap`: `memory` says whether `calloc` finds memory; if it does not, `buff` is NULL.
unfoldable pub init_heap : Bool → Option Cstr → ℕ → Reply
init_heap memory none buff_len = some (einval, none)
init_heap memory (some cs) buff_len =
    if buff_len == 0
    then some (einval, some cs)
    else if memory
    then some (succ, some (fresh (replicate buff_len 0) buff_len))
    else some (nomem, some (record cs { buff = none }))

-- `cstr_heap_free`
pub heap_free : Option Cstr → Reply
heap_free cs = guard_put cs λ c. some (succ, some (record c { buff = none }))

-- `cstr_init_stack`: memset is a write of zeros, which must fit the caller's storage.
unfoldable pub init_stack : Option Cstr → Option Bytes → ℕ → Reply
init_stack none buff buff_len = some (einval, none)
init_stack (some cs) none buff_len = some (einval, some cs)
init_stack (some cs) (some buff) buff_len =
    if buff_len == 0
    then some (einval, some cs)
    else elim (mem_write buff 0 (replicate buff_len 0)) [
      | none ↦ none
      | some b ↦ some (succ, some (fresh b buff_len))
    ]

-- `cstr_init_reset`
reset_in : Option Bytes → Cstr → Reply
reset_in none cs = none
reset_in (some b) cs = elim (mem_write b 0 (replicate cs.alen 0)) [
  | none ↦ none
  | some b' ↦ some (succ, some (record cs { buff = some b'; ulen = 0; mlen = 0; rpos = 0 }))
]

unfoldable pub init_reset : Option Cstr → Reply
unfolding reset_in
init_reset cs = guard_put cs λ c. reset_in c.buff c

-- `cstr_get_ulen`, `cstr_get_alen` and `cstr_get_mlen` return EM_EINVAL, 70004, for NULL.
pub get_ulen : Option Cstr → ℕ
get_ulen none = 70004
get_ulen (some cs) = cs.ulen

pub get_alen : Option Cstr → ℕ
get_alen none = 70004
get_alen (some cs) = cs.alen

pub get_mlen : Option Cstr → ℕ
get_mlen none = 70004
get_mlen (some cs) = cs.mlen

-- `_cstr_put_data`; `data_len` is the length of the bytes given.
put_in : Option Bytes → Cstr → Bytes → Reply
put_in none cs bytes = none
put_in (some b) cs bytes = elim (mem_write b cs.ulen bytes) [
  | none ↦ none
  | some b' ↦
      let ulen' : ℕ = (cs.ulen + length bytes) % 2 ^ 32 in
      let mlen' : ℕ = (cs.alen + 2 ^ 32 - ulen') % 2 ^ 32 in
      some (succ, some (record cs { buff = some b'; ulen = ulen'; mlen = mlen' }))
]

unfoldable pub put_data : Cstr → Bytes → Reply
unfolding put_in
put_data cs bytes =
    if ltb cs.mlen (length bytes) then some (nomem, some cs) else put_in cs.buff cs bytes

-- `cs->ulen - cs->rpos`
abbrev pub unread : Cstr → ℕ
unread cs = (cs.ulen + 2 ^ 32 - cs.rpos) % 2 ^ 32

-- `_cstr_get_data`
get_in : Option Bytes → Cstr → ℕ → ReadReply
get_in none cs n = none
get_in (some b) cs n = elim (mem_read b cs.rpos n) [
  | none ↦ none
  | some out ↦ some (succ, some out, some (record cs { rpos = (cs.rpos + n) % 2 ^ 32 }))
]

unfoldable pub get_data : Cstr → ℕ → ReadReply
unfolding get_in
get_data cs n = if ltb (unread cs) n then some (overflow, none, some cs) else get_in cs.buff cs n

-- The bytes of a 16-bit and of a 32-bit integer in memory, and the integer read back.
pub image16 : Endian → ℕ → Bytes
image16 little v = v % 2 ^ 8 ∷ v / 2 ^ 8 % 2 ^ 8 ∷ []
image16 big v = v / 2 ^ 8 % 2 ^ 8 ∷ v % 2 ^ 8 ∷ []

pub image32 : Endian → ℕ → Bytes
image32 little v = v % 2 ^ 8 ∷ v / 2 ^ 8 % 2 ^ 8 ∷ v / 2 ^ 16 % 2 ^ 8 ∷ v / 2 ^ 24 % 2 ^ 8 ∷ []
image32 big v = v / 2 ^ 24 % 2 ^ 8 ∷ v / 2 ^ 16 % 2 ^ 8 ∷ v / 2 ^ 8 % 2 ^ 8 ∷ v % 2 ^ 8 ∷ []
