-- ===== src/Cstr/Calls.antt =====
-- The typed calls of src/cbuf.c: integers, blobs and strings put into a buffer and read back. An
-- integer is its bit pattern, so the signed and the unsigned readers of a width agree.
use emlib.Prelude.{
  ℕ, ◌+◌, ◌%◌, ◌^◌, Option, none, some, [], ◌∷◌, Bytes, Bool, true, false, ltb, if◌then◌else◌,
  mem_write, mem_read, strncpy_bytes, ◌*◌, ◌≡◌, ◌<◌, refl, arith, length,
}
use emlib.Cstr.{
  Cstr, Endian, succ, einval, nomem, overflow, Reply, ReadReply, guard_put, guard_get, put_data,
  get_data, unread, image16, image32, little, big,
}

-- `cstr_put_int8`, `cstr_put_int16`, `cstr_put_int32` and `cstr_put_blob`
unfoldable pub put_int8 : Option Cstr → ℕ → Reply
put_int8 cs v = guard_put cs λ c. put_data c (v ∷ [])

unfoldable pub put_int16 : Endian → Option Cstr → ℕ → Reply
put_int16 e cs v = guard_put cs λ c. put_data c (image16 e v)

unfoldable pub put_int32 : Endian → Option Cstr → ℕ → Reply
put_int32 e cs v = guard_put cs λ c. put_data c (image32 e v)

unfoldable pub put_blob : Option Cstr → Bytes → Reply
put_blob cs bytes = guard_put cs λ c. put_data c bytes

-- The bytes that `strncpy` copies go behind the used ones. `mlen` is not brought up to date.
write_str : Option Bytes → Cstr → ℕ → Option Bytes → Reply
write_str none cs n copied = none
write_str (some b) cs n none = none
write_str (some b) cs n (some bytes) = elim (mem_write b cs.ulen bytes) [
  | none ↦ none
  | some b' ↦ some (succ, some (record cs { buff = some b'; ulen = (cs.ulen + n) % 2 ^ 32 }))
]

-- `cstr_put_str`; `str` holds the bytes that may be read, `none` for NULL.
unfoldable pub put_str : Option Cstr → Option Bytes → ℕ → Reply
unfolding write_str
put_str none str n = some (einval, none)
put_str (some cs) none n = some (einval, some cs)
put_str (some cs) (some str) n =
    if ltb cs.mlen n then some (nomem, some cs) else write_str cs.buff cs n (strncpy_bytes str n)

-- `cstr_get_int8`, `cstr_get_uint8`, then 16 and 32 bits: the bytes that `data` receives.
pub get_int8 : Option Cstr → ReadReply
get_int8 cs = guard_get cs λ c. get_data c 1

unfoldable pub get_uint8 : Option Cstr → ReadReply
get_uint8 cs = guard_get cs λ c. get_data c 1

pub get_int16 : Option Cstr → ReadReply
get_int16 cs = guard_get cs λ c. get_data c 2

unfoldable pub get_uint16 : Option Cstr → ReadReply
get_uint16 cs = guard_get cs λ c. get_data c 2

pub get_int32 : Option Cstr → ReadReply
get_int32 cs = guard_get cs λ c. get_data c 4

unfoldable pub get_uint32 : Option Cstr → ReadReply
get_uint32 cs = guard_get cs λ c. get_data c 4

-- `cstr_get_blob`; `dst` says whether the destination pointer is not NULL.
unfoldable pub get_blob : Option Cstr → Bool → ℕ → ReadReply
get_blob none dst n = some (einval, none, none)
get_blob (some cs) false n = some (einval, none, some cs)
get_blob (some cs) true n = get_data cs n

-- `cstr_get_str`
read_str : Option Bytes → Cstr → ℕ → ReadReply
read_str none cs n = none
read_str (some b) cs n = elim (mem_read b cs.rpos n) [
  | none ↦ none
  | some window ↦ elim (strncpy_bytes window n) [
    | none ↦ none
    | some out ↦ some (succ, some out, some (record cs { rpos = (cs.rpos + n) % 2 ^ 32 }))
  ]
]

unfoldable pub get_str : Option Cstr → Bool → ℕ → ReadReply
unfolding read_str
get_str none dst n = some (einval, none, none)
get_str (some cs) false n = some (einval, none, some cs)
get_str (some cs) true n =
    if ltb (unread cs) n then some (overflow, none, some cs) else read_str cs.buff cs n

-- The integer whose image in memory the bytes are.
from_little : Bytes → ℕ
from_little [] = 0
from_little (b ∷ bytes) = b + 2 ^ 8 * from_little bytes

from_big : ℕ → Bytes → ℕ
from_big acc [] = acc
from_big acc (b ∷ bytes) = from_big (acc * 2 ^ 8 + b) bytes

pub value : Endian → Bytes → ℕ
unfolding from_little from_big
value little bytes = from_little bytes
value big bytes = from_big 0 bytes

pub value-image16 : (e : Endian) (v : ℕ) → v < 2 ^ 16 → value e (image16 e v) ≡ v
unfolding value image16
value-image16 little v h = omega arith
value-image16 big v h = omega arith

pub value-image32 : (e : Endian) (v : ℕ) → v < 2 ^ 32 → value e (image32 e v) ≡ v
unfolding value image32
value-image32 little v h = omega arith
value-image32 big v h = omega arith

pub length-image16 : (e : Endian) (v : ℕ) → length (image16 e v) ≡ 2
unfolding image16
length-image16 little v = refl
length-image16 big v = refl

pub length-image32 : (e : Endian) (v : ℕ) → length (image32 e v) ≡ 4
unfolding image32
length-image32 little v = refl
length-image32 big v = refl
