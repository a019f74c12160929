-- ===== src/Cstr/Flaws.antt =====
-- Where src/cbuf.c does not keep its own bookkeeping.
use emlib.Prelude.{
  ℕ, ◌+◌, ◌≤◌, ◌<◌, ◌≡◌, refl, none, some, Bytes, arith, length, splice, strncpy_bytes,
  length-strncpy_bytes, strncpy_bytes_total, mem_write, replicate, length-replicate, length-splice,
}
use emlib.Cstr.{Cstr, succ, nomem, init_reset, put_data}
use emlib.Cstr.Calls.{put_str, put_blob}
use emlib.Cstr.Valid.{IsValid}

-- The object after `cstr_put_str` wrote `bytes`.
abbrev stale : Cstr → Bytes → Bytes → ℕ → Cstr
stale cs storage bytes n = record cs {
  buff = some (splice storage cs.ulen bytes);
  ulen = cs.ulen + n;
}

module _ {cs : Cstr} {storage : Bytes} (v : IsValid cs storage) (str : Bytes) (n : ℕ) where
  put_str-stale :
      (bytes : Bytes)
      → strncpy_bytes str n ≡ some bytes
      → n ≤ cs.mlen
      → put_str (some cs) (some str) n ≡ some (succ, some (stale cs storage bytes n))
  unfolding put_str mem_write
  put_str-stale bytes e h = rw (v.owned, e) (ground (arith, length-strncpy_bytes str n e))

  put_str-overrun :
      (bytes : Bytes)
      → strncpy_bytes str n ≡ some bytes
      → n ≤ cs.mlen
      → cs.mlen < n + n
      → put_str (some (stale cs storage bytes n)) (some str) n ≡ none
  unfolding put_str mem_write
  put_str-overrun bytes e h h2 = rw e (
      ground (
        arith,
        length-strncpy_bytes str n e,
        length-splice storage cs.ulen bytes,
        v.sized,
        v.filled,
      ))

-- A string put of n bytes that fits once but not twice: both calls pass the room check, since
-- `mlen` stays as it was, and the second writes behind the storage.
pub put_str_twice_overruns :
    {cs : Cstr} {storage : Bytes} (str : Bytes) (n : ℕ)
    → IsValid cs storage
    → n ≤ length str
    → n ≤ cs.mlen
    → cs.mlen < n + n
    → (cs' : Cstr) × (put_str (some cs) (some str) n ≡ some (succ, some cs'))
      × (cs'.mlen ≡ cs.mlen)
      × (put_str (some cs') (some str) n ≡ none)
put_str_twice_overruns {cs} {storage} str n v long fits twice =
    let (bytes, e) = strncpy_bytes_total str n long in
    (
      stale cs storage bytes n,
      put_str-stale v str n bytes e fits,
      refl,
      put_str-overrun v str n bytes e fits twice,
    )

-- After a reset the buffer is empty, and yet it takes no byte: `mlen` is set to 0, where the
-- initialisers set it to the length of the storage.
pub init_reset-refuses :
    {cs : Cstr} {storage : Bytes} (bytes : Bytes)
    → IsValid cs storage
    → 0 < length bytes
    → (cs' : Cstr) × (init_reset (some cs) ≡ some (succ, some cs'))
      × (cs'.alen ≡ cs.alen)
      × (cs'.ulen ≡ 0)
      × (put_blob (some cs') bytes ≡ some (nomem, some cs'))
unfolding init_reset put_blob put_data mem_write
init_reset-refuses {cs} {storage} bytes v h = (
  record cs { buff = some (splice storage 0 (replicate cs.alen 0)); ulen = 0; mlen = 0; rpos = 0 },
  rw v.owned (ground (arith, length-replicate {A = ℕ} cs.alen 0, v.sized)),
  refl,
  refl,
  ground arith,
)
