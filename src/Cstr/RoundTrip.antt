-- ===== src/Cstr/RoundTrip.antt =====
-- Integers written by src/cbuf.c are read back unchanged.
use emlib.Prelude.{
  ℕ, ◌+◌, ◌≤◌, ◌≡◌, ◌∙◌, ap, sym, ◌^◌, ◌<◌, some, Bytes, arith, length, window-splice_at,
}
use emlib.Cstr.{Cstr, succ, put_data, get_data, Endian, image16, image32}
use emlib.Cstr.Calls.{
  put_int16, put_int32, get_uint16, get_uint32, value, value-image16, value-image32, length-image16,
  length-image32,
}
use emlib.Cstr.Valid.{IsValid, grown, put_data-ok, grown-IsValid, get_data-ok}

-- Bytes put into an object with nothing unread come back.
get-put :
    {cs : Cstr} {storage : Bytes} (bytes : Bytes) (n : ℕ)
    → n ≡ length bytes
    → IsValid cs storage
    → cs.rpos ≡ cs.ulen
    → n ≤ cs.mlen
    → (cs' : Cstr) × (cs'' : Cstr) × (put_data cs bytes ≡ some (succ, some cs'))
      × (get_data cs' n ≡ some (succ, some bytes, some cs''))
get-put {cs} {storage} bytes n e v drained fits = (
  grown cs storage bytes,
  record (grown cs storage bytes) { rpos = cs.rpos + n },
  put_data-ok v bytes (omega arith),
  get_data-ok (grown-IsValid v bytes (omega arith)) n (omega arith)
      ∙ ap
          (λ out.
            some (succ, some out, some (record (grown cs storage bytes) { rpos = cs.rpos + n })))
          (window-splice_at storage cs.rpos 0 cs.ulen n bytes (omega arith) (omega arith)
            (omega arith)),
)

-- A 16-bit and a 32-bit integer put into an object with nothing unread are got back unchanged, on
-- hosts of either byte order.
pub get_uint-put_int :
    (e : Endian) (x y : ℕ) {cs : Cstr} {storage : Bytes}
    → IsValid cs storage
    → cs.rpos ≡ cs.ulen
    → 4 ≤ cs.mlen
    → x < 2 ^ 16
    → y < 2 ^ 32
    → ((cs' : Cstr) × (cs'' : Cstr) × (bytes : Bytes) × (put_int16 e (some cs) x
          ≡ some (succ, some cs'))
        × (get_uint16 (some cs') ≡ some (succ, some bytes, some cs''))
        × (value e bytes ≡ x))
      × ((cs' : Cstr) × (cs'' : Cstr) × (bytes : Bytes) × (put_int32 e (some cs) y
            ≡ some (succ, some cs'))
          × (get_uint32 (some cs') ≡ some (succ, some bytes, some cs''))
          × (value e bytes ≡ y))
unfolding put_int16 put_int32 get_uint16 get_uint32
get_uint-put_int e x y v drained room hx hy =
    let (a, a', p, q) =
      get-put (image16 e x) 2 (sym (length-image16 e x)) v drained (omega arith) in
    let (b, b', r, s) =
      get-put (image32 e y) 4 (sym (length-image32 e y)) v drained (omega arith) in
    (
      (a, a', image16 e x, p, q, value-image16 e x hx),
      (b, b', image32 e y, r, s, value-image32 e y hy),
    )
