-- ===== src/Cstr/Valid.antt =====
-- The representation invariant of `cstr` (src/cbuf.c): the lengths describe the storage, so that
-- no access of a putting or reading call leaves it.
use emlib.Prelude.{
  ℕ, ◌+◌, ◌-◌, ◌^◌, ◌≤◌, ◌<◌, ◌≡◌, ◌∙◌, refl, none, some, Bytes, arith, length, take, drop,
  mem_write, mem_read, splice, length-splice,
}
use emlib.Cstr.{Cstr, succ, nomem, overflow, put_data, get_data, unread}

pub record IsValid (cs : Cstr) (storage : Bytes) : Type 0 where
  pub owned : cs.buff ≡ some storage
  pub sized : length storage ≡ cs.alen
  pub small : cs.alen < 2 ^ 32
  pub filled : cs.ulen + cs.mlen ≡ cs.alen
  pub behind : cs.rpos ≤ cs.ulen

-- The object after a write of `bytes` that fits.
abbrev pub grown : Cstr → Bytes → Bytes → Cstr
grown cs storage bytes = record cs {
  buff = some (splice storage cs.ulen bytes);
  ulen = cs.ulen + length bytes;
  mlen = cs.mlen - length bytes;
}

module _ {cs : Cstr} {storage : Bytes} (v : IsValid cs storage) where
  -- `cs->ulen - cs->rpos` does not wrap.
  pub unread_lem : unread cs ≡ cs.ulen - cs.rpos
  unread_lem = omega arith

  pub put_data-ok :
      (bytes : Bytes)
      → length bytes ≤ cs.mlen
      → put_data cs bytes ≡ some (succ, some (grown cs storage bytes))
  unfolding put_data mem_write
  put_data-ok bytes h = ground (arith, v.owned)

  pub put_data-nomem :
      (bytes : Bytes) → cs.mlen < length bytes → put_data cs bytes ≡ some (nomem, some cs)
  unfolding put_data
  put_data-nomem bytes h = ground arith

  pub grown-IsValid :
      (bytes : Bytes)
      → length bytes ≤ cs.mlen
      → IsValid (grown cs storage bytes) (splice storage cs.ulen bytes)
  grown-IsValid bytes h = record {
    owned = refl;
    sized = length-splice storage cs.ulen bytes (omega arith) ∙ v.sized;
    small = v.small;
    filled = omega arith;
    behind = omega arith;
  }

  pub get_data-ok :
      (n : ℕ)
      → n ≤ cs.ulen - cs.rpos
      → get_data cs n
        ≡ some (succ, some (take n (drop cs.rpos storage)), some (record cs { rpos = cs.rpos + n }))
  unfolding get_data mem_read
  get_data-ok n h = ground (arith, v.owned)

  pub get_data-overflow :
      (n : ℕ) → cs.ulen - cs.rpos < n → get_data cs n ≡ some (overflow, none, some cs)
  unfolding get_data
  get_data-overflow n h = ground arith
