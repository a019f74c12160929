-- ===== src/Cstr/Stream.antt =====
-- What src/cbuf.c promises: a byte stream of bounded room. Bytes come out in the order in which
-- they went in; room that was used is not given back by reading.
use emlib.Prelude.{
  ℕ, ◌+◌, ◌-◌, ◌≤◌, ◌≡◌, ◌∙◌, ap, refl, sym, Option, none, some, List, [], ◌∷◌, ◌++◌, Bytes, arith,
  ltb, if◌then◌else◌, length, take, drop, splice, window-splice_at, Bool-cases, inl, inr, drop-take,
  drop-drop, take-take_of_le, length-take, length-drop, true,
}
use emlib.Cstr.{
  Cstr, Endian, Status, Reply, ReadReply, image16, image32, succ, nomem, overflow, put_data,
  get_data,
}
use emlib.Cstr.Calls.{
  put_blob, get_blob, put_int8, put_int16, put_int32, get_uint8, get_uint16, get_uint32,
}
use emlib.Cstr.Valid.{
  IsValid, grown, put_data-ok, put_data-nomem, grown-IsValid, get_data-ok, get_data-overflow,
}

-- The abstract stream: the bytes not yet read, and how many more will be taken.
pub record Stream : Type 0 where
  pub held : Bytes
  pub room : ℕ

pub spec_put : Stream → Bytes → Status × Stream
spec_put s bytes =
    if ltb s.room (length bytes)
    then (nomem, s)
    else (succ, record { held = s.held ++ bytes; room = s.room - length bytes })

pub spec_get : Stream → ℕ → Status × Option Bytes × Stream
spec_get s n =
    if ltb (length s.held) n
    then (overflow, none, s)
    else (succ, some (take n s.held), record s { held = drop n s.held })

abbrev pub view : Cstr → Bytes → Stream
view cs storage = record { held = take (cs.ulen - cs.rpos) (drop cs.rpos storage); room = cs.mlen }

-- A sequence of calls, and what each returns: cstr_put_blob and cstr_get_blob, and those of the numbers of
-- 8, 16 and 32 bits, on a machine with this byte order. cstr_put_str, which does not keep the object
-- valid, and cstr_get_str are not among them.
pub data Op : Type 0 where
  put : Bytes → Op
  get : ℕ → Op
  put_8 : ℕ → Op
  put_16 : Endian → ℕ → Op
  put_32 : Endian → ℕ → Op
  get_8 : Op
  get_16 : Op
  get_32 : Op

abbrev pub Answer : Type 0
Answer = Status × Option Bytes

answer : Answer → Option (List Answer) → Option (List Answer)
answer a none = none
answer a (some as') = some (a ∷ as')

after_put : (Option Cstr → Option (List Answer)) → Reply → Option (List Answer)
unfolding answer
after_put rest none = none
after_put rest (some (s, cs')) = answer (s, none) (rest cs')

after_get : (Option Cstr → Option (List Answer)) → ReadReply → Option (List Answer)
unfolding answer
after_get rest none = none
after_get rest (some (s, out, cs')) = answer (s, out) (rest cs')

-- The calls on the object of the code; `none` if one has undefined behaviour.
unfoldable pub run : Option Cstr → List Op → Option (List Answer)
unfolding after_put after_get
run cs [] = some []
run cs (put bytes ∷ ops) = after_put (λ c. run c ops) (put_blob cs bytes)
run cs (get n ∷ ops) = after_get (λ c. run c ops) (get_blob cs true n)
run cs (put_8 v ∷ ops) = after_put (λ c. run c ops) (put_int8 cs v)
run cs (put_16 e v ∷ ops) = after_put (λ c. run c ops) (put_int16 e cs v)
run cs (put_32 e v ∷ ops) = after_put (λ c. run c ops) (put_int32 e cs v)
run cs (get_8 ∷ ops) = after_get (λ c. run c ops) (get_uint8 cs)
run cs (get_16 ∷ ops) = after_get (λ c. run c ops) (get_uint16 cs)
run cs (get_32 ∷ ops) = after_get (λ c. run c ops) (get_uint32 cs)

-- The same calls on the abstract stream.
spec_after_put : (Stream → List Answer) → Status × Stream → List Answer
spec_after_put rest (st, s') = (st, none) ∷ rest s'

spec_after_get : (Stream → List Answer) → Status × Option Bytes × Stream → List Answer
spec_after_get rest (st, out, s') = (st, out) ∷ rest s'

pub spec_run : Stream → List Op → List Answer
unfolding spec_after_put spec_after_get
spec_run s [] = []
spec_run s (put bytes ∷ ops) = spec_after_put (λ t. spec_run t ops) (spec_put s bytes)
spec_run s (get n ∷ ops) = spec_after_get (λ t. spec_run t ops) (spec_get s n)
spec_run s (put_8 v ∷ ops) = spec_after_put (λ t. spec_run t ops) (spec_put s (v ∷ []))
spec_run s (put_16 e v ∷ ops) = spec_after_put (λ t. spec_run t ops) (spec_put s (image16 e v))
spec_run s (put_32 e v ∷ ops) = spec_after_put (λ t. spec_run t ops) (spec_put s (image32 e v))
spec_run s (get_8 ∷ ops) = spec_after_get (λ t. spec_run t ops) (spec_get s 1)
spec_run s (get_16 ∷ ops) = spec_after_get (λ t. spec_run t ops) (spec_get s 2)
spec_run s (get_32 ∷ ops) = spec_after_get (λ t. spec_run t ops) (spec_get s 4)

module _ {cs : Cstr} {storage : Bytes} (v : IsValid cs storage) where
  pub length-held : length (view cs storage).held ≡ cs.ulen - cs.rpos
  length-held = omega (
    arith,
    length-take (cs.ulen - cs.rpos) (drop cs.rpos storage),
    length-drop cs.rpos storage,
    v.sized,
  )

  pub held-grown :
      (bytes : Bytes)
      → length bytes ≤ cs.mlen
      → (view (grown cs storage bytes) (splice storage cs.ulen bytes)).held
        ≡ (view cs storage).held ++ bytes
  held-grown bytes h =
      window-splice_at storage cs.rpos (cs.ulen - cs.rpos) cs.ulen _ bytes (omega arith)
        (omega arith) (omega arith)

  pub held-read :
      (n : ℕ)
      → n ≤ cs.ulen - cs.rpos
      → take (cs.ulen - (cs.rpos + n)) (drop (cs.rpos + n) storage) ≡ drop n (view cs storage).held
  held-read n h =
      ap (λ m. take m (drop (cs.rpos + n) storage)) {x = cs.ulen - (cs.rpos + n)} {y = rest}
        (omega arith)
      ∙ (ap (take rest) (sym (drop-drop n cs.rpos storage))
          ∙ (sym (drop-take n rest (drop cs.rpos storage))
              ∙ ap (λ m. drop n (take m (drop cs.rpos storage))) {x = n + rest}
                  {y = cs.ulen - cs.rpos} (omega arith)))
    where
      rest : ℕ
      rest = cs.ulen - cs.rpos - n

  -- A put that returns leaves a valid object whose view is that of the abstract put.
  put-refines :
      (bytes : Bytes)
      → let (st, s') = spec_put (view cs storage) bytes in
        (cs' : Cstr) × (storage' : Bytes) × IsValid cs' storage'
        × (put_data cs bytes ≡ some (st, some cs'))
        × (view cs' storage' ≡ s')
  unfolding spec_put
  put-refines bytes = elim (Bool-cases (ltb cs.mlen (length bytes))) [
    | inl full ↦ rw full (cs, storage, v, put_data-nomem v bytes (ground arith), refl)
    | inr fits ↦ rw fits (
      grown cs storage bytes,
      splice storage cs.ulen bytes,
      grown-IsValid v bytes (ground arith),
      put_data-ok v bytes (ground arith),
      ground (arith, held-grown bytes),
    )
  ]

  get-refines :
      (n : ℕ)
      → let (st, out, s') = spec_get (view cs storage) n in
        (cs' : Cstr) × IsValid cs' storage
        × (get_data cs n ≡ some (st, out, some cs'))
        × (view cs' storage ≡ s')
  unfolding spec_get
  get-refines n = elim (Bool-cases (ltb (length (view cs storage).held) n)) [
    | inl short ↦ rw short (cs, v, get_data-overflow v n (ground (arith, length-held)), refl)
    | inr fits ↦ rw fits (
      record cs { rpos = cs.rpos + n },
      ground (arith, length-held),
      ground (
        arith,
        length-held,
        get_data-ok v n,
        take-take_of_le n (cs.ulen - cs.rpos) (drop cs.rpos storage),
      ),
      ground (arith, length-held, held-read n),
    )
  ]

-- One call, and then calls that refine those of the stream.
module _ (ops : List Op)
    (rest : (cs : Cstr) (storage : Bytes)
      → IsValid cs storage
      → run (some cs) ops ≡ some (spec_run (view cs storage) ops))
    {cs : Cstr} {storage : Bytes} (v : IsValid cs storage) where
  put_step :
      (bytes : Bytes)
      → after_put (λ c. run c ops) (put_data cs bytes)
        ≡ some (spec_after_put (λ s. spec_run s ops) (spec_put (view cs storage) bytes))
  unfolding answer after_put spec_after_put
  put_step bytes =
      let (cs', storage', v', e, w) = put-refines v bytes in rw e (rw (rest cs' storage' v', w))

  get_step :
      (n : ℕ)
      → after_get (λ c. run c ops) (get_data cs n)
        ≡ some (spec_after_get (λ s. spec_run s ops) (spec_get (view cs storage) n))
  unfolding answer after_get spec_after_get
  get_step n = let (cs', v', e, w) = get-refines v n in rw e (rw (rest cs' storage v', w))

-- Any sequence of puts and gets of blobs and of numbers of 8, 16 and 32 bits on a valid object is
-- defined and answers as the bounded byte stream of its unread bytes and its free room does, in
-- which a number stands as its bytes.
pub run_refines :
    (ops : List Op) {cs : Cstr} {storage : Bytes}
    → IsValid cs storage
    → run (some cs) ops ≡ some (spec_run (view cs storage) ops)
unfolding run spec_run put_blob get_blob put_int8 put_int16 put_int32 get_uint8 get_uint16
    get_uint32
run_refines [] v = refl
run_refines (put bytes ∷ ops) v = put_step ops (λ c s w. run_refines ops w) v bytes
run_refines (get n ∷ ops) v = get_step ops (λ c s w. run_refines ops w) v n
run_refines (put_8 n ∷ ops) v = put_step ops (λ c s w. run_refines ops w) v (n ∷ [])
run_refines (put_16 e n ∷ ops) v = put_step ops (λ c s w. run_refines ops w) v (image16 e n)
run_refines (put_32 e n ∷ ops) v = put_step ops (λ c s w. run_refines ops w) v (image32 e n)
run_refines (get_8 ∷ ops) v = get_step ops (λ c s w. run_refines ops w) v 1
run_refines (get_16 ∷ ops) v = get_step ops (λ c s w. run_refines ops w) v 2
run_refines (get_32 ∷ ops) v = get_step ops (λ c s w. run_refines ops w) v 4
