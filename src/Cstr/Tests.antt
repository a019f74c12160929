-- ===== src/Cstr/Tests.antt =====
-- src/cbuf.c on concrete buffers, and the theorems at inputs that meet their hypotheses.
use emlib.Prelude.{◌≡◌, refl, none, some, List, [], ◌∷◌, Bytes, arith, mem_write, mem_read}
use emlib.Cstr.{Cstr, little, image16, succ, nomem, overflow, put_data, get_data}
use emlib.Cstr.Calls.{put_blob, put_int8, put_int16, get_blob, get_uint8, get_uint16}
use emlib.Cstr.Valid.{IsValid}
use emlib.Cstr.Stream.{Op, put, get, put_8, put_16, get_8, get_16, run, spec_run, view, run_refines}

abbrev storage : Bytes
storage = 7 ∷ 8 ∷ 9 ∷ 0 ∷ 0 ∷ 0 ∷ []

-- Three bytes were written and one of them was read.
abbrev used : Cstr
used = record { buff = some storage; alen = 6; ulen = 3; mlen = 3; rpos = 1 }

abbrev drained : Cstr
drained = record { buff = some storage; alen = 6; ulen = 1; mlen = 5; rpos = 1 }

used-IsValid : IsValid used storage
used-IsValid = ground arith

drained-IsValid : IsValid drained storage
drained-IsValid = ground arith

abbrev script : List Op
script =
    put (1 ∷ 2 ∷ [])
    ∷ get 3
    ∷ get 2
    ∷ put (3 ∷ 4 ∷ [])
    ∷ put_8 5
    ∷ get_8
    ∷ get_16
    ∷ put_16 little 9
    ∷ []

script_answers :
    run (some used) script
    ≡ some (
        (succ, none)
        ∷ (succ, some (8 ∷ 9 ∷ 1 ∷ []))
        ∷ (overflow, none)
        ∷ (nomem, none)
        ∷ (succ, none)
        ∷ (succ, some (2 ∷ []))
        ∷ (overflow, none)
        ∷ (nomem, none)
        ∷ [])
unfolding run put_blob put_int8 put_int16 put_data mem_write get_blob get_uint8 get_uint16 get_data
    mem_read image16
script_answers = refl

run_refines_example : run (some used) script ≡ some (spec_run (view used storage) script)
run_refines_example = run_refines script used-IsValid
