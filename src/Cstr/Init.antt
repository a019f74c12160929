-- ===== src/Cstr/Init.antt =====
-- The initialisers of src/cbuf.c.
use emlib.Prelude.{
  ℕ, ◌^◌, ◌<◌, ◌≡◌, ◌∙◌, sym, refl, none, some, [], Bytes, true, false, arith, length, splice,
  mem_write, replicate, length-replicate, length-splice,
}
use emlib.Cstr.{Cstr, succ, nomem, init_heap, init_stack, fresh}
use emlib.Cstr.Valid.{IsValid}
use emlib.Cstr.Stream.{view}

abbrev zeroed : Bytes → ℕ → Bytes
zeroed buff n = splice buff 0 (replicate n 0)

pub init_heap-ok :
    (cs : Cstr) (n : ℕ)
    → 0 < n
    → init_heap true (some cs) n ≡ some (succ, some (fresh (replicate n 0) n))
unfolding init_heap
init_heap-ok cs n h = ground arith

pub init_stack-ok :
    (cs : Cstr) (buff : Bytes) (n : ℕ)
    → 0 < n
    → n ≡ length buff
    → init_stack (some cs) (some buff) n ≡ some (succ, some (fresh (zeroed buff n) n))
unfolding init_stack mem_write
init_stack-ok cs buff n h e = ground (arith, length-replicate {A = ℕ} n 0)

fresh-IsValid :
    (storage : Bytes) (n : ℕ) → length storage ≡ n → n < 2 ^ 32 → IsValid (fresh storage n) storage
fresh-IsValid storage n e small = record {
  owned = refl;
  sized = e;
  small = small;
  filled = omega arith;
  behind = omega arith;
}

-- With memory at hand, both initialisers leave a valid object that holds nothing and has room for
-- all of its n bytes; without, `cstr_init_heap` reports CSTR_ERR_NOMEM and leaves a NULL buffer.
pub init-IsValid :
    (cs : Cstr) (buff : Bytes) (n : ℕ)
    → 0 < n
    → n < 2 ^ 32
    → n ≡ length buff
    → (heap : Bytes) × (stack : Bytes) × (init_heap true (some cs) n
        ≡ some (succ, some (fresh heap n)))
      × (init_stack (some cs) (some buff) n ≡ some (succ, some (fresh stack n)))
      × IsValid (fresh heap n) heap
      × IsValid (fresh stack n) stack
      × (view (fresh heap n) heap ≡ record { held = []; room = n })
      × (view (fresh stack n) stack ≡ record { held = []; room = n })
      × (init_heap false (some cs) n ≡ some (nomem, some (record cs { buff = none })))
unfolding init_heap
init-IsValid cs buff n pos small e = (
  replicate n 0,
  zeroed buff n,
  init_heap-ok cs n pos,
  init_stack-ok cs buff n pos e,
  fresh-IsValid (replicate n 0) n (length-replicate n 0) small,
  fresh-IsValid (zeroed buff n) n
      (length-splice buff 0 (replicate n 0) (omega (arith, length-replicate {A = ℕ} n 0)) ∙ sym e)
      small,
  refl,
  refl,
  ground arith,
)
