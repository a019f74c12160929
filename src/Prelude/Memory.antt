-- ===== src/Prelude/Memory.antt =====
-- A C buffer as the list of its bytes, and the copying functions of the C library on it. `none`
-- stands for undefined behaviour: an access outside the buffer.
use Prim.Native.Nat.{ℕ, zero, suc, ◌+◌, ◌≤◌}
use mathlib.Core.Path.{◌≡◌, refl, ap, ◌∙◌}
use mathlib.Core.Option.{Option, none, some}
use mathlib.Core.List.{List, [], ◌∷◌, ◌++◌}
use native.Mathlib.Omega.{arith}
use mathlib.Core.Logic.{inl, inr}
use emlib.Prelude.Tests.{leb, ◌==◌, if◌then◌else◌, Bool-cases}
use emlib.Prelude.Lists.{
  length, take, drop, replicate, length-append, length-take, length-drop, drop-append_of_le,
  drop-take, take-append_add, take-append_self, length-replicate,
}

abbrev pub Bytes : Type 0
Bytes = List ℕ

-- A write to an array that is a function of its index.
abbrev pub put_at {ℓ} : {A : Type ℓ} → (ℕ → A) → ℕ → A → ℕ → A
put_at f i v j = if i == j then v else f j

-- The n elements of an array from k on.
abbrev pub elements {ℓ} : {A : Type ℓ} → (ℕ → A) → ℕ → ℕ → List A
elements f k zero = []
elements f k (suc n) = f k ∷ elements f (k + 1) n

-- The buffer with `src` written over the bytes from `off` on.
abbrev pub splice : Bytes → ℕ → Bytes → Bytes
splice buf off src = take off buf ++ (src ++ drop (off + length src) buf)

-- memcpy(buf + off, src, length of src)
unfoldable pub mem_write : Bytes → ℕ → Bytes → Option Bytes
mem_write buf off src =
    if leb (off + length src) (length buf) then some (splice buf off src) else none

-- memcpy(dst, buf + off, n): the bytes read.
unfoldable pub mem_read : Bytes → ℕ → ℕ → Option Bytes
mem_read buf off n = if leb (off + n) (length buf) then some (take n (drop off buf)) else none

-- The n bytes that strncpy(dst, src, n) writes: up to the terminator, then zeros. It reads `src`
-- no further than the terminator or n bytes.
unfoldable pub strncpy_bytes : Bytes → ℕ → Option Bytes
strncpy_bytes src zero = some []
strncpy_bytes [] (suc n) = none
strncpy_bytes (c ∷ src) (suc n) =
    if c == 0
    then some (replicate (suc n) 0)
    else elim (strncpy_bytes src n) [ none ↦ none | some r ↦ some (c ∷ r) ]

pub length-splice :
    (buf : Bytes) (off : ℕ) (src : Bytes)
    → off + length src ≤ length buf
    → length (splice buf off src) ≡ length buf
length-splice buf off src h = omega (
  arith,
  length-append (take off buf) (src ++ drop (off + length src) buf),
  length-append src (drop (off + length src) buf),
  length-take off buf,
  length-drop (off + length src) buf,
)

-- The window from `r` to the end of what was written is the old window and then `src`.
pub window-splice :
    (buf : Bytes) (r k : ℕ) (src : Bytes)
    → (r + k) + length src ≤ length buf
    → take (k + length src) (drop r (splice buf (r + k) src)) ≡ take k (drop r buf) ++ src
window-splice buf r k src h =
    let rest = src ++ drop ((r + k) + length src) buf in
    let long : r ≤ length (take (r + k) buf) = omega (arith, length-take (r + k) buf) in
    let size : k ≡ length (take k (drop r buf)) =
      omega (arith, length-take k (drop r buf), length-drop r buf) in
    ap (take (k + length src))
      (drop-append_of_le (take (r + k) buf) rest r long ∙ ap (λ l. l ++ rest) (drop-take r k buf))
    ∙ (take-append_add (take k (drop r buf)) rest (k + length src) (length src) (omega arith)
        ∙ ap (λ l. take k (drop r buf) ++ l) (take-append_self src _ (length src) refl))

length_cons_option :
    (c n : ℕ) (o : Option Bytes) {r : Bytes}
    → ((t : Bytes) → o ≡ some t → length t ≡ n)
    → elim o [ none ↦ none | some t ↦ some (c ∷ t) ] ≡ some r
    → length r ≡ suc n
length_cons_option c n none ih h = ground arith
length_cons_option c n (some t) ih h = ground (arith, ih t refl)

pub window-splice_at :
    (buf : Bytes) (r k off m : ℕ) (src : Bytes)
    → off ≡ r + k
    → m ≡ k + length src
    → off + length src ≤ length buf
    → take m (drop r (splice buf off src)) ≡ take k (drop r buf) ++ src
window-splice_at buf r k off m src e e' h = rw (e, e') (window-splice buf r k src (omega arith))

pub length-strncpy_bytes :
    (src : Bytes) (n : ℕ) {r : Bytes} → strncpy_bytes src n ≡ some r → length r ≡ n
unfolding strncpy_bytes
length-strncpy_bytes src zero h = ground arith
length-strncpy_bytes [] (suc n) h = ground arith
length-strncpy_bytes (c ∷ src) (suc n) {r} h = elim (Bool-cases (c == 0)) [
  | inl end ↦ ground (arith, length-replicate {A = ℕ} n 0)
  | inr more ↦
      length_cons_option c n (strncpy_bytes src n) (λ t e. length-strncpy_bytes src n e)
        (rw more at h)
]

-- strncpy is defined if the source holds n bytes.
pub strncpy_bytes_total :
    (src : Bytes) (n : ℕ) → n ≤ length src → (r : Bytes) × (strncpy_bytes src n ≡ some r)
unfolding strncpy_bytes
strncpy_bytes_total src zero h = ([], refl)
strncpy_bytes_total [] (suc n) h = absurd (omega arith)
strncpy_bytes_total (c ∷ src) (suc n) h =
    let (r, e) = strncpy_bytes_total src n (omega arith) in
    (if c == 0 then replicate (suc n) 0 else c ∷ r, ground arith)
