-- ===== src/Str/Copy.antt =====
-- The copies of include/em/string_i.h into a target whose memory has the size that it states.
use emlib.Prelude.{
  ℕ, zero, suc, ◌+◌, ◌≤◌, ◌<◌, ◌⊎◌, ◌≡◌, refl, sym, ap, ◌∙◌, true, [], ◌∷◌, ◌++◌, Bytes, arith, ltb,
  leb, Bool-cases, inl, inr, length, take, length-take, take-nil, length-splice, mem_write, splice,
  window-splice_at, if◌then◌else◌,
}
use emlib.Str.{Str, content, Copied, refused, done, after_write, strcpy, strncpy, strcat}

-- The memory holds blen bytes and the string is in it.
pub record IsValid (s : Str) : Type 0 where
  pub memory : length s.mem ≡ s.blen
  pub inside : s.slen ≤ s.blen

-- A copy that leaves a valid target with these bytes.
pub record Leaves (dst : Str) (bytes : Bytes) (r : Copied) : Type 0 where
  pub target : Str
  pub result : r ≡ done target
  pub valid : IsValid target
  pub bytes_in : content target ≡ bytes
  pub same_size : target.blen ≡ dst.blen

-- Writing src behind the first `off` bytes.
written_at :
    (dst : Str) (off n : ℕ) (src : Bytes)
    → IsValid dst
    → n ≡ off + length src
    → n ≤ dst.blen
    → Leaves dst (take off dst.mem ++ src) (after_write dst n (mem_write dst.mem off src))
unfolding mem_write
written_at dst off n src v e fits =
    let inside : leb (off + length src) (length dst.mem) ≡ true = ground (arith, v.memory) in
    let bound : off + length src ≤ length dst.mem = omega (arith, v.memory) in
    rw inside record {
      target = record dst { mem = splice dst.mem off src; slen = n };
      result = refl;
      valid = record { memory = length-splice dst.mem off src bound ∙ v.memory; inside = fits };
      bytes_in = window-splice_at dst.mem 0 off off n src (omega arith) e bound;
      same_size = refl;
    }

-- The number of bytes that em_strncpy copies.
abbrev pub copied : Bytes → ℕ → ℕ
copied src max = if ltb (length src) max then length src else max

take-copied : (src : Bytes) (max : ℕ) → take (copied src max) src ≡ take max src
take-copied src zero = let none_of : copied src 0 ≡ 0 = ground arith in rw none_of refl
take-copied [] (suc max) = take-nil (copied [] (suc max))
take-copied (c ∷ src) (suc max) =
    let less : copied (c ∷ src) (suc max) ≡ suc (copied src max) = ground arith in
    rw less (ap (λ l. c ∷ l) (take-copied src max))

length-copied : (src : Bytes) (max : ℕ) → copied src max ≡ length (take (copied src max) src)
length-copied src max =
    let small : copied src max ≤ length src = ground arith in
    omega (arith, length-take (copied src max) src, small)

-- A copy that needs n bytes leaves the target with these bytes, or refuses if blen is less.
abbrev pub Fits : Str → ℕ → Bytes → Copied → Type 0
Fits dst n bytes r = ((n ≤ dst.blen) × Leaves dst bytes r) ⊎ ((dst.blen < n) × (r ≡ refused))

copy_cases :
    (dst : Str) (off n : ℕ) (src bytes : Bytes)
    → IsValid dst
    → n ≡ off + length src
    → take off dst.mem ++ src ≡ bytes
    → Fits dst n bytes
        (if ltb dst.blen n then refused else after_write dst n (mem_write dst.mem off src))
copy_cases dst off n src bytes v e same = elim (Bool-cases (ltb dst.blen n)) [
  | inl long ↦ rw long (inr (ground arith, refl))
  | inr fits ↦
      rw fits (inl (ground arith, rw (sym same) (written_at dst off n src v e (ground arith))))
]

-- On a target whose memory has blen bytes: em_strcpy leaves the source in it, em_strncpy the first max
-- bytes of the source, and em_strcat the old content and then the source, if the result has at most
-- blen bytes; and each of the three refuses, and does not touch the target, if the result has more.
pub copies_lem :
    (dst : Str) (src : Bytes) (max : ℕ)
    → IsValid dst
    → Fits dst (length src) src (strcpy dst src)
      × Fits dst (copied src max) (take max src) (strncpy dst src max)
      × Fits dst (dst.slen + length src) (content dst ++ src) (strcat dst src)
copies_lem dst src max v = (
  copy_cases dst 0 (length src) src src v (omega arith) refl,
  copy_cases dst 0 (copied src max) (take (copied src max) src) (take max src) v
      (length-copied src max ∙ omega arith) (take-copied src max),
  copy_cases dst dst.slen (dst.slen + length src) src (content dst ++ src) v refl refl,
)
