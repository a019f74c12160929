-- ===== src/Utils/Bcd.antt =====
-- asc2bcd of src/utils.c reads what bcd2asc writes.
use emlib.Prelude.{
  ℕ, zero, suc, ◌+◌, ◌*◌, ◌/◌, ◌%◌, ◌≤◌, ◌<◌, ◌≡◌, refl, ap, ◌∙◌, Option, none, some, Bool, true,
  false, ◌&&◌, [], ◌∷◌, Bytes, arith, leb, ltb, ◌==◌, if◌then◌else◌, get_elem?, length, All,
  Bool-cases, inl, inr,
}
use Prim.Native.Nat.{bit_or}
use emlib.Utils.{
  Letters, Lookup, out_of_table, no_digit, bcd2ascii, lookup, digit, asc2bcd_from, asc2bcd,
  bcd2asc_from, bcd2asc,
}

pub record IsAscii (ct : Letters) : Type 0 where
  pub upper : (c : ℕ) → ct.isupper c ≡ leb 65 c && leb c 90
  pub lower : (c : ℕ) → ct.islower c ≡ leb 97 c && leb c 122
  pub digit : (c : ℕ) → ct.isdigit c ≡ leb 48 c && leb c 57

-- A test of the numbers below k.
abbrev all_below : ℕ → (ℕ → Bool) → Bool
all_below zero f = true
all_below (suc k) f = f k && all_below k f

all_below_lem : (k : ℕ) (f : ℕ → Bool) (i : ℕ) → all_below k f ≡ true → i < k → f i ≡ true
all_below_lem zero f i h l = absurd (omega arith)
all_below_lem (suc k) f i h l = elim (Bool-cases (i == k)) [
  | inl e ↦ let here : i ≡ k = ground arith in rw here (ground arith)
  | inr ne ↦ all_below_lem k f i (ground arith) (ground arith)
]

-- The halves of a byte do not overlap.
or_halves : (a b : ℕ) → a < 16 → b < 16 → bit_or (a * 16 % 256) b ≡ a * 16 + b
or_halves a b ha hb =
    let row =
      all_below_lem 16 (λ x. all_below 16 (λ y. bit_or (x * 16 % 256) y == x * 16 + y)) a refl ha in
    let cell = all_below_lem 16 (λ y. bit_or (a * 16 % 256) y == a * 16 + y) b row hb in
    ground arith

-- The character of a digit.
abbrev character : ℕ → ℕ
character v = if ltb v 10 then v + 48 else v + 87

abbrev is_at : Option ℕ → ℕ → Bool
is_at none n = false
is_at (some m) n = m == n

is_at_eq : (o : Option ℕ) (n : ℕ) → is_at o n ≡ true → o ≡ some n
is_at_eq none n h = absurd (ground arith)
is_at_eq (some m) n h = ap some (ground arith)

bcd2ascii_lem : (v : ℕ) → v < 16 → get_elem? bcd2ascii v ≡ some (character v)
bcd2ascii_lem v h =
    is_at_eq (get_elem? bcd2ascii v) (character v)
      (all_below_lem 16 (λ x. is_at (get_elem? bcd2ascii x) (character x)) v refl h)

-- The character tests of ASCII.
abbrev pub ascii : Letters
ascii = record {
  isupper = λ c. leb 65 c && leb c 90;
  islower = λ c. leb 97 c && leb c 122;
  isdigit = λ c. leb 48 c && leb c 57;
}

abbrev is_digit : Lookup → ℕ → Bool
is_digit out_of_table n = false
is_digit no_digit n = false
is_digit (digit m) n = m == n

is_digit_eq : (l : Lookup) (n : ℕ) → is_digit l n ≡ true → l ≡ digit n
is_digit_eq out_of_table n h = absurd (ground arith)
is_digit_eq no_digit n h = absurd (ground arith)
is_digit_eq (digit m) n h = ap digit (ground arith)

lookup-ascii : (ct : Letters) (c : ℕ) → IsAscii ct → lookup ct c ≡ lookup ascii c
lookup-ascii ct c a = rw (a.upper c, a.lower c, a.digit c) refl

lookup-character : (ct : Letters) (v : ℕ) → IsAscii ct → v < 16 → lookup ct (character v) ≡ digit v
lookup-character ct v a h =
    lookup-ascii ct (character v) a
    ∙ is_digit_eq (lookup ascii (character v)) v
        (all_below_lem 16 (λ x. is_digit (lookup ascii (character x)) x) v refl h)

-- The characters of bytes.
abbrev pub characters : Bytes → Bytes
characters [] = []
characters (c ∷ cs) = character (c / 16) ∷ character (c % 16) ∷ characters cs

abbrev pub IsByte : ℕ → Type 0
IsByte c = c < 256

bcd2asc_from-characters :
    (cs : Bytes) → All IsByte cs → bcd2asc_from (length cs) cs ≡ some (characters cs)
unfolding bcd2asc_from
bcd2asc_from-characters [] b = refl
bcd2asc_from-characters (c ∷ cs) b =
    rw
      (
        bcd2ascii_lem (c / 16) (omega (arith, b.0)),
        bcd2ascii_lem (c % 16) (omega arith),
        bcd2asc_from-characters cs b.1,
      )
      refl

asc2bcd_from-characters :
    (ct : Letters) (c0 : ℕ) (cs : Bytes)
    → IsAscii ct
    → All IsByte cs
    → asc2bcd_from ct c0 (length cs) (characters cs) ≡ some cs
unfolding asc2bcd_from
asc2bcd_from-characters ct c0 [] a b = refl
asc2bcd_from-characters ct c0 (c ∷ cs) a b =
    let hi : c / 16 < 16 = omega (arith, b.0) in
    let whole : c / 16 * 16 + c % 16 ≡ c = omega arith in
    let both = or_halves (c / 16) (c % 16) hi (omega arith) ∙ whole in
    rw
      (
        lookup-character ct (c / 16) a hi,
        lookup-character ct (c % 16) a (omega arith),
        asc2bcd_from-characters ct (bit_or (c / 16 * 16 % 256) (c % 16)) cs a b.1,
      )
      (ap (λ x. some (x ∷ cs)) both)

-- For at most 255 bytes, bcd2asc gives two characters for each, and asc2bcd of those characters, with
-- their number as the length, gives the bytes back.
pub asc2bcd-bcd2asc :
    (ct : Letters) (bcd : Bytes)
    → IsAscii ct
    → All IsByte bcd
    → length bcd ≤ 255
    → (bcd2asc bcd (length bcd) ≡ some (characters bcd))
      × (asc2bcd ct (characters bcd) (2 * length bcd) ≡ some bcd)
unfolding bcd2asc asc2bcd
asc2bcd-bcd2asc ct bcd a b h =
    let fits : leb (length bcd) 255 ≡ true = ground arith in
    let half : 2 * length bcd / 2 ≡ length bcd = omega arith in
    (
      rw fits (bcd2asc_from-characters bcd b),
      rw (half, fits) (asc2bcd_from-characters ct 0 bcd a b),
    )
