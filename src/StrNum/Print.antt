-- ===== src/StrNum/Print.antt =====
-- em_utoa_pad of src/string.c prints the decimal digits, and em_strtoul reads them back.
use emlib.Prelude.{
  ℕ, zero, suc, ◌+◌, ◌-◌, ◌*◌, ◌/◌, ◌%◌, ◌≤◌, ◌<◌, ◌≡◌, refl, sym, ap, ◌∙◌, subst, true, false, ltb,
  arith, put_at, elements, Bool-cases, inl, inr,
}
use native.Mathlib.Decide.{ℕ_discrete}
use emlib.StrNum.{Ctype, word, put_digits, put_padding, swap_ends, utoa_pad, strtoul, strtoul_from}
use emlib.StrNum.Digits.{IsAscii, without, without-le, digit_at, pow10}
use emlib.StrNum.Reverse.{turned, swap_ends-turned}

-- The buffer holds the last n digits of a number, the last one first.
abbrev pub HasDigits : ℕ → ℕ → (ℕ → ℕ) → Type 0
HasDigits val n buf = (i : ℕ) → i < n → buf i ≡ digit_at val i

without-add_one : (val k : ℕ) → without val (k + 1) ≡ without val k / 10
without-add_one val k = ap (without val) {x = k + 1} {y = suc k} (omega arith)

put_digit-HasDigits :
    (val v k : ℕ) (buf : ℕ → ℕ)
    → HasDigits val k buf
    → v ≡ without val k
    → HasDigits val (k + 1) (put_at buf k (v % 10 + 48))
put_digit-HasDigits val v k buf h e i lt = elim (ℕ_discrete k i) [
  | yes same ↦ rw (← same, e) (ground arith)
  | no other ↦ ground (arith, h i)
]

-- What the first loop leaves: all digits of the number, and nothing of it is left to print.
abbrev Printed : ℕ → ℕ → (ℕ → ℕ) × ℕ → Type 0
Printed val k r = HasDigits val r.1 r.0 × (without val r.1 ≡ 0) × (k < r.1)

Printed-later : (val k : ℕ) (r : (ℕ → ℕ) × ℕ) → Printed val (k + 1) r → Printed val k r
Printed-later val k r p = (p.0, p.1, omega (arith, p.2))

no_more : (v : ℕ) → v < 10 → ltb 0 (v / 10) ≡ false
no_more v h = ground arith

put_digits-Printed :
    (fuel val v k : ℕ) (buf : ℕ → ℕ)
    → HasDigits val k buf
    → v ≡ without val k
    → v < pow10 (suc fuel)
    → Printed val k (put_digits (suc fuel) v buf k)
unfolding put_digits
put_digits-Printed zero val v k buf h e small =
    rw (no_more v small)
      (put_digit-HasDigits val v k buf h e, ground (arith, without-add_one val k), omega arith)
put_digits-Printed (suc fuel) val v k buf h e small = elim (Bool-cases (ltb 0 (v / 10))) [
  | inr stop ↦
      rw stop
        (put_digit-HasDigits val v k buf h e, ground (arith, without-add_one val k), omega arith)
  | inl more ↦ rw more (
      Printed-later val k (put_digits (suc fuel) (v / 10) (put_at buf k (v % 10 + 48)) (k + 1)) (
        put_digits-Printed fuel val (v / 10) (k + 1) (put_at buf k (v % 10 + 48))
          (put_digit-HasDigits val v k buf h e) (omega (arith, without-add_one val k))
          (omega arith)))
]

-- Padding with zeros keeps the digits of the number.
put_padding-HasDigits :
    (n val p q : ℕ) (buf : ℕ → ℕ)
    → q ≡ p + n
    → HasDigits val p buf
    → without val p ≡ 0
    → HasDigits val q (put_padding n 48 buf p).0
      × (without val q ≡ 0)
      × ((put_padding n 48 buf p).1 ≡ q)
unfolding put_padding
put_padding-HasDigits zero val p q buf e h done =
    let same : q ≡ p = omega arith in (λ i lt. h i (omega arith), rw same done, sym same)
put_padding-HasDigits (suc n) val p q buf e h done =
    put_padding-HasDigits n val (p + 1) q (put_at buf p 48) (omega arith)
      (subst (λ d. HasDigits val (p + 1) (put_at buf p d)) {x = without val p % 10 + 48} {y = 48}
        (omega arith) (put_digit-HasDigits val (without val p) p buf h refl))
      (omega (arith, without-add_one val p))

-- The buffer holds the last n digits of a number from k on, the first one first.
abbrev pub Reads : ℕ → ℕ → ℕ → (ℕ → ℕ) → Type 0
Reads val k n buf = (p j : ℕ) → k ≤ p → suc (p + j) ≡ k + n → buf p ≡ digit_at val j

read_digit :
    (ct : Ctype) (val n c : ℕ)
    → IsAscii ct
    → val < word
    → c ≡ digit_at val n
    → (ct.isdigit c ≡ true) × ((without val (suc n) * 10 + c + word - 48) % word ≡ without val n)
read_digit ct val n c a small e = (a.digit c ∙ ground arith, omega (arith, without-le val n))

-- The loop of em_strtoul over the digits rebuilds the number.
strtoul-Reads :
    (ct : Ctype) (val n k : ℕ) (buf : ℕ → ℕ)
    → IsAscii ct
    → val < word
    → Reads val k n buf
    → strtoul_from ct (without val n) (elements buf k n) ≡ val
unfolding strtoul_from
strtoul-Reads ct val zero k buf a small h = refl
strtoul-Reads ct val (suc n) k buf a small h =
    let (digit, value) = read_digit ct val n (buf k) a small (h k n (omega arith) (omega arith)) in
    rw (digit, value)
      (strtoul-Reads ct val n (k + 1) buf a small (λ p j le e. h p j (omega arith) (omega arith)))

-- Turned round, the digits read from the first.
turned-Reads :
    (val n : ℕ) (buf : ℕ → ℕ) → HasDigits val n buf → Reads val 0 n (turned buf 0 (n - 1))
turned-Reads val n buf h p j le e =
    let same : turned buf 0 (n - 1) p ≡ buf j =
      ground (arith, ap buf {x = 0 + (n - 1) - p} {y = j} (omega arith)) in
    same ∙ h j (omega arith)

-- The end of em_utoa_pad: the terminator, and the digits turned round.
finish_text :
    (ct : Ctype) (val p : ℕ) (text : ℕ → ℕ)
    → IsAscii ct
    → val < word
    → HasDigits val p text
    → without val p ≡ 0
    → 0 < p
    → let r = swap_ends p (put_at text p 0) 0 (p - 1) in
      (strtoul ct (elements r 0 p) ≡ val) × (r p ≡ 0)
finish_text ct val p text a small h done some_digit =
    let buf = put_at text p 0 in
    let r = swap_ends p buf 0 (p - 1) in
    let at : (i : ℕ) → r i ≡ turned buf 0 (p - 1) i =
      λ i. swap_ends-turned p buf 0 (p - 1) i (omega arith) (omega arith) in
    (
      subst (λ v. strtoul_from ct v (elements r 0 p) ≡ val) done
          (strtoul-Reads ct val p 0 r a small
            (λ q j le e. at q ∙ turned-Reads val p buf (λ i lt. ground (arith, h i)) q j le e)),
      at p ∙ ground arith,
    )

-- em_utoa_pad of a number of 64 bits, with zeros for padding, to whatever width, writes text that
-- em_strtoul reads as the number; the text is as long as is returned, at least as long as asked for,
-- and a zero follows it.
pub strtoul-utoa_pad :
    (ct : Ctype) (val min_dig : ℕ) (buf : ℕ → ℕ)
    → IsAscii ct
    → val < word
    → let r = utoa_pad val buf min_dig 48 in
      (strtoul ct (elements r.0 0 r.1) ≡ val) × (min_dig ≤ r.1) × (0 < r.1) × (r.0 r.1 ≡ 0)
unfolding utoa_pad
strtoul-utoa_pad ct val min_dig buf a small =
    let d = put_digits-Printed 19 val val 0 buf (λ i lt. absurd (omega arith)) refl (omega arith) in
    let len = (put_digits 20 val buf 0).1 in
    let digits = (put_digits 20 val buf 0).0 in
    let (h, done, size) =
      put_padding-HasDigits (min_dig - len) val len (len + (min_dig - len)) digits refl d.0 d.1 in
    let (text, p) = put_padding (min_dig - len) 48 digits len in
    let (value, end) =
      finish_text ct val p text a small (subst (λ q. HasDigits val q text) (sym size) h)
        (rw size done) (omega (arith, size, d.2)) in
    (value, omega (arith, size), omega (arith, size, d.2), end)
