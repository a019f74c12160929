-- ===== src/StrNum/Reverse.antt =====
-- The last loop of em_utoa_pad in src/string.c turns a piece of the buffer round.
use emlib.Prelude.{
  ℕ, zero, suc, ◌+◌, ◌-◌, ◌≤◌, ◌<◌, ◌≡◌, ◌∙◌, true, false, ltb, leb, ◌&&◌, if◌then◌else◌, arith,
  Bool-cases, inl, inr,
}
use emlib.StrNum.{swap_at, swap_ends}

-- The piece from lo to hi the other way round, and the rest.
abbrev pub turned : (ℕ → ℕ) → ℕ → ℕ → ℕ → ℕ
turned buf lo hi i = if leb lo i && leb i hi then buf (lo + hi - i) else buf i

swap_short :
    (buf : ℕ → ℕ) (lo hi i : ℕ)
    → lo ≤ hi
    → ltb (lo + 1) (hi - 1) ≡ false
    → swap_at buf lo hi i ≡ turned buf lo hi i
swap_short buf lo hi i le stop = ground arith

swap_long :
    (buf : ℕ → ℕ) (lo hi i : ℕ)
    → lo ≤ hi
    → ltb (lo + 1) (hi - 1) ≡ true
    → turned (swap_at buf lo hi) (lo + 1) (hi - 1) i ≡ turned buf lo hi i
swap_long buf lo hi i le more = ground arith

pub swap_ends-turned :
    (fuel : ℕ) (buf : ℕ → ℕ) (lo hi i : ℕ)
    → lo ≤ hi
    → hi < lo + fuel
    → swap_ends fuel buf lo hi i ≡ turned buf lo hi i
unfolding swap_ends
swap_ends-turned zero buf lo hi i le enough = absurd (omega arith)
swap_ends-turned (suc fuel) buf lo hi i le enough = elim (Bool-cases (ltb (lo + 1) (hi - 1))) [
  | inl more ↦ rw more (
      swap_ends-turned fuel (swap_at buf lo hi) (lo + 1) (hi - 1) i (ground arith) (ground arith)
      ∙ swap_long buf lo hi i le more)
  | inr stop ↦ rw stop (swap_short buf lo hi i le stop)
]
