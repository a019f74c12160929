-- ===== src/Timer/Linked.antt =====
-- Heap array and table of ids of src/timer.c point at one another; `copy_node` keeps that.
use emlib.Prelude.{ℕ, ◌<◌, ◌≡◌, ◌≢◌, arith}
use emlib.Prelude.Int.{pos, pos_part, neg_part, eq_ℤ_iff}
use emlib.Timer.{Timers, tid, copy_node}

-- An entry that is in the heap has a positive id.
abbrev pub IsLive : Timers → ℕ → Type 0
IsLive ht e = 0 < pos_part (tid ht e)

-- Where the table of ids says that an entry stands.
abbrev pub slot_of : Timers → ℕ → ℕ
slot_of ht e = pos_part (ht.timer_ids (tid ht e))

-- Heap and table point at one another, at all slots below n but the gap, and for all live entries
-- but the moved one.
pub record Linked (ht : Timers) (n gap moved : ℕ) : Type 0 where
  pub located :
      (i : ℕ)
      → i < n
      → i ≢ gap
      → IsLive ht (ht.heap i) × (ht.heap i ≢ moved) × (ht.timer_ids (tid ht (ht.heap i)) ≡ pos i)
  pub placed :
      (e : ℕ)
      → IsLive ht e
      → e ≢ moved
      → (neg_part (ht.timer_ids (tid ht e)) ≡ 0)
        × (slot_of ht e < n)
        × (slot_of ht e ≢ gap)
        × (ht.heap (slot_of ht e) ≡ e)
  pub apart : (e : ℕ) → IsLive ht e → e ≢ moved → tid ht e ≢ tid ht moved

-- The same with the gap filled.
pub record AllLinked (ht : Timers) (n : ℕ) : Type 0 where
  pub located :
      (i : ℕ) → i < n → IsLive ht (ht.heap i) × (ht.timer_ids (tid ht (ht.heap i)) ≡ pos i)
  pub placed :
      (e : ℕ)
      → IsLive ht e
      → (neg_part (ht.timer_ids (tid ht e)) ≡ 0) × (slot_of ht e < n) × (ht.heap (slot_of ht e) ≡ e)

module _ (ht : Timers) (n gap moved : ℕ) (l : Linked ht n gap moved) where
  -- Writing the moved entry into the gap.
  pub copy_node-AllLinked : gap < n → IsLive ht moved → AllLinked (copy_node ht gap moved) n
  unfolding copy_node
  copy_node-AllLinked inside live = record {
    located = λ i lt. ground (
      arith,
      l.located i,
      l.apart (ht.heap i),
      eq_ℤ_iff (tid ht moved) (tid ht (ht.heap i)),
      eq_ℤ_iff (tid ht moved) (tid ht moved),
    );
    placed = λ e lv. ground (arith, l.placed e, l.apart e, eq_ℤ_iff (tid ht moved) (tid ht e));
  }

  -- Moving the entry of another slot into the gap opens the gap there.
  pub copy_node-Linked :
      (p : ℕ) → p < n → p ≢ gap → gap < n → Linked (copy_node ht gap (ht.heap p)) n p moved
  unfolding copy_node
  copy_node-Linked p lt ne inside = record {
    located = λ i lt_i ne_i. ground (
      arith,
      l.located i,
      l.located p,
      eq_ℤ_iff (tid ht (ht.heap p)) (tid ht (ht.heap i)),
      eq_ℤ_iff (tid ht (ht.heap p)) (tid ht (ht.heap p)),
    );
    placed = λ e lv ne_e.
        ground (arith, l.placed e, l.located p, eq_ℤ_iff (tid ht (ht.heap p)) (tid ht e));
    apart = l.apart;
  }
