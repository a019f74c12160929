-- ===== src/Atomic/Serial.antt =====
-- The operations on an atomic variable of src/os_core_unix.c take effect one after the other.
use emlib.Prelude.{ℕ, ◌≡◌, Bool, true, false, Option, some, none, List, [], ◌∷◌, ◌==◌}
use emlib.Prelude.Int.{ℤ}
use emlib.Atomic.{
  AtomicOp, value_after, At, outside, waiting, holding, has_read, has_written, System,
}

-- The value is what the operations give, each applied to the value that the one before it left, and each
-- returns the value that it left.
abbrev pub IsSerial : ℤ → List (AtomicOp × ℤ) → ℤ → Type 0
IsSerial initial [] value = value ≡ initial
IsSerial initial ((op, result) ∷ past) value =
    (old : ℤ) × IsSerial initial past old × (value ≡ value_after op old) × (result ≡ value)

abbrev pub has_mutex : Option ℕ → ℕ → Bool
has_mutex none j = false
has_mutex (some i) j = i == j

-- A thread is between its lock and its unlock exactly when it has the mutex, and a value that it has read
-- is still the value.
abbrev pub Fits : Bool → At → ℤ → Type 0
Fits b outside value = b ≡ false
Fits b (waiting op) value = b ≡ false
Fits b (holding op) value = b ≡ true
Fits b (has_read op old) value = (b ≡ true) × (old ≡ value)
Fits b (has_written op new) value = b ≡ true

pub record IsSerialised (initial : ℤ) (s : System) : Type 0 where
  pub serial : IsSerial initial s.past s.value
  pub fits : (j : ℕ) → Fits (has_mutex s.owner j) (s.at j) s.value
