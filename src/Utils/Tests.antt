-- ===== src/Utils/Tests.antt =====
-- BCD on concrete bytes.
use emlib.Prelude.{◌≡◌, refl, none, some, [], ◌∷◌, Bytes}
use emlib.Utils.{asc2bcd, asc2bcd_from}
use emlib.Utils.Bcd.{IsAscii, ascii}

ascii-IsAscii : IsAscii ascii
ascii-IsAscii = record { upper = λ c. refl; lower = λ c. refl; digit = λ c. refl }

-- The letter g reads behind the end of a table.
beyond : asc2bcd ascii (103 ∷ 48 ∷ []) 2 ≡ none
unfolding asc2bcd asc2bcd_from
beyond = refl

-- A character that is neither a letter nor a digit leaves the byte of the round before.
kept : asc2bcd ascii (49 ∷ 50 ∷ 45 ∷ 45 ∷ []) 4 ≡ some (18 ∷ 18 ∷ [])
unfolding asc2bcd asc2bcd_from
kept = refl

abbrev bytes : Bytes
bytes = 18 ∷ 175 ∷ 0 ∷ []
