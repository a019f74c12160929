-- ===== src/Str/Token.antt =====
-- em_strtok of src/string.c.
use emlib.Prelude.{
  ℕ, suc, ◌+◌, ◌≤◌, ◌<◌, ◌≡◌, refl, sym, ap, ◌∙◌, true, false, some, [], ◌∷◌, ◌++◌, Bytes, arith,
  ◌==◌, ltb, ◌||◌, Distinct, length, length-append, drop, drop-append_self, take-append_self,
  append_assoc, append-nil,
}
use emlib.Str.{strtok, token_from, strspn}
use emlib.Str.Span.{Inside, OutsideOf, Starts, strspn-append, strcspn-append}

not_late : (m n : ℕ) → m ≤ n → 0 < n → (n == 0 || ltb n m) ≡ false
not_late m n h p = ground arith

-- The token, when it begins at start + idx.
token_from_found :
    (str delim : Bytes) (start idx : ℕ) (tok rest : Bytes)
    → drop (start + idx) str ≡ tok ++ rest
    → start + idx < length str
    → OutsideOf delim tok
    → Starts true delim rest
    → token_from str delim start idx ≡ some (start + idx, tok)
token_from_found str delim start idx tok rest e l o s =
    let inside : (start + idx == length str) ≡ false = ground arith in
    let within : ltb (length str) (start + idx) ≡ false = ground arith in
    rw
      (
        inside,
        within,
        e,
        strcspn-append delim tok rest o s,
        take-append_self tok rest (length tok) refl,
      )
      refl

strtok_found :
    (delim before ds : Bytes) (c : ℕ) (t rest : Bytes)
    → Distinct delim
    → Inside delim ds
    → OutsideOf delim (c ∷ t)
    → Starts true delim rest
    → strtok (before ++ (ds ++ ((c ∷ t) ++ rest))) delim (length before)
      ≡ some (length before + length ds, c ∷ t)
unfolding strtok
strtok_found delim before ds c t rest d i o s =
    let tail = (c ∷ t) ++ rest in
    let str = before ++ (ds ++ tail) in
    let long : length str ≡ length before + (length ds + suc (length (t ++ rest))) =
      omega (arith, length-append before (ds ++ tail), length-append ds tail) in
    let spanned : strspn (drop (length before) str) delim ≡ length ds =
      ap (λ l. strspn l delim) (drop-append_self before (ds ++ tail) (length before) refl)
      ∙ strspn-append delim ds tail d i o.0 in
    let behind : drop (length before + length ds) str ≡ tail =
      ap (drop (length before + length ds)) (sym (append_assoc before ds tail))
      ∙ drop-append_self (before ++ ds) tail (length before + length ds)
          (sym (length-append before ds)) in
    rw (not_late (length before) (length str) (omega (arith, long)) (omega (arith, long)), spanned)
      (token_from_found str delim (length before) (length ds) (c ∷ t) rest behind
        (omega (arith, long)) o s)

strtok_end :
    (delim before ds : Bytes)
    → Distinct delim
    → Inside delim ds
    → 0 < length (before ++ ds)
    → strtok (before ++ ds) delim (length before) ≡ some (length (before ++ ds), ds)
unfolding strtok
strtok_end delim before ds d i p =
    let long : length (before ++ ds) ≡ length before + length ds = length-append before ds in
    let spanned : strspn ds delim ≡ length ds =
      ap (λ l. strspn l delim) (sym (append-nil ds)) ∙ strspn-append delim ds [] d i tt in
    let at_end : (length before + length ds == length (before ++ ds)) ≡ true =
      ground (arith, long) in
    rw
      (
        not_late (length before) (length (before ++ ds)) (omega (arith, long)) p,
        drop-append_self before ds (length before) refl,
        spanned,
        at_end,
      )
      refl

-- em_strtok from an index in a string that is not empty: if delimiters without repetition and then a token
-- that is not empty follow there, up to a delimiter or the end, it gives the index of the
-- token and the token; if only delimiters follow, it gives the length of the string.
pub strtok_lem :
    (delim before ds : Bytes) (c : ℕ) (t rest : Bytes)
    → Distinct delim
    → Inside delim ds
    → OutsideOf delim (c ∷ t)
    → Starts true delim rest
    → 0 < length (before ++ ds)
    → (strtok (before ++ (ds ++ ((c ∷ t) ++ rest))) delim (length before)
        ≡ some (length before + length ds, c ∷ t))
      × (strtok (before ++ ds) delim (length before) ≡ some (length (before ++ ds), ds))
strtok_lem delim before ds c t rest d i o s p =
    (strtok_found delim before ds c t rest d i o s, strtok_end delim before ds d i p)
