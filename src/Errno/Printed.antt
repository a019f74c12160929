-- ===== src/Errno/Printed.antt =====
-- What the functions of src/errno.c that write a text leave in their buffer.
use emlib.Prelude.{
  ℕ, ◌+◌, ◌-◌, ◌≤◌, ◌<◌, ◌≡◌, ◌⊎◌, refl, sym, ap, ◌∙◌, some, true, false, ◌||◌, [], ◌∷◌, ◌++◌,
  Bytes, arith, ltb, leb, if◌then◌else◌, Bool-cases, inl, inr, length, take, mem_write, splice,
  length-take, length-append, length-splice, window-splice_at, take-append_self, take-take_of_le,
  take_of_length_le, subst,
}
use Prim.Native.Nat.{min}
use emlib.Errno.Text.{Written, snprintf, copied, not_cut, finish}

-- The buffer begins with as much of the text as fits and a terminator, and the length is that of this
-- part.
pub record Shows (size : ℕ) (text : Bytes) (w : Written) : Type 0 where
  pub memory : Bytes
  pub written : w.0 ≡ some memory
  pub slen : w.1 ≡ length (take (size - 1) text)
  pub bytes : take (length (take (size - 1) text) + 1) memory ≡ take (size - 1) text ++ (0 ∷ [])

leb_of_le : (a b : ℕ) → a ≤ b → leb a b ≡ true
leb_of_le a b h = ground arith

module _ (mem : Bytes) (size : ℕ) (pos : 0 < size) (room : size ≤ length mem) where
  -- The first write.
  module _ (text : Bytes) where
    abbrev part : Bytes
    part = take (size - 1) text

    part-length : length part < size
    part-length = omega (arith, length-take (size - 1) text)

    abbrev first : Bytes
    first = splice mem 0 (part ++ (0 ∷ []))

    whole : length (part ++ (0 ∷ [])) ≡ length part + 1
    whole = length-append part (0 ∷ [])

    first_written : mem_write mem 0 (part ++ (0 ∷ [])) ≡ some first
    unfolding mem_write
    first_written =
        let fits : leb (0 + length (part ++ (0 ∷ []))) (length mem) ≡ true =
          leb_of_le (0 + length (part ++ (0 ∷ []))) (length mem)
            (omega (arith, whole, part-length, room)) in
        rw fits refl

    first_bytes : take (length part + 1) first ≡ part ++ (0 ∷ [])
    first_bytes =
        window-splice_at mem 0 0 0 (length part + 1) (part ++ (0 ∷ [])) refl (omega (arith, whole))
          (omega (arith, whole, part-length, room))

    -- A length that needs no correction, and one that does.
    kept :
        (n : ℕ)
        → (ltb n 1 || leb size n) ≡ false
        → n ≡ length part
        → Shows size text (finish size (mem_write mem 0 (part ++ (0 ∷ [])), n))
    unfolding finish
    kept n e l =
        rw (first_written, e)
          record { memory = first; written = refl; slen = l; bytes = first_bytes }

    first-length : length first ≡ length mem
    first-length = length-splice mem 0 (part ++ (0 ∷ [])) (omega (arith, whole, part-length, room))

    second_written : mem_write first (size - 1) (0 ∷ []) ≡ some (splice first (size - 1) (0 ∷ []))
    unfolding mem_write
    second_written =
        let fits : leb (size - 1 + 1) (length first) ≡ true =
          leb_of_le (size - 1 + 1) (length first) (omega (arith, first-length, room, pos)) in
        rw fits refl

    corrected :
        (n : ℕ)
        → (ltb n 1 || leb size n) ≡ true
        → length part ≡ size - 1
        → Shows size text (finish size (mem_write mem 0 (part ++ (0 ∷ [])), n))
    unfolding finish
    corrected n e l =
        rw (first_written, e, second_written)
          record {
            memory = splice first (size - 1) (0 ∷ []);
            written = refl;
            slen = sym l;
            bytes =
                window-splice_at first 0 (size - 1) (size - 1) (length part + 1) (0 ∷ [])
                  (omega arith) (omega (arith, l)) (omega (arith, first-length, room, pos))
                ∙ ap (λ x. x ++ (0 ∷ [])) same;
          }
      where
        same : take (size - 1) first ≡ part
        same =
            sym (take-take_of_le (size - 1) (length part + 1) first (omega (arith, l)))
            ∙ (ap (take (size - 1)) first_bytes ∙ take-append_self part (0 ∷ []) (size - 1) (sym l))

    any_length :
        (n : ℕ)
        → 0 < length text
        → (n ≡ length part) ⊎ (n ≡ length text)
        → Shows size text (finish size (mem_write mem 0 (part ++ (0 ∷ [])), n))
    any_length n some_text cases = elim (Bool-cases (ltb n 1 || leb size n)) [
      | inl e ↦ corrected n e (at_end e)
      | inr e ↦ kept n e (inside e)
    ]
      where
        l : length part ≡ min (size - 1) (length text)
        l = length-take (size - 1) text

        at_end : (ltb n 1 || leb size n) ≡ true → length part ≡ size - 1
        at_end e = elim cases [ inl c ↦ ground (arith, l) | inr c ↦ ground (arith, l) ]

        inside : (ltb n 1 || leb size n) ≡ false → n ≡ length part
        inside e = elim cases [ inl c ↦ c | inr c ↦ ground (arith, l) ]

    pub snprintf-Shows : 0 < length text → Shows size text (finish size (snprintf mem size text))
    snprintf-Shows h = any_length (length text) h (inr refl)

    pub not_cut-Shows :
        0 < length text → Shows size text (finish size (not_cut size (snprintf mem size text)))
    not_cut-Shows h =
        any_length (if ltb (length text) 1 || leb size (length text) then size - 1 else length text)
          h (inl (ground (arith, h, length-take (size - 1) text)))

    copied_lem : copied mem size text ≡ (mem_write mem 0 (part ++ (0 ∷ [])), length part)
    copied_lem = elim (Bool-cases (leb size (length text))) [
      | inl e ↦
          let len : size - 1 ≡ length part = ground (arith, length-take (size - 1) text) in
          rw e (ap (λ k. (mem_write mem 0 (part ++ (0 ∷ [])), k)) len)
      | inr e ↦
          let all : part ≡ text = take_of_length_le (size - 1) text (ground arith) in
          let all' : take (length text) text ≡ part =
            take_of_length_le (length text) text (omega arith) ∙ sym all in
          rw (e, all') (ap (λ k. (mem_write mem 0 (part ++ (0 ∷ [])), k)) (ap length (sym all)))
    ]

    pub copied-Shows : 0 < length text → Shows size text (finish size (copied mem size text))
    copied-Shows h =
        subst (λ w. Shows size text (finish size w)) (sym copied_lem)
          (any_length (length part) h (inl refl))
