-- ===== src/Except/Stack.antt =====
-- The handlers of src/except.c form a stack.
use emlib.Prelude.{
  ℕ, ◌≡◌, ◌≢◌, refl, Option, none, some, List, [], ◌∷◌, arith, Avoids, true, false, ◌==◌,
}
use emlib.Except.{Handlers, push_exception_handler, pop_exception_handler, throw_exception, pop_if}

-- From a pointer on, the handlers are those listed, the innermost first.
abbrev pub Linked : (ℕ → Option ℕ) → Option ℕ → List ℕ → Type 0
Linked prev c [] = c ≡ none
Linked prev c (h ∷ hs) = (c ≡ some h) × Linked prev (prev h) hs

abbrev pub IsStack : Handlers → List ℕ → Type 0
IsStack st hs = Linked st.prev st.current hs

same_self : (h : ℕ) → (h == h) ≡ true
same_self h = ground arith

other : (h k : ℕ) → k ≢ h → (h == k) ≡ false
other h k ne = ground arith

Linked-push :
    (st : Handlers) (h : ℕ) (c : Option ℕ) (hs : List ℕ)
    → Avoids h hs
    → Linked st.prev c hs
    → Linked (push_exception_handler st h).prev c hs
unfolding push_exception_handler
Linked-push st h c [] av l = l
Linked-push st h c (k ∷ hs) av l =
    (l.0, rw (other h k av.0) (Linked-push st h (st.prev k) hs av.1 l.1))

-- A throw goes to the innermost handler, which is off the stack then: the one that was pushed last,
-- if it was not on the stack already, and the handlers below it are those from before the push.
-- A pop of it does the same to the stack. Without any handler, a throw has nowhere to go.
pub throw_exception-push :
    (st : Handlers) (h id : ℕ) (hs : List ℕ)
    → IsStack st hs
    → Avoids h hs
    → IsStack (push_exception_handler st h) (h ∷ hs)
      × ((st' : Handlers) × (throw_exception (push_exception_handler st h) id ≡ some (h, id, st'))
          × IsStack st' hs)
      × IsStack (pop_exception_handler (push_exception_handler st h) h) hs
      × (throw_exception (record { current = none; prev = st.prev }) id ≡ none)
unfolding push_exception_handler throw_exception pop_exception_handler
throw_exception-push st h id hs l av =
    let below = Linked-push st h st.current hs av l in
    (
      (refl, rw (same_self h) below),
      (pop_if (push_exception_handler st h) h (some h), refl, rw (same_self h) below),
      rw (same_self h) below,
      refl,
    )
