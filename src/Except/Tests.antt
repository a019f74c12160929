-- ===== src/Except/Tests.antt =====
-- src/except.c with two handlers, and with two named exceptions.
use emlib.Prelude.{ℕ, ◌≡◌, refl, Option, none, some, [], ◌∷◌, arith, ◌==◌, ltb, if◌then◌else◌}
use emlib.Except.{Handlers, push_exception_handler, pop_exception_handler, throw_exception}
use emlib.Except.Stack.{IsStack, throw_exception-push}

abbrev two_deep : Handlers
two_deep = record { current = some 20; prev = λ h. if h == 20 then some 10 else none }

throw_exception-push_example :
    IsStack (push_exception_handler two_deep 30) (30 ∷ 20 ∷ 10 ∷ [])
    × ((st' : Handlers) × (throw_exception (push_exception_handler two_deep 30) 7
          ≡ some (30, 7, st'))
        × IsStack st' (20 ∷ 10 ∷ []))
    × IsStack (pop_exception_handler (push_exception_handler two_deep 30) 30) (20 ∷ 10 ∷ [])
    × (throw_exception (record { current = none; prev = two_deep.prev }) 7 ≡ none)
throw_exception-push_example =
    throw_exception-push two_deep 30 7 (20 ∷ 10 ∷ []) (refl, (refl, refl)) (ground arith)

abbrev two_names : ℕ → Option ℕ
two_names id = if ltb 0 id then (if ltb id 3 then some 4096 else none) else none
