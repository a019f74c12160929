-- ===== src/Lifetime/Session.antt =====
-- A use of the library of src/os_core_unix.c between the first em_init and the em_shutdown that belongs to it.
use emlib.Prelude.{
  ℕ, zero, suc, ◌+◌, ◌<◌, ◌≡◌, refl, sym, ap, ◌∙◌, false, Option, some, none, List, [], ◌∷◌, ◌++◌,
  append_assoc, append-nil, leb, ◌==◌, if◌then◌else◌, length, get_elem?, arith, Bool-cases, inl,
  inr,
}
use emlib.Prelude.Int.{pos, ◌+ℤ◌, ◌-ℤ◌}
use mathlib.Core.Option.{some-injective}
use emlib.Lifetime.{
  Library, max_atexit, is_initialized, cons_some, called_from, freed, Effects, names_after,
  shutdown, Call, init_call, atexit_call, shutdown_call, run_call, after, run,
}

-- The depth of the calls, while the library stays initialised.
abbrev pub depth : ℕ → List Call → Option ℕ
depth n [] = some n
depth n (init_call ∷ cs) = depth (suc n) cs
depth n (atexit_call func ∷ cs) = depth n cs
depth zero (shutdown_call ∷ cs) = none
depth (suc zero) (shutdown_call ∷ cs) = none
depth (suc (suc n)) (shutdown_call ∷ cs) = depth (suc n) cs

-- The functions that the calls register, after those that are: the first 32.
abbrev pub registered : List ℕ → List Call → List ℕ
registered fs [] = fs
registered fs (init_call ∷ cs) = registered fs cs
registered fs (shutdown_call ∷ cs) = registered fs cs
registered fs (atexit_call func ∷ cs) =
    registered (if leb max_atexit (length fs) then fs else fs ++ (func ∷ [])) cs

abbrev pub reverse : List ℕ → List ℕ
reverse [] = []
reverse (f ∷ fs) = reverse fs ++ (f ∷ [])

append-cons_some : (o : Option ℕ) (xs ys : List ℕ) → cons_some o (xs ++ ys) ≡ cons_some o xs ++ ys
append-cons_some none xs ys = refl
append-cons_some (some f) xs ys = refl

called_from-cons :
    (f : ℕ) (fs : List ℕ) (n : ℕ) → called_from (f ∷ fs) (suc n) ≡ called_from fs n ++ (f ∷ [])
unfolding called_from
called_from-cons f fs zero = refl
called_from-cons f fs (suc n) =
    ap (cons_some (get_elem? fs n)) (called_from-cons f fs n)
    ∙ append-cons_some (get_elem? fs n) (called_from fs n) (f ∷ [])

-- The loop calls all functions, the last first.
called_from-reverse : (fs : List ℕ) → called_from fs (length fs) ≡ reverse fs
unfolding called_from
called_from-reverse [] = refl
called_from-reverse (f ∷ fs) =
    called_from-cons f fs (length fs) ∙ ap (λ l. l ++ (f ∷ [])) (called_from-reverse fs)

-- The same library, so deep in calls, with these functions.
abbrev pub at_depth : Library → ℕ → List ℕ → Library
at_depth l n fs = record l { initialized = pos n; atexit_func = fs }

one_more : (n : ℕ) → pos n +ℤ pos 1 ≡ pos (suc n)
unfolding ◌+ℤ◌
one_more n = ground arith

one_less : (n : ℕ) → pos (suc n) -ℤ pos 1 ≡ pos n
unfolding ◌-ℤ◌
one_less n = ground arith

run_call-init :
    (act : Effects) (l : Library) (n : ℕ) (fs : List ℕ)
    → run_call act init_call (at_depth l n fs) ≡ (at_depth l (suc n) fs, [])
run_call-init act l n fs = elim (Bool-cases (is_initialized (at_depth l n fs))) [
  | inl more ↦ rw more (ap (λ i. (record l { initialized = i; atexit_func = fs }, [])) (one_more n))
  | inr first ↦
      rw first (ap (λ i. (record l { initialized = i; atexit_func = fs }, [])) (one_more n))
]

run_call-atexit :
    (act : Effects) (l : Library) (func n : ℕ) (fs : List ℕ)
    → run_call act (atexit_call func) (at_depth l n fs)
      ≡ (at_depth l n (if leb max_atexit (length fs) then fs else fs ++ (func ∷ [])), [])
run_call-atexit act l func n fs = elim (Bool-cases (leb max_atexit (length fs))) [
  | inl full ↦ rw full refl
  | inr room ↦ rw room refl
]

run_call-shutdown :
    (act : Effects) (l : Library) (n : ℕ) (fs : List ℕ)
    → run_call act shutdown_call (at_depth l (suc (suc n)) fs) ≡ (at_depth l (suc n) fs, [])
run_call-shutdown act l n fs =
    let still : (suc n + 0 == 0 + 0) ≡ false = ground arith in rw (one_less (suc n)) rw still refl

-- What a shutdown leaves that ends the use of the library.
abbrev pub closed : Effects → Library → List ℕ → Library
closed act l calls = record l {
  initialized = pos 0;
  atexit_func = [];
  no_memory_exception = none;
  exception_names = freed l.no_memory_exception (names_after act calls l.exception_names);
  err_msg_hnd = [];
}

shutdown-last :
    (act : Effects) (l : Library) (fs : List ℕ)
    → shutdown act (at_depth l 1 fs) ≡ (closed act l (reverse fs), reverse fs)
unfolding ◌-ℤ◌
shutdown-last act l fs = ap (λ c. (closed act l c, c)) (called_from-reverse fs)

run-stays :
    (act : Effects) (l : Library) (calls : List Call) (n m : ℕ) (fs : List ℕ)
    → 0 < n
    → depth n calls ≡ some m
    → run act calls (at_depth l n fs) ≡ (at_depth l m (registered fs calls), [])
unfolding run
run-stays act l [] n m fs h e = ap (λ k. (at_depth l k fs, [])) (some-injective n m e)
run-stays act l (init_call ∷ cs) n m fs h e =
    ap (λ r. after r (run act cs r.0)) (run_call-init act l n fs)
    ∙ (ap (after (at_depth l (suc n) fs, [])) (run-stays act l cs (suc n) m fs (omega arith) e))
run-stays act l (atexit_call func ∷ cs) n m fs h e =
    let fs' = if leb max_atexit (length fs) then fs else fs ++ (func ∷ []) in
    ap (λ r. after r (run act cs r.0)) (run_call-atexit act l func n fs)
    ∙ (ap (after (at_depth l n fs', [])) (run-stays act l cs n m fs' h e))
run-stays act l (shutdown_call ∷ cs) zero m fs h e = absurd (omega (arith, h))
run-stays act l (shutdown_call ∷ cs) (suc zero) m fs h e = absurd (ground (arith, e))
run-stays act l (shutdown_call ∷ cs) (suc (suc n)) m fs h e =
    ap (λ r. after r (run act cs r.0)) (run_call-shutdown act l n fs)
    ∙ (ap (after (at_depth l (suc n) fs, [])) (run-stays act l cs (suc n) m fs (omega arith) e))

run-append :
    (act : Effects) (xs ys : List Call) (l : Library)
    → run act (xs ++ ys) l ≡ after (run act xs l) (run act ys (run act xs l).0)
unfolding run
run-append act [] ys l = refl
run-append act (c ∷ cs) ys l =
    let (l', first) = run_call act c l in
    ap (after (l', first)) (run-append act cs ys l')
    ∙ ap (λ calls. ((run act ys (run act cs l').0).0, calls))
        (sym (append_assoc first (run act cs l').1 (run act ys (run act cs l').0).1))

-- A library that is not initialised and has no functions registered is initialised, and after calls
-- of em_init, em_atexit and em_shutdown among which no em_shutdown is without its em_init, and no em_init
-- without its em_shutdown, it is shut down. The functions that were registered, but only the first 32, are then
-- called once each, the last first, and none was called before. The library is then not initialised
-- and has no functions, no out-of-memory exception and no error handlers, and its exception names are
-- those that these calls leave, less that of the out-of-memory exception.
pub run-session :
    (act : Effects) (l : Library) (calls : List Call)
    → depth 1 calls ≡ some 1
    → run act ((init_call ∷ calls) ++ (shutdown_call ∷ [])) (at_depth l 0 [])
      ≡ (closed act l (reverse (registered [] calls)), reverse (registered [] calls))
unfolding run
run-session act l calls e =
    let fs = registered [] calls in
    let stays : run act (init_call ∷ calls) (at_depth l 0 []) ≡ (at_depth l 1 fs, []) =
      ap (λ r. after r (run act calls r.0)) (run_call-init act l 0 [])
      ∙ ap (after (at_depth l 1 [], [])) (run-stays act l calls 1 1 [] (omega arith) e) in
    run-append act (init_call ∷ calls) (shutdown_call ∷ []) (at_depth l 0 [])
    ∙ ap (λ r. after r (run act (shutdown_call ∷ []) r.0)) stays
    ∙ ap (λ r. after r (r.0, [])) (shutdown-last act l fs)
    ∙ ap (λ c. (closed act l (reverse fs), c)) (append-nil (reverse fs))
