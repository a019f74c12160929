-- ===== src/Lifetime/Tests.antt =====
-- Two nested uses of the library, and a shutdown too many.
use emlib.Prelude.{◌≡◌, refl, some, none, ◌==◌, if◌then◌else◌, List, [], ◌∷◌, ◌++◌}
use emlib.Prelude.Int.{pos, ◌+ℤ◌, ◌-ℤ◌}
use emlib.Except.{exception_id_free}
use emlib.Lifetime.{
  Library, Effects, exception_cleanup, Call, init_call, atexit_call, shutdown_call, run,
}
use emlib.Lifetime.Session.{at_depth, closed, run-session}

abbrev no_use : Library
no_use = record {
  initialized = pos 0;
  atexit_func = [];
  no_memory_exception = some 0;
  exception_names = λ id. some 7;
  err_msg_hnd = [];
}

abbrev nested : List Call
nested = atexit_call 10 ∷ (init_call ∷ (atexit_call 20 ∷ (shutdown_call ∷ [])))

-- The function at 20 is exception_cleanup.
abbrev effects : Effects
effects f names = if f == 20 then exception_cleanup names else names

run-session_example :
    run effects ((init_call ∷ nested) ++ (shutdown_call ∷ [])) (at_depth no_use 0 [])
    ≡ (closed effects no_use (20 ∷ (10 ∷ [])), 20 ∷ (10 ∷ []))
run-session_example = run-session effects no_use nested refl

cleaned : (closed effects no_use (20 ∷ (10 ∷ []))).exception_names 5 ≡ none
unfolding exception_id_free
cleaned = refl

-- After a shutdown too many an initialisation sets nothing up, since the count is not 0, and leaves it 0.
shutdown_too_many : (run effects (shutdown_call ∷ (init_call ∷ [])) no_use).0.initialized ≡ pos 0
unfolding run ◌+ℤ◌ ◌-ℤ◌
shutdown_too_many = refl
