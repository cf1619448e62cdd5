-- ===== src/Errors/Tests.antt =====
-- Errors at concrete inputs.
use shuttlesock.Base.{true, false, some, [], ◌∷◌, ◌≡◌, refl, arith}
use shuttlesock.Errors.{
  no_msg, out_of_memory, allocd, Errors, Calls, done, set_error, run, set_error_internal,
  error_capture_start, error_capture_finish,
}
use shuttlesock.Errors.Owner.{Ran, run-Ran}
use shuttlesock.Errors.Capture.{Captured, run-Captured}

abbrev no_error : Errors
no_error = record {
  msg = no_msg;
  error_count = 0;
  error_number = 0;
  static_memory = false;
  do_not_log = false;
  do_not_publish_event = false;
  past_configuring = true;
  live = [];
  next_alloc = 0;
  logged = [];
  published = [];
}

-- an error whose listener sets another, one without memory, and one with the number 2
abbrev three_errors : Calls
three_errors =
    set_error 0 true (set_error 0 true (set_error 5 true done done) done)
      (set_error 0 false done (set_error 2 true done done))

run_three :
    run three_errors no_error
    ≡ some (record no_error {
      msg = allocd 2;
      error_count = 4;
      error_number = 2;
      live = 2 ∷ [];
      next_alloc = 3;
      logged = allocd 0 ∷ allocd 1 ∷ out_of_memory ∷ allocd 2 ∷ [];
      published = allocd 0 ∷ out_of_memory ∷ allocd 2 ∷ [];
    })
unfolding run set_error_internal
run_three = refl

run-Ran_example :
    (s' : Errors) × (run three_errors no_error ≡ some s') × Ran true three_errors no_error s'
run-Ran_example = run-Ran true three_errors no_error refl refl (omega arith)

run-Captured_example :
    (s' : Errors) × (run three_errors (error_capture_start no_error).1 ≡ some s')
    × Captured three_errors no_error
        (error_capture_finish (error_capture_start no_error).0 s').0
        (error_capture_finish (error_capture_start no_error).0 s').1
run-Captured_example = run-Captured three_errors no_error refl (omega arith)
