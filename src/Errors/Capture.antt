-- ===== src/Errors/Capture.antt =====
-- src/shuttlesock.c: errors that are captured, `shuso_error_capture_start` to
-- `shuso_error_capture_finish`.
use shuttlesock.Base.{◌+◌, ◌^◌, ◌<◌, false, not, some, ◌≡◌, refl, arith}
use shuttlesock.Errors.{
  Msg, Errors, Calls, done, set_error, run, error_capture_start, error_capture_finish,
}
use shuttlesock.Errors.Owner.{Owns, Ran, Runs, run-Ran, calls_run, is_done, is_msg}

-- What is left of a capture that gave the message `m`.
pub record Captured (c : Calls) (s : Errors) (m : Msg) (s' : Errors) : Type 0 where
  pub owns : Owns s'
  pub counted : s'.error_count ≡ s.error_count + calls_run false c
  pub same_logged : s'.logged ≡ s.logged
  pub same_published : s'.published ≡ s.published
  pub told : is_msg m ≡ not (is_done c)
  pub logs_again : s'.do_not_log ≡ false
  pub publishes_again : s'.do_not_publish_event ≡ false

calls_run-pos : (c : Calls) → is_done c ≡ false → 0 < calls_run false c
calls_run-pos done h = cc
calls_run-pos (set_error n malloc listeners rest) h = omega arith

captured :
    (c : Calls) (s s' : Errors)
    → Ran false c (error_capture_start s).1 s'
    → Captured c s
        (error_capture_finish s.error_count s').0
        (error_capture_finish s.error_count s').1
unfolding error_capture_start error_capture_finish
captured done s s' r = ground arith
captured (set_error n malloc listeners rest) s s' r = ground arith

-- Between the start and the end of a capture, errors are counted, but neither logged nor published. The
-- capture gives a message just if an error was set. Afterwards errors are logged and published, also
-- if they were not before.
pub run-Captured :
    (c : Calls) (s : Errors)
    → Owns s
    → s.error_count + calls_run false c < 2 ^ 31
    → let (count, start) = error_capture_start s in
      (s' : Errors) × (run c start ≡ some s')
      × Captured c s (error_capture_finish count s').0 (error_capture_finish count s').1
unfolding error_capture_start
run-Captured c s h b = of_run (run-Ran false c (error_capture_start s).1 refl h b)
  where
    of_run :
        Runs false c (error_capture_start s).1
        → (s' : Errors) × (run c (error_capture_start s).1 ≡ some s')
          × Captured c s
              (error_capture_finish s.error_count s').0
              (error_capture_finish s.error_count s').1
    of_run (s', e, r) = (s', e, captured c s s' r)
