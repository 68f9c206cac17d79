-- ===== src/Tests/Faults.antt =====
-- Circuit breakers with a threshold of 2 failures and a timeout of 100 ms, and the error codes.
use nebula_im.Base.{true, false, ◌≡◌, refl, List, [], ◌∷◌, ◌++◌, arith}
use nebula_im.Base.Keys.{text_eq}
use nebula_im.Fault.CircuitBreaker.{CircuitBreaker, opened, init, allow_request, record_success}
use nebula_im.Fault.CircuitBreaker.Laws.{
  IsValid, Event, request, success, failure, run, failures, run-IsValid, trips_at_threshold,
}

abbrev events : List Event
events = failure 10 ∷ failure 20 ∷ request 130 ∷ success ∷ failure 140 ∷ []

abbrev tested : CircuitBreaker
tested = run (init 2 100) events

run-IsValid_example : IsValid tested
run-IsValid_example = run-IsValid 2 100 events (omega arith)

trips_at_threshold_example :
    ((allow_request (run (record_success (init 2 100)) (failures (50 ∷ []))) 159).0 ≡ true)
    × (allow_request
          (run (record_success (init 2 100)) (failures (50 ∷ []) ++ (failure 60 ∷ [])))
          159
        ≡ (
          false,
          record {
            failure_threshold = 2;
            open_timeout_ms = 100;
            state = opened;
            failure_count = 2;
            opened_at_ms = 60;
          },
        ))
unfolding init run
trips_at_threshold_example =
    trips_at_threshold (init 2 100) (50 ∷ []) 60 159 (run-IsValid 2 100 [] (omega arith)) refl
