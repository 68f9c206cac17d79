-- ===== src/Fault/CircuitBreaker/Laws.antt =====
-- When a circuit breaker lets a request through.
use nebula_im.Base.{
  ℕ, suc, ◌+◌, ◌^◌, true, false, ◌||◌, ◌≡◌, refl, sym, ap, ◌∙◌, ◌≤◌, ◌<◌, none, some, List, [], ◌∷◌,
  ◌++◌, subst, leb, add_size, if◌then◌else◌, length, arith, Option-cases, inl, inr, Bool-cases,
}
use nebula_im.Base.Keys.{Text, text_eq, text_beq}
use nebula_im.Base.Dict.{lookup, insert, lookup-insert}
use nebula_im.Fault.CircuitBreaker.{
  CircuitBreakerState, closed, opened, half_open, CircuitBreaker, init, tried, allow_request,
  record_success, is_half_open, record_failure, Breakers, get_breaker, manager_allow_request,
  manager_record_success, manager_record_failure,
}

-- A closed breaker has counted fewer failures than it takes to open it.
pub record IsValid (b : CircuitBreaker) : Type 0 where
  pub some_threshold : 1 ≤ b.failure_threshold
  pub small_threshold : b.failure_threshold < 2 ^ 64
  pub some_timeout : 1 ≤ b.open_timeout_ms
  pub below : b.state ≡ closed → b.failure_count < b.failure_threshold

-- What callers may do with a breaker.
pub data Event : Type 0 where
  request : ℕ → Event
  success : Event
  failure : ℕ → Event

unfoldable pub step : CircuitBreaker → Event → CircuitBreaker
step b (request now) = (allow_request b now).1
step b success = record_success b
step b (failure now) = record_failure b now

unfoldable pub run : CircuitBreaker → List Event → CircuitBreaker
run b [] = b
run b (e ∷ es) = run (step b e) es

init-IsValid :
    (failure_threshold open_timeout_ms : ℕ)
    → failure_threshold < 2 ^ 64
    → IsValid (init failure_threshold open_timeout_ms)
unfolding init
init-IsValid failure_threshold open_timeout_ms h = record {
  some_threshold = ground arith;
  small_threshold = ground arith;
  some_timeout = ground arith;
  below = λ e. ground arith;
}

tried-IsValid :
    (s : CircuitBreakerState) (b : CircuitBreaker) (now : ℕ)
    → b.state ≡ s
    → IsValid b
    → IsValid (tried s now b).1
tried-IsValid closed b now h v = v
tried-IsValid half_open b now h v = v
tried-IsValid opened b now h v = elim (Bool-cases (leb (b.opened_at_ms + b.open_timeout_ms) now)) [
  | inl late ↦ rw (late) (record {
    some_threshold = v.some_threshold;
    small_threshold = v.small_threshold;
    some_timeout = v.some_timeout;
    below = λ e. cc;
  })
  | inr early ↦ rw (early) v
]

record_failure-IsValid : (b : CircuitBreaker) (now : ℕ) → IsValid b → IsValid (record_failure b now)
unfolding record_failure
record_failure-IsValid b now v =
    elim (Bool-cases
      (is_half_open b.state || leb b.failure_threshold (add_size b.failure_count 1))) [
        | inl trips ↦
            rw (trips, record_failure)
              (record {
                some_threshold = v.some_threshold;
                small_threshold = v.small_threshold;
                some_timeout = v.some_timeout;
                below = λ e. cc;
              })
        | inr holds ↦
            rw (holds, record_failure)
              (record {
                some_threshold = v.some_threshold;
                small_threshold = v.small_threshold;
                some_timeout = v.some_timeout;
                below = λ e. ground arith;
              })
      ]

step-IsValid : (b : CircuitBreaker) (e : Event) → IsValid b → IsValid (step b e)
unfolding step allow_request record_success
step-IsValid b (request now) v = tried-IsValid b.state b now refl v
step-IsValid b success v = record {
  some_threshold = v.some_threshold;
  small_threshold = v.small_threshold;
  some_timeout = v.some_timeout;
  below = λ e. ground (arith, v.some_threshold);
}
step-IsValid b (failure now) v = record_failure-IsValid b now v

run_keeps : (b : CircuitBreaker) (es : List Event) → IsValid b → IsValid (run b es)
unfolding run
run_keeps b [] v = v
run_keeps b (e ∷ es) v = run_keeps (step b e) es (step-IsValid b e v)

-- Whatever requests, successes and failures a new breaker sees, made with a threshold that
-- fits 64 bits: its threshold and its timeout are at least 1, and while it is closed it has
-- counted fewer failures than its threshold.
pub run-IsValid :
    (failure_threshold open_timeout_ms : ℕ) (es : List Event)
    → failure_threshold < 2 ^ 64
    → IsValid (run (init failure_threshold open_timeout_ms) es)
run-IsValid failure_threshold open_timeout_ms es h =
    run_keeps (init failure_threshold open_timeout_ms) es
      (init-IsValid failure_threshold open_timeout_ms h)

unfoldable pub failures : List ℕ → List Event
failures [] = []
failures (now ∷ times) = failure now ∷ failures times

one_more :
    (b : CircuitBreaker) (now : ℕ)
    → IsValid b
    → b.state ≡ closed
    → suc b.failure_count < b.failure_threshold
    → record_failure b now ≡ record b { failure_count = suc b.failure_count }
unfolding record_failure
one_more b now v h few =
    let small = v.small_threshold in
    let counted : add_size b.failure_count 1 ≡ suc b.failure_count = omega arith in
    let shut = ap is_half_open h in
    let holds : (is_half_open b.state || leb b.failure_threshold (add_size b.failure_count 1))
        ≡ false =
      ground arith in
    rw (holds, counted, record_failure) refl

last_one :
    (b : CircuitBreaker) (now : ℕ)
    → IsValid b
    → b.state ≡ closed
    → suc b.failure_count ≡ b.failure_threshold
    → record_failure b now
      ≡ record b { failure_count = b.failure_threshold; state = opened; opened_at_ms = now }
unfolding record_failure
last_one b now v h last =
    let small = v.small_threshold in
    let counted : add_size b.failure_count 1 ≡ b.failure_threshold = omega arith in
    let trips : (is_half_open b.state || leb b.failure_threshold (add_size b.failure_count 1))
        ≡ true =
      ground arith in
    rw (trips, counted, record_failure) refl

-- Fewer failures than the threshold leave the breaker closed.
stays_closed :
    (b : CircuitBreaker) (times : List ℕ)
    → IsValid b
    → b.state ≡ closed
    → b.failure_count + length times < b.failure_threshold
    → run b (failures times) ≡ record b { failure_count = b.failure_count + length times }
unfolding run step failures
stays_closed b [] v h few = ap (λ n. record b { failure_count = n }) (omega arith)
stays_closed b (now ∷ times) v h few =
    let b' : CircuitBreaker = record b { failure_count = suc b.failure_count } in
    let same : record_failure b now ≡ b' = one_more b now v h (omega arith) in
    let v' = subst IsValid same (record_failure-IsValid b now v) in
    ap (λ b. run b (failures times)) same
    ∙ stays_closed b' times v' h (omega arith)
    ∙ ap (λ n. record b { failure_count = n }) (omega arith)

run-snoc :
    (b : CircuitBreaker) (es : List Event) (e : Event) → run b (es ++ (e ∷ [])) ≡ step (run b es) e
unfolding run
run-snoc b [] e = refl
run-snoc b (e' ∷ es) e = run-snoc (step b e') es e

after_opening :
    (b : CircuitBreaker) (now later : ℕ)
    → allow_request
        (record b { failure_count = b.failure_threshold; state = opened; opened_at_ms = now })
        later
      ≡ (
        leb (now + b.open_timeout_ms) later,
        record b {
          failure_count = b.failure_threshold;
          state = if leb (now + b.open_timeout_ms) later then half_open else opened;
          opened_at_ms = now;
        },
      )
unfolding allow_request
after_opening b now later = elim (Bool-cases (leb (now + b.open_timeout_ms) later)) [
  | inl late ↦ rw (late) refl
  | inr early ↦ rw (early) refl
]

-- A valid breaker that a success has just closed lets a request through after any failures
-- that are one fewer than its threshold. The next failure, at time now, opens it: a request
-- before now plus the timeout is refused and changes nothing, and one at that time or later
-- is let through and leaves the breaker half open.
pub trips_at_threshold :
    (b : CircuitBreaker) (times : List ℕ) (now later : ℕ)
    → IsValid b
    → suc (length times) ≡ b.failure_threshold
    → (allow_request (run (record_success b) (failures times)) later).0 ≡ true
      × allow_request (run (record_success b) (failures times ++ (failure now ∷ []))) later ≡ (
        leb (now + b.open_timeout_ms) later,
        record b {
          failure_count = b.failure_threshold;
          state = if leb (now + b.open_timeout_ms) later then half_open else opened;
          opened_at_ms = now;
        },
      )
unfolding record_success allow_request step
trips_at_threshold b times now later v h =
    let b0 : CircuitBreaker = record_success b in
    let v0 : IsValid b0 = step-IsValid b success v in
    let bears = stays_closed b0 times v0 refl (omega arith) in
    let b1 : CircuitBreaker = record b0 { failure_count = 0 + length times } in
    let v1 : IsValid b1 = subst IsValid bears (run_keeps b0 (failures times) v0) in
    let opens =
      run-snoc b0 (failures times) (failure now)
      ∙ ap (λ b. record_failure b now) bears
      ∙ last_one b1 now v1 refl (omega arith) in
    (
      ap (λ b. (allow_request b later).0) bears,
      ap (λ b. allow_request b later) opens ∙ after_opening b now later,
    )

unfoldable pub breaker_of : Breakers → Text → CircuitBreaker
breaker_of breakers name = elim (lookup name breakers) [ none ↦ init 5 30000 | some b ↦ b ]

get_breaker_lem :
    (breakers : Breakers) (name : Text) → (get_breaker breakers name).0 ≡ breaker_of breakers name
unfolding get_breaker breaker_of
get_breaker_lem breakers name = elim (Option-cases (lookup name breakers)) [
  | inl absent ↦ rw (absent, get_breaker, breaker_of) refl
  | inr (b, present) ↦ rw (present, get_breaker, breaker_of) refl
]

get_breaker-other :
    (breakers : Breakers) (name other : Text)
    → text_beq name other ≡ false
    → lookup other (get_breaker breakers name).1 ≡ lookup other breakers
unfolding get_breaker
get_breaker-other breakers name other h = elim (Option-cases (lookup name breakers)) [
  | inl absent ↦
      rw (absent, get_breaker) (ground (arith, lookup-insert name other (init 5 30000) breakers))
  | inr (b, present) ↦ rw (present, get_breaker) refl
]

put-get :
    (breakers : Breakers) (name other : Text) (b : CircuitBreaker)
    → lookup other (insert name b (get_breaker breakers name).1)
      ≡ (if text_beq name other then some b else lookup other breakers)
put-get breakers name other b = ground (
  arith,
  lookup-insert name other b (get_breaker breakers name).1,
  get_breaker-other breakers name other,
)

-- The manager answers a request for a name as the breaker of that name does, a new one with
-- threshold 5 and a timeout of 30 s where there is none; a request, a success or a failure
-- changes the breaker of its own name as it changes that breaker, and no other.
manager_isolates :
    (breakers : Breakers) (name other : Text) (now : ℕ)
    → (manager_allow_request breakers name now).0 ≡ (allow_request (breaker_of breakers name) now).0
      × lookup other (manager_allow_request breakers name now).1 ≡ (
          if text_beq name other
          then some (step (breaker_of breakers name) (request now))
          else lookup other breakers)
      × lookup other (manager_record_success breakers name) ≡ (
          if text_beq name other
          then some (step (breaker_of breakers name) success)
          else lookup other breakers)
      × lookup other (manager_record_failure breakers name now) ≡ (
          if text_beq name other
          then some (step (breaker_of breakers name) (failure now))
          else lookup other breakers)
unfolding manager_allow_request manager_record_success manager_record_failure step
manager_isolates breakers name other now =
    let same = get_breaker_lem breakers name in
    rw (sym same) (
      refl,
      put-get breakers name other (allow_request (get_breaker breakers name).0 now).1,
      put-get breakers name other (record_success (get_breaker breakers name).0),
      put-get breakers name other (record_failure (get_breaker breakers name).0 now),
    )
