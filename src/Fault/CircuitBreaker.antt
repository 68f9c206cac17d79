-- ===== src/Fault/CircuitBreaker.antt =====
-- common/circuitbreaker. Each method of a breaker runs under its mutex, so it is one step here,
-- with the time that it reads as an argument (the steady clock's, in ms, not below 0).
pub mod Laws
use nebula_im.Base.{
  ℕ, suc, ◌-◌, ◌+◌, Bool, true, false, ◌||◌, ◌≡◌, ◌≢◌, refl, ap, ◌≤◌, ◌<◌, Option, none, some, ltb,
  leb, add_size, ◌==◌, if◌then◌else◌, arith, Option-cases, inl, inr, Bool-cases,
}
use nebula_im.Base.Keys.{Text, text, text_eq, beq_self, text_beq, text_beq_iff}
use nebula_im.Base.Dict.{Dict, lookup, insert, lookup-insert}

pub data CircuitBreakerState : Type 0 where
  closed : CircuitBreakerState
  opened : CircuitBreakerState
  half_open : CircuitBreakerState

pub record CircuitBreaker : Type 0 where
  pub failure_threshold : ℕ
  pub open_timeout_ms : ℕ
  pub state : CircuitBreakerState
  pub failure_count : ℕ
  pub opened_at_ms : ℕ

-- A timeout that is not positive is 0 here.
unfoldable pub init : ℕ → ℕ → CircuitBreaker
init failure_threshold open_timeout_ms = record {
  failure_threshold = if failure_threshold == 0 then 1 else failure_threshold;
  open_timeout_ms = if open_timeout_ms == 0 then 30000 else open_timeout_ms;
  state = closed;
  failure_count = 0;
  opened_at_ms = 0;
}

abbrev pub tried : CircuitBreakerState → ℕ → CircuitBreaker → Bool × CircuitBreaker
tried closed now b = (true, b)
tried half_open now b = (true, b)
tried opened now b =
    if leb (b.opened_at_ms + b.open_timeout_ms) now
    then (true, record b { state = half_open })
    else (false, b)

-- `now - opened >= timeout` on signed numbers, as a sum.
unfoldable pub allow_request : CircuitBreaker → ℕ → Bool × CircuitBreaker
allow_request b now = tried b.state now b

unfoldable pub record_success : CircuitBreaker → CircuitBreaker
record_success b = record b { state = closed; failure_count = 0; opened_at_ms = 0 }

abbrev pub is_half_open : CircuitBreakerState → Bool
is_half_open closed = false
is_half_open opened = false
is_half_open half_open = true

unfoldable pub record_failure : CircuitBreaker → ℕ → CircuitBreaker
record_failure b now =
    let failures = add_size b.failure_count 1 in
    if is_half_open b.state || leb b.failure_threshold failures
    then record b { failure_count = failures; state = opened; opened_at_ms = now }
    else record b { failure_count = failures }

unfoldable pub circuit_breaker_state_to_string : CircuitBreakerState → Text
circuit_breaker_state_to_string closed = text "CLOSED"
circuit_breaker_state_to_string opened = text "OPEN"
circuit_breaker_state_to_string half_open = text "HALF_OPEN"

-- The manager's breakers by name.
abbrev pub Breakers : Type 0
Breakers = Dict Text CircuitBreaker

unfoldable pub get_breaker : Breakers → Text → CircuitBreaker × Breakers
get_breaker breakers name = elim (lookup name breakers) [
  | none ↦ (init 5 30000, insert name (init 5 30000) breakers)
  | some b ↦ (b, breakers)
]

unfoldable pub manager_allow_request : Breakers → Text → ℕ → Bool × Breakers
manager_allow_request breakers name now =
    let (b, breakers') = get_breaker breakers name in
    let (answer, b') = allow_request b now in (answer, insert name b' breakers')

unfoldable pub manager_record_success : Breakers → Text → Breakers
manager_record_success breakers name =
    let (b, breakers') = get_breaker breakers name in insert name (record_success b) breakers'

unfoldable pub manager_record_failure : Breakers → Text → ℕ → Breakers
manager_record_failure breakers name now =
    let (b, breakers') = get_breaker breakers name in insert name (record_failure b now) breakers'
