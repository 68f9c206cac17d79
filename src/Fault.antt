-- ===== src/Fault.antt =====
-- What the services answer and do when something fails: common/error, common/circuitbreaker,
-- common/ratelimit.
pub mod ErrorCode
pub mod CircuitBreaker
pub mod RateLimiter
