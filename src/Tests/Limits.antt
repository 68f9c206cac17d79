-- ===== src/Tests/Limits.antt =====
-- A limiter with room for one bucket, whose buckets count the tokens that are left.
use nebula_im.Base.{ℕ, zero, suc, Bool, true, false, List, [], ◌∷◌, arith, refl}
use nebula_im.Base.Keys.{text}
use nebula_im.Fault.RateLimiter.{RateLimitConfig, TokenBucket, RateLimiter}
use nebula_im.Fault.RateLimiter.Bound.{
  Call, login, message, packet, clear, serve_all, IsBounded, serve_all-IsBounded,
}

abbrev spend : ℕ → ℕ → Bool × ℕ
spend zero now = (false, zero)
spend (suc left) now = (true, left)

abbrev counting : TokenBucket ℕ
counting = record { make = λ capacity rate now. capacity; take_token = spend }

abbrev narrow : RateLimitConfig
narrow = record {
  enabled = true;
  login_per_minute = 2;
  message_per_second = 3;
  connection_packet_per_second = 5;
  max_bucket_count = 1;
  bucket_idle_seconds = 600;
}

abbrev unused : RateLimiter ℕ
unused = record { config = narrow; buckets = []; operation_count = 0 }

abbrev calls : List (Call counting)
calls = login (text "ip") 1 ∷ message 7 2 ∷ packet (text "c") 700 ∷ clear (text "c") ∷ []

serve_all-IsBounded_example : IsBounded counting narrow (serve_all counting unused calls)
serve_all-IsBounded_example =
    serve_all-IsBounded counting narrow unused calls (record { same = refl; within = omega arith })
