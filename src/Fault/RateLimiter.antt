-- ===== src/Fault/RateLimiter.antt =====
-- common/ratelimit/RateLimiter.{h,cpp}. A token bucket, with its tokens in a `double`, is a state
-- `B` that is given with its constructor and its `allow`; times are seconds of the steady clock.
pub mod Bound
use nebula_im.Base.{
  ℕ, suc, ◌+◌, ◌%◌, ◌^◌, Bool, true, false, ◌||◌, Option, none, some, List, [], ◌∷◌, ◌++◌, length,
  ltb, leb, add_size, ◌==◌, if◌then◌else◌,
}
use nebula_im.Base.Keys.{Text, text, text_eq}
use nebula_im.Base.Dict.{Dict, lookup, insert, erase}
use nebula_im.Base.Decimal.{to_string}

pub record RateLimitConfig : Type 0 where
  pub enabled : Bool
  pub login_per_minute : ℕ
  pub message_per_second : ℕ
  pub connection_packet_per_second : ℕ
  pub max_bucket_count : ℕ
  pub bucket_idle_seconds : ℕ

-- `TokenBucket(capacity, refill)` at a time, the rate as a fraction; and `allow()` at a time.
pub record TokenBucket (B : Type 0) : Type 0 where
  pub make : ℕ → ℕ × ℕ → ℕ → B
  pub take_token : B → ℕ → Bool × B

pub record BucketEntry (B : Type 0) : Type 0 where
  pub bucket : B
  pub last_used : ℕ

pub record RateLimiter (B : Type 0) : Type 0 where
  pub config : RateLimitConfig
  pub buckets : Dict Text (BucketEntry B)
  pub operation_count : ℕ

module _ {B : Type 0} (tokens : TokenBucket B) where
  open tokens use {make, take_token}

  unfoldable pub prune : ℕ → ℕ → Dict Text (BucketEntry B) → Dict Text (BucketEntry B)
  prune now idle_limit [] = []
  prune now idle_limit ((key, entry) ∷ buckets) =
      let rest = prune now idle_limit buckets in
      if leb (entry.last_used + idle_limit) now then rest else (key, entry) ∷ rest

  -- `++operation_count_`, and the pruning that is due.
  unfoldable pub pruned : RateLimiter B → ℕ → RateLimiter B
  pruned l now =
      let count = add_size l.operation_count 1 in
      if (count % 256 == 0) || leb l.config.max_bucket_count (length l.buckets)
      then record l {
        operation_count = count;
        buckets = prune now l.config.bucket_idle_seconds l.buckets;
      }
      else record l { operation_count = count }

  abbrev pub used : RateLimiter B → Text → ℕ → Bool × B → Bool × RateLimiter B
  used l key now (answer, bucket) = (
    answer,
    record l { buckets = insert key (record { bucket = bucket; last_used = now }) l.buckets },
  )

  unfoldable pub admit : RateLimiter B → Text → ℕ → ℕ × ℕ → ℕ → Bool × RateLimiter B
  admit l key capacity rate now = elim (lookup key l.buckets) [
    | some entry ↦ used l key now (take_token entry.bucket now)
    | none ↦
        if leb l.config.max_bucket_count (length l.buckets)
        then (false, l)
        else used l key now (take_token (make capacity rate now) now)
  ]

  unfoldable pub allow : RateLimiter B → Text → ℕ → ℕ × ℕ → ℕ → Bool × RateLimiter B
  allow l key capacity rate now = admit (pruned l now) key capacity rate now

  unfoldable pub allow_login : RateLimiter B → Text → ℕ → Bool × RateLimiter B
  allow_login l ip now =
      if l.config.enabled
      then allow l (text "login:" ++ ip) l.config.login_per_minute (l.config.login_per_minute, 60)
          now
      else (true, l)

  unfoldable pub allow_message : RateLimiter B → ℕ → ℕ → Bool × RateLimiter B
  allow_message l user_id now =
      if l.config.enabled
      then allow l (text "message:" ++ to_string user_id) l.config.message_per_second
          (l.config.message_per_second, 1) now
      else (true, l)

  unfoldable pub allow_packet : RateLimiter B → Text → ℕ → Bool × RateLimiter B
  allow_packet l connection_id now =
      if l.config.enabled
      then allow l (text "packet:" ++ connection_id) l.config.connection_packet_per_second
          (l.config.connection_packet_per_second, 1) now
      else (true, l)

  unfoldable pub clear_connection : RateLimiter B → Text → RateLimiter B
  clear_connection l connection_id = record l {
    buckets = erase (text "packet:" ++ connection_id) l.buckets;
  }
