-- ===== src/Fault/RateLimiter/Bound.antt =====
-- The number of buckets stays within its limit.
use nebula_im.Base.{
  true, false, if◌then◌else◌, Bool, ℕ, suc, ◌+◌, ◌%◌, ◌≤◌, ◌≡◌, ap, ◌||◌, some, List, [], ◌∷◌, ◌++◌,
  length, leb, add_size, ◌==◌, arith, Option-cases, Bool-cases, inl, inr,
}
use nebula_im.Base.Keys.{Text, text, text_eq, text_beq}
use nebula_im.Base.Dict.{Dict, lookup, insert, erase}
use nebula_im.Base.Decimal.{to_string}
use nebula_im.Fault.RateLimiter.{
  RateLimitConfig, TokenBucket, BucketEntry, RateLimiter, prune, pruned, admit, allow, allow_login,
  allow_message, allow_packet, clear_connection,
}

length-insert-known :
    {V : Type 0} (k : Text) (v w : V) (d : Dict Text V)
    → lookup k d ≡ some w
    → length (insert k v d) ≡ length d
unfolding lookup insert
length-insert-known k v w [] h = absurd (ground arith)
length-insert-known k v w ((j, x) ∷ d) h = elim (Bool-cases (text_beq j k)) [
  | inl here ↦ ground arith
  | inr there ↦
      let rest = length-insert-known k v w d (ground arith) in
      rw (there, insert) (omega (arith, rest))
]

length-insert-le :
    {V : Type 0} (k : Text) (v : V) (d : Dict Text V) → length (insert k v d) ≤ suc (length d)
unfolding insert
length-insert-le k v [] = omega arith
length-insert-le k v ((j, x) ∷ d) = elim (Bool-cases (text_beq j k)) [
  | inl here ↦ rw (here, insert) (omega arith)
  | inr there ↦ rw (there, insert) (omega (arith, length-insert-le k v d))
]

length-erase-le : {V : Type 0} (k : Text) (d : Dict Text V) → length (erase k d) ≤ length d
unfolding erase
length-erase-le k [] = omega arith
length-erase-le k ((j, x) ∷ d) = elim (Bool-cases (text_beq j k)) [
  | inl here ↦ rw (here, erase) (omega (arith, length-erase-le k d))
  | inr there ↦ rw (there, erase) (omega (arith, length-erase-le k d))
]

module _ {B : Type 0} (tokens : TokenBucket B) where
  -- Every request of a limiter, by its kind.
  pub data Call : Type 0 where
    login : Text → ℕ → Call
    message : ℕ → ℕ → Call
    packet : Text → ℕ → Call
    clear : Text → Call

  unfoldable pub serve : RateLimiter B → Call → RateLimiter B
  serve l (login ip now) = (allow_login tokens l ip now).1
  serve l (message user_id now) = (allow_message tokens l user_id now).1
  serve l (packet connection_id now) = (allow_packet tokens l connection_id now).1
  serve l (clear connection_id) = clear_connection tokens l connection_id

  unfoldable pub serve_all : RateLimiter B → List Call → RateLimiter B
  serve_all l [] = l
  serve_all l (c ∷ calls) = serve_all (serve l c) calls

  -- The limiter keeps its configuration and its limit.
  pub record IsBounded (config : RateLimitConfig) (l : RateLimiter B) : Type 0 where
    pub same : l.config ≡ config
    pub within : length l.buckets ≤ config.max_bucket_count

  length-prune :
      (now idle : ℕ) (d : Dict Text (BucketEntry B)) → length (prune tokens now idle d) ≤ length d
  unfolding prune
  length-prune now idle [] = omega arith
  length-prune now idle ((key, entry) ∷ d) = elim (Bool-cases (leb (entry.last_used + idle) now)) [
    | inl old ↦ rw (old, prune) (omega (arith, length-prune now idle d))
    | inr young ↦ rw (young, prune) (omega (arith, length-prune now idle d))
  ]

  pruned-IsBounded :
      (config : RateLimitConfig) (l : RateLimiter B) (now : ℕ)
      → IsBounded config l
      → IsBounded config (pruned tokens l now)
  unfolding pruned
  pruned-IsBounded config l now v =
      elim (Bool-cases (
        (add_size l.operation_count 1 % 256 == 0)
        || leb l.config.max_bucket_count (length l.buckets))) [
          | inl due ↦
              rw (due, pruned)
                (record {
                  same = v.same;
                  within =
                      omega
                        (arith, length-prune now l.config.bucket_idle_seconds l.buckets, v.within);
                })
          | inr early ↦ rw (early, pruned) (record { same = v.same; within = v.within })
        ]

  admit-IsBounded :
      (config : RateLimitConfig) (l : RateLimiter B) (key : Text) (capacity : ℕ) (rate : ℕ × ℕ)
      (now : ℕ)
      → IsBounded config l
      → IsBounded config (admit tokens l key capacity rate now).1
  unfolding admit
  admit-IsBounded config l key capacity rate now v = elim (Option-cases (lookup key l.buckets)) [
    | inr (entry, present) ↦
        rw (present, admit)
          (record {
            same = v.same;
            within = omega (
              arith,
              length-insert-known key
                  (record { bucket = (tokens.take_token entry.bucket now).1; last_used = now })
                  entry l.buckets present,
              v.within,
            );
          })
    | inl absent ↦ elim (Bool-cases (leb l.config.max_bucket_count (length l.buckets))) [
      | inl full ↦ rw (absent, full, admit) v
      | inr room ↦
          let limit = ap (λ (c : RateLimitConfig). c.max_bucket_count) v.same in
          let left : suc (length l.buckets) ≤ l.config.max_bucket_count = ground arith in
          rw (absent, room, admit)
            (record {
              same = v.same;
              within = omega (
                arith,
                length-insert-le key
                    (record {
                      bucket = (tokens.take_token (tokens.make capacity rate now) now).1;
                      last_used = now;
                    })
                    l.buckets,
                left,
                limit,
              );
            })
    ]
  ]

  allow-IsBounded :
      (config : RateLimitConfig) (l : RateLimiter B) (key : Text) (capacity : ℕ) (rate : ℕ × ℕ)
      (now : ℕ)
      → IsBounded config l
      → IsBounded config (allow tokens l key capacity rate now).1
  unfolding allow
  allow-IsBounded config l key capacity rate now v =
      admit-IsBounded config (pruned tokens l now) key capacity rate now
        (pruned-IsBounded config l now v)

  enabled-IsBounded :
      (config : RateLimitConfig) (l : RateLimiter B) (enabled : Bool) (r : Bool × RateLimiter B)
      → IsBounded config l
      → IsBounded config r.1
      → IsBounded config (if enabled then r else (true, l)).1
  enabled-IsBounded config l true r v w = w
  enabled-IsBounded config l false r v w = v

  serve-IsBounded :
      (config : RateLimitConfig) (l : RateLimiter B) (c : Call)
      → IsBounded config l
      → IsBounded config (serve l c)
  unfolding serve allow_login allow_message allow_packet clear_connection
  serve-IsBounded config l (login ip now) v =
      enabled-IsBounded config l l.config.enabled
        (allow tokens l (text "login:" ++ ip) l.config.login_per_minute
          (l.config.login_per_minute, 60) now)
        v
        (allow-IsBounded config l (text "login:" ++ ip) l.config.login_per_minute
          (l.config.login_per_minute, 60) now v)
  serve-IsBounded config l (message user_id now) v =
      enabled-IsBounded config l l.config.enabled
        (allow tokens l (text "message:" ++ to_string user_id) l.config.message_per_second
          (l.config.message_per_second, 1) now)
        v
        (allow-IsBounded config l (text "message:" ++ to_string user_id) l.config.message_per_second
          (l.config.message_per_second, 1) now v)
  serve-IsBounded config l (packet connection_id now) v =
      enabled-IsBounded config l l.config.enabled
        (allow tokens l (text "packet:" ++ connection_id) l.config.connection_packet_per_second
          (l.config.connection_packet_per_second, 1) now)
        v
        (allow-IsBounded config l (text "packet:" ++ connection_id)
          l.config.connection_packet_per_second (l.config.connection_packet_per_second, 1) now v)
  serve-IsBounded config l (clear connection_id) v = record {
    same = v.same;
    within = omega (arith, length-erase-le (text "packet:" ++ connection_id) l.buckets, v.within);
  }

  -- A limiter that has no more buckets than its configuration allows keeps to that, and to
  -- its configuration, through any logins, messages, packets and cleared connections,
  -- whatever the buckets answer.
  pub serve_all-IsBounded :
      (config : RateLimitConfig) (l : RateLimiter B) (calls : List Call)
      → IsBounded config l
      → IsBounded config (serve_all l calls)
  unfolding serve_all
  serve_all-IsBounded config l [] v = v
  serve_all-IsBounded config l (c ∷ calls) v =
      serve_all-IsBounded config (serve l c) calls (serve-IsBounded config l c v)
