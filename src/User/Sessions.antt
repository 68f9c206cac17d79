-- ===== src/User/Sessions.antt =====
-- What a login leaves behind on each of its branches.
use nebula_im.Base.{
  ℕ, ◌<◌, ◌^◌, ◌≡◌, ◌≢◌, refl, sym, ap, ◌∙◌, Bool, true, false, not, ◌&&◌, ◌||◌, Option, none, some,
  ◌++◌, ◌==◌, length, ltb, if◌then◌else◌, ◌⊎◌, inl, inr, arith, Option-cases, Bool-cases,
}
use nebula_im.Base.Keys.{Text, text, text_beq, text_eq, beq_self, Collation}
use nebula_im.Base.Dict.{lookup, lookup-insert, lookup-erase}
use nebula_im.Base.Decimal.{to_string}
use nebula_im.Fault.ErrorCode.{ErrorCode, ok, db_error}
use nebula_im.User.Tables.{
  User, UserDevice, Store, get_user_by_username, user_named, get_device, upsert_device, is_blank,
  redis_set_ex, redis_del, put_device, with_times,
}
use nebula_im.User.Stoull.{stoull, stoull-to_string}
use nebula_im.User.Service.{
  Answers, LoginRequest, Session, token_key, refuse_login, drop_hash, drop_device_token, session_of,
  login_device, stored_device, bind_device, open_session, authenticate, login, token_value,
  validate_token, max_token_length,
}

-- Redis carries a deletion out.
redis_del-users : (b : Bool) (key : Text) (s : Store) → (redis_del b key s).users ≡ s.users
redis_del-users true key s = refl
redis_del-users false key s = refl

pub lookup-del : (key : Text) (s : Store) → lookup key (redis_del true key s).tokens ≡ none
lookup-del key s =
    lookup-erase key key s.tokens ∙ ap (λ t. if t then none else lookup key s.tokens) (beq_self key)

-- Deleting the token with another hash.
del_other :
    (b : Bool) (old_hash new_hash : Text) (s : Store)
    → text_beq old_hash new_hash ≡ false
    → lookup
        (text "nebula:token:" ++ new_hash)
        (redis_del b (text "nebula:token:" ++ old_hash) s).tokens
      ≡ lookup (text "nebula:token:" ++ new_hash) s.tokens
del_other true old_hash new_hash s h =
    lookup-erase (text "nebula:token:" ++ old_hash) (text "nebula:token:" ++ new_hash) s.tokens
    ∙ ap (λ t. if t then none else lookup (text "nebula:token:" ++ new_hash) s.tokens) h
del_other false old_hash new_hash s h = refl

-- The old token of a device is not the new one.
pub drop_hash-keeps :
    (a : Answers) (old_hash new_hash : Text) (s : Store)
    → (lookup (text "nebula:token:" ++ new_hash) (drop_hash a old_hash new_hash s).tokens
        ≡ lookup (text "nebula:token:" ++ new_hash) s.tokens)
      × ((drop_hash a old_hash new_hash s).users ≡ s.users)
unfolding drop_hash
drop_hash-keeps a old_hash new_hash s =
    elim (Bool-cases (is_blank old_hash || text_beq old_hash new_hash)) [
      | inl same ↦ rw (same, drop_hash) (refl, refl)
      | inr other ↦
          rw (other, drop_hash)
            (
              del_other a.deletes_device_token old_hash new_hash s (ground (arith, other)),
              redis_del-users a.deletes_device_token (text "nebula:token:" ++ old_hash) s,
            )
    ]

drop_device_token-keeps :
    (a : Answers) (d : Option UserDevice) (new_hash : Text) (s : Store)
    → (lookup (text "nebula:token:" ++ new_hash) (drop_device_token a d new_hash s).tokens
        ≡ lookup (text "nebula:token:" ++ new_hash) s.tokens)
      × ((drop_device_token a d new_hash s).users ≡ s.users)
drop_device_token-keeps a none new_hash s = (refl, refl)
drop_device_token-keeps a (some d) new_hash s = drop_hash-keeps a d.token_hash new_hash s

-- A row of a device is written or not.
pub upsert_device-cases :
    (collates : Collation) (b : Bool) (now : ℕ) (d : UserDevice) (s : Store)
    → (upsert_device collates b now d s ≡ none)
      ⊎ ((s' : Store) × (upsert_device collates b now d s ≡ some s')
          × (s'.tokens ≡ s.tokens)
          × (s'.users ≡ s.users))
unfolding upsert_device
upsert_device-cases collates b now d s =
    elim (Bool-cases ((d.user_id == 0) || is_blank d.device_id)) [
      | inl bad ↦ inl (rw (bad, upsert_device) refl)
      | inr good ↦ elim (Bool-cases b) [
        | inl yes_ ↦ inr (
          record s { devices = put_device collates (with_times now d) s.devices },
          rw (good, yes_, upsert_device) refl,
          refl,
          refl,
        )
        | inr no_ ↦ inl (rw (good, no_, upsert_device) refl)
      ]
    ]

-- Without a session the reply is an error, and the new token is no more in Redis than before;
-- with one, its token leads to a user that the database finds by that name and whose password is right.
abbrev pub Opened : Answers → LoginRequest → Store → ErrorCode × Option Session × Store → Type 0
Opened a req s (code, none, s') =
    (code ≢ ok)
    × (s'.users ≡ s.users)
    × ((lookup (token_key a a.token) s'.tokens ≡ lookup (token_key a a.token) s.tokens)
        ⊎ (lookup (token_key a a.token) s'.tokens ≡ none))
Opened a req s (code, some session, s') =
    (code ≡ ok)
    × (s'.users ≡ s.users)
    × (session.token ≡ a.token)
    × (lookup (token_key a a.token) s'.tokens ≡ some (to_string session.user_id))
    × ((u : User) × (user_named a.collates req.username s.users ≡ some u)
        × (a.verify_password req.password u.password_hash ≡ true)
        × (session.user_id ≡ u.id))

refuse_login-error :
    (a : Answers) (req : LoginRequest) (code : ErrorCode)
    → refuse_login a req ≡ some code
    → code ≢ ok
unfolding refuse_login
refuse_login-error a req code h = λ e. ground (arith, h, e)

-- The store where the new token leads to the user.
record Ready (a : Answers) (req : LoginRequest) (s : Store) (user_id : ℕ) (s1 : Store)
    : Type 0 where
  users : s1.users ≡ s.users
  token : lookup (token_key a a.token) s1.tokens ≡ some (to_string user_id)
  found :
      (u : User) × (user_named a.collates req.username s.users ≡ some u)
      × (a.verify_password req.password u.password_hash ≡ true)
      × (user_id ≡ u.id)

Ready-Opened :
    (a : Answers) (req : LoginRequest) (s : Store) (user_id : ℕ) (s1 : Store)
    → Ready a req s user_id s1
    → Opened a req s (ok, some (session_of a user_id), s1)
Ready-Opened a req s user_id s1 r = (refl, r.users, refl, r.token, r.found)

bound_device-Opened :
    (a : Answers) (req : LoginRequest) (s : Store) (user_id : ℕ) (s1 : Store)
    → a.deletes_token ≡ true
    → Ready a req s user_id s1
    → Opened a req s (
        stored_device a db_error s1
          (upsert_device a.collates a.writes_device a.db_now (login_device a req user_id) s1)
          (λ t. (ok, some (session_of a user_id), t)))
unfolding stored_device
bound_device-Opened a req s user_id s1 del r =
    elim (upsert_device-cases a.collates a.writes_device a.db_now (login_device a req user_id) s1) [
      | inl failed ↦
          rw (failed, del)
            (
              (λ e. cc),
              redis_del-users true (token_key a a.token) s1 ∙ r.users,
              inr (lookup-del (token_key a a.token) s1),
            )
      | inr (t, e, tokens, users) ↦ rw e (
          Ready-Opened a req s user_id t (record {
            users = users ∙ r.users;
            token = ap (lookup (token_key a a.token)) tokens ∙ r.token;
            found = r.found;
          }))
    ]

bind_device-Opened :
    (a : Answers) (req : LoginRequest) (s : Store) (user_id : ℕ) (s1 : Store)
    → a.deletes_token ≡ true
    → Ready a req s user_id s1
    → Opened a req s (bind_device a req user_id s1)
unfolding bind_device
bind_device-Opened a req s user_id s1 del r =
    let d = get_device a.collates a.reads_device user_id req.device_id s1 in
    let (token, users) = drop_device_token-keeps a d (a.sha256 a.token) s1 in
    elim (Bool-cases (a.has_device_dao && not (is_blank req.device_id))) [
      | inl with_device ↦
          rw (with_device, bind_device)
            (bound_device-Opened a req s user_id (drop_device_token a d (a.sha256 a.token) s1) del
              (record { users = users ∙ r.users; token = token ∙ r.token; found = r.found }))
      | inr without ↦ rw (without, bind_device) (Ready-Opened a req s user_id s1 r)
    ]

set_token-Ready :
    (a : Answers) (req : LoginRequest) (s : Store) (u : User)
    → user_named a.collates req.username s.users ≡ some u
    → a.verify_password req.password u.password_hash ≡ true
    → Ready a req s u.id (redis_set_ex true (token_key a a.token) (to_string u.id) s).1
set_token-Ready a req s u named right = record {
  users = refl;
  token =
      lookup-insert (token_key a a.token) (token_key a a.token) (to_string u.id) s.tokens
      ∙ ap (λ t. if t then some (to_string u.id) else lookup (token_key a a.token) s.tokens)
          (beq_self (token_key a a.token));
  found = (u, named, right, refl);
}

open_session-Opened :
    (a : Answers) (req : LoginRequest) (s : Store) (u : User)
    → a.deletes_token ≡ true
    → user_named a.collates req.username s.users ≡ some u
    → a.verify_password req.password u.password_hash ≡ true
    → Opened a req s (open_session a req u.id s)
unfolding open_session
open_session-Opened a req s u del named right = elim (Bool-cases (is_blank a.token)) [
  | inl blank ↦ rw (blank, open_session) ((λ e. cc), refl, inl refl)
  | inr token ↦ elim (Bool-cases a.sets_token) [
    | inl set ↦
        rw (token, set, open_session)
          (bind_device-Opened a req s u.id
            (redis_set_ex true (token_key a a.token) (to_string u.id) s).1 del
            (set_token-Ready a req s u named right))
    | inr unset ↦ rw (token, unset, open_session) ((λ e. cc), refl, inl refl)
  ]
]

-- The user that a login finds.
authenticate-cases :
    (a : Answers) (req : LoginRequest) (s : Store)
    → (authenticate a req.password (get_user_by_username a.collates a.reads_user req.username s)
        ≡ none)
      ⊎ ((u : User) × (authenticate a req.password
              (get_user_by_username a.collates a.reads_user req.username s)
            ≡ some u.id)
          × (user_named a.collates req.username s.users ≡ some u)
          × (a.verify_password req.password u.password_hash ≡ true))
unfolding authenticate get_user_by_username
authenticate-cases a req s = elim (Bool-cases a.reads_user) [
  | inr no_ ↦ inl (rw (no_, get_user_by_username) refl)
  | inl reads ↦ elim (Option-cases (user_named a.collates req.username s.users)) [
    | inl absent ↦ inl (rw (reads, absent, get_user_by_username) refl)
    | inr (u, named) ↦ elim (Bool-cases (a.verify_password req.password u.password_hash)) [
      | inl right ↦
          inr (u, rw (reads, named, right, get_user_by_username, authenticate) refl, named, right)
      | inr wrong ↦ inl (rw (reads, named, wrong, get_user_by_username, authenticate) refl)
    ]
  ]
]

-- However the database compares names, and whatever it and Redis do, as long as deletions of
-- the new token are carried out: Login without a session replies with an error, and Redis
-- leads from the new token where it did before or nowhere; with a session it replies OK, and
-- the new token leads to the id of the first user whose name the database takes for the
-- request's, and whose password hash verifies. The users stay as they were.
pub login-Opened :
    (a : Answers) (req : LoginRequest) (s : Store)
    → a.deletes_token ≡ true
    → Opened a req s (login a req s)
unfolding login
login-Opened a req s del = elim (Option-cases (refuse_login a req)) [
  | inr (code, refused) ↦
      rw (refused, login) (refuse_login-error a req code refused, refl, inl refl)
  | inl passed ↦ elim (authenticate-cases a req s) [
    | inl wrong ↦ rw (passed, wrong, login) ((λ e. cc), refl, inl refl)
    | inr (u, e, named, right) ↦
        rw (passed, e, login) (open_session-Opened a req s u del named right)
  ]
]

validate_token_valid :
    (v : Answers) (token : Text) (s : Store) (value : Text) (user_id : ℕ)
    → v.authorized ≡ true
    → v.has_redis ≡ true
    → v.reads_token ≡ true
    → (is_blank token || ltb max_token_length (length token)) ≡ false
    → lookup (token_key v token) s.tokens ≡ some value
    → stoull value ≡ some user_id
    → validate_token v token s ≡ (ok, true, user_id)
unfolding validate_token token_value
validate_token_valid v token s value user_id h1 h2 h3 h4 found read =
    rw (h1, h2, h4, h3, found, read, validate_token, token_value) refl

valid_session :
    (a v : Answers) (req : LoginRequest) (s : Store) (r : ErrorCode × Option Session × Store)
    (session : Session)
    → Opened a req s r
    → r.1 ≡ some session
    → session.user_id < 2 ^ 64
    → (is_blank a.token || ltb max_token_length (length a.token)) ≡ false
    → v.authorized ≡ true
    → v.has_redis ≡ true
    → v.reads_token ≡ true
    → v.sha256 ≡ a.sha256
    → validate_token v session.token r.2 ≡ (ok, true, session.user_id)
valid_session a v req s (code, none, s') session o e small fits h1 h2 h3 same = absurd (cc)
valid_session a v req s (code, some t, s') session (is_ok, users, token, stored, found) e small fits
      h1 h2 h3 same =
    let equal : t ≡ session = cc in
    let key : session.token ≡ a.token = ap (λ x. x.token) (sym equal) ∙ token in
    validate_token_valid v session.token s' (to_string session.user_id) session.user_id h1 h2 h3
      (ap (λ x. is_blank x || ltb max_token_length (length x)) key ∙ fits)
      (ap (λ x. lookup (text "nebula:token:" ++ x) s'.tokens)
          (ap v.sha256 key ∙ ap (λ f. f a.token) same)
        ∙ stored
        ∙ ap (λ x. some (to_string x.user_id)) equal)
      (stoull-to_string session.user_id small)

-- The token of a login that opens a session for a user whose id fits 64 bits is then valid
-- for exactly that user in ValidateToken of an authorized caller, if Redis answers, hashes
-- are the same, and the token is neither empty nor longer than 256 bytes. Redis carries
-- deletions out.
pub validate_token-login :
    (a v : Answers) (req : LoginRequest) (s : Store) (session : Session)
    → a.deletes_token ≡ true
    → (login a req s).1 ≡ some session
    → session.user_id < 2 ^ 64
    → (is_blank a.token || ltb max_token_length (length a.token)) ≡ false
    → v.authorized ≡ true
    → v.has_redis ≡ true
    → v.reads_token ≡ true
    → v.sha256 ≡ a.sha256
    → validate_token v session.token (login a req s).2 ≡ (ok, true, session.user_id)
validate_token-login a v req s session del e small fits h1 h2 h3 same =
    valid_session a v req s (login a req s) session (login-Opened a req s del) e small fits h1 h2 h3
      same
