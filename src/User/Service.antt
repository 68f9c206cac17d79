-- ===== src/User/Service.antt =====
-- user_service/src/UserServiceImpl.cpp. A handler returns the reply's code with the fields that it
-- sets, and the store. The texts of the replies and the metrics are left out.
use nebula_im.Base.{
  ℕ, ◌%◌, ◌^◌, Bool, true, false, not, ◌&&◌, ◌||◌, Option, none, some, [], ◌++◌, length, ltb, leb,
  ◌==◌, if◌then◌else◌,
}
use nebula_im.Base.Keys.{Text, text, text_beq, Collation}
use nebula_im.Base.Decimal.{to_string}
use nebula_im.Fault.ErrorCode.{
  ErrorCode, ok, auth_failed, internal_error, invalid_argument, username_empty, password_empty,
  password_too_short, user_already_exists, user_not_found, db_error, redis_error, token_invalid,
}
use nebula_im.User.Tables.{
  User, UserDevice, Store, get_user_by_username, get_user_by_id, create_user, get_device,
  upsert_device, is_blank, redis_get, redis_set_ex, redis_del,
}
use nebula_im.User.Stoull.{stoull}

abbrev pub max_username_length : ℕ
max_username_length = 64

abbrev pub max_password_length : ℕ
max_password_length = 256

abbrev pub max_nickname_length : ℕ
max_nickname_length = 64

abbrev pub max_device_id_length : ℕ
max_device_id_length = 128

abbrev pub max_platform_length : ℕ
max_platform_length = 32

abbrev pub max_device_name_length : ℕ
max_device_name_length = 128

abbrev pub max_token_length : ℕ
max_token_length = 256

pub record RegisterRequest : Type 0 where
  pub username : Text
  pub password : Text
  pub nickname : Text

pub record LoginRequest : Type 0 where
  pub username : Text
  pub password : Text
  pub device_id : Text
  pub platform : Text
  pub device_name : Text

-- What the service was made with, and what it asks of other components: the authorization of the
-- caller, OpenSSL's hashes and random tokens, the clocks, how the database compares texts, whether
-- each statement is carried out, and how many ids a failed INSERT takes. `sha256` is the hex text of
-- a hash.
pub record Answers : Type 0 where
  pub authorized : Bool
  pub has_user_dao : Bool
  pub has_redis : Bool
  pub has_device_dao : Bool
  pub password_min_length : ℕ
  pub password_hash : Text
  pub verify_password : Text → Text → Bool
  pub sha256 : Text → Text
  pub token : Text
  pub now : ℕ
  pub db_now : ℕ
  pub expire_at : ℕ
  pub collates : Collation
  pub skipped_ids : ℕ
  pub reads_user : Bool
  pub reads_user_again : Bool
  pub creates_user : Bool
  pub reads_token : Bool
  pub sets_token : Bool
  pub reads_device : Bool
  pub writes_device : Bool
  pub deletes_device_token : Bool
  pub deletes_token : Bool

abbrev pub token_key : Answers → Text → Text
token_key a token = text "nebula:token:" ++ a.sha256 token

-- The constructor's default.
abbrev pub min_length : ℕ → ℕ
min_length n = if ltb 0 n then n else 6

-- `static_cast<int>(size) < password_min_length_`: a size from 2^31 on is negative.
abbrev pub is_too_short : ℕ → ℕ → Bool
is_too_short size least = leb (2 ^ 31) (size % 2 ^ 32) || ltb (size % 2 ^ 32) (min_length least)

unfoldable pub refuse_register : Answers → RegisterRequest → Option ErrorCode
refuse_register a req =
    if not a.authorized
    then some auth_failed
    else if not a.has_user_dao
    then some internal_error
    else if is_blank req.username
    then some username_empty
    else if is_blank req.password
    then some password_empty
    else if is_too_short (length req.password) a.password_min_length
    then some password_too_short
    else if ltb max_username_length (length req.username)
        || (ltb max_password_length (length req.password)
            || ltb max_nickname_length (length req.nickname))
    then some invalid_argument
    else none

abbrev pub is_found {ℓ} : {A : Type ℓ} → Option A → Bool
is_found none = false
is_found (some x) = true

abbrev pub new_user : Answers → RegisterRequest → User
new_user a req = record {
  id = 0;
  username = req.username;
  password_hash = a.password_hash;
  nickname = req.nickname;
  avatar = [];
  created_at = a.now;
  updated_at = a.now;
}

-- The reply to an INSERT.
unfoldable pub created : Answers → Text → Option ℕ × Store → ErrorCode × ℕ × Store
created a username (none, s) =
    if is_found (get_user_by_username a.collates a.reads_user_again username s)
    then (user_already_exists, 0, s)
    else (db_error, 0, s)
created a username (some user_id, s) = (ok, user_id, s)

-- Behind the guards.
unfoldable pub enroll : Answers → RegisterRequest → Store → ErrorCode × ℕ × Store
unfolding created
enroll a req s =
    if is_found (get_user_by_username a.collates a.reads_user req.username s)
    then (user_already_exists, 0, s)
    else if is_blank a.password_hash
    then (internal_error, 0, s)
    else created a req.username
        (create_user a.collates a.creates_user a.skipped_ids (new_user a req) s)

unfoldable pub register : Answers → RegisterRequest → Store → ErrorCode × ℕ × Store
unfolding enroll refuse_register
register a req s = elim (refuse_register a req) [ some code ↦ (code, 0, s) | none ↦ enroll a req s ]

-- A new session in a reply.
pub record Session : Type 0 where
  pub user_id : ℕ
  pub token : Text
  pub expire_at : ℕ

unfoldable pub refuse_login : Answers → LoginRequest → Option ErrorCode
refuse_login a req =
    if not a.authorized
    then some auth_failed
    else if not (a.has_user_dao && a.has_redis)
    then some internal_error
    else if is_blank req.username
    then some username_empty
    else if is_blank req.password
    then some password_empty
    else if ltb max_username_length (length req.username)
        || (ltb max_password_length (length req.password)
            || (ltb max_device_id_length (length req.device_id)
                || (ltb max_platform_length (length req.platform)
                    || ltb max_device_name_length (length req.device_name))))
    then some invalid_argument
    else none

-- `del` of the token with a hash, unless the hash is empty or the new one.
unfoldable pub drop_hash : Answers → Text → Text → Store → Store
drop_hash a old_hash new_hash s =
    if is_blank old_hash || text_beq old_hash new_hash
    then s
    else redis_del a.deletes_device_token (text "nebula:token:" ++ old_hash) s

-- The token that the device had.
abbrev pub drop_device_token : Answers → Option UserDevice → Text → Store → Store
drop_device_token a none new_hash s = s
drop_device_token a (some d) new_hash s = drop_hash a d.token_hash new_hash s

abbrev pub session_of : Answers → ℕ → Session
session_of a user_id = record { user_id = user_id; token = a.token; expire_at = a.expire_at }

abbrev pub login_device : Answers → LoginRequest → ℕ → UserDevice
login_device a req user_id = record {
  user_id = user_id;
  device_id = req.device_id;
  platform = req.platform;
  device_name = req.device_name;
  token_hash = a.sha256 a.token;
  last_login_at = a.now;
  last_active_at = a.now;
  created_at = a.now;
  updated_at = a.now;
}

-- The reply to the device's row; a new token is taken back where it failed, with the code.
unfoldable pub stored_device :
    Answers
    → ErrorCode
    → Store
    → Option Store
    → (Store → ErrorCode × Option Session × Store)
    → ErrorCode × Option Session × Store
stored_device a code s none next = (code, none, redis_del a.deletes_token (token_key a a.token) s)
stored_device a code s (some s') next = next s'

-- The device of a login whose token is set.
unfoldable pub bind_device : Answers → LoginRequest → ℕ → Store → ErrorCode × Option Session × Store
unfolding drop_hash stored_device
bind_device a req user_id s =
    if a.has_device_dao && not (is_blank req.device_id)
    then (let s' =
          drop_device_token a (get_device a.collates a.reads_device user_id req.device_id s)
            (a.sha256 a.token) s in
        stored_device a db_error s'
          (upsert_device a.collates a.writes_device a.db_now (login_device a req user_id) s')
          (λ t. (ok, some (session_of a user_id), t)))
    else (ok, some (session_of a user_id), s)

unfoldable pub open_session :
    Answers → LoginRequest → ℕ → Store → ErrorCode × Option Session × Store
unfolding bind_device
open_session a req user_id s =
    if is_blank a.token
    then (internal_error, none, s)
    else (let (set, s') = redis_set_ex a.sets_token (token_key a a.token) (to_string user_id) s in
        if set then bind_device a req user_id s' else (redis_error, none, s'))

-- The user whose password is right.
unfoldable pub authenticate : Answers → Text → Option User → Option ℕ
authenticate a password none = none
authenticate a password (some u) =
    if a.verify_password password u.password_hash then some u.id else none

unfoldable pub login : Answers → LoginRequest → Store → ErrorCode × Option Session × Store
unfolding refuse_login authenticate open_session
login a req s = elim (refuse_login a req) [
  | some code ↦ (code, none, s)
  | none ↦
      elim (authenticate a req.password
        (get_user_by_username a.collates a.reads_user req.username s)) [
          | none ↦ (auth_failed, none, s)
          | some user_id ↦ open_session a req user_id s
        ]
]

-- The reply to a value of Redis.
unfoldable pub token_value : Option Text → ErrorCode × Bool × ℕ
token_value none = (ok, false, 0)
token_value (some value) = elim (stoull value) [
  | none ↦ (token_invalid, false, 0)
  | some user_id ↦ (ok, true, user_id)
]

-- The code, whether the token is valid, and its user.
unfoldable pub validate_token : Answers → Text → Store → ErrorCode × Bool × ℕ
unfolding token_value
validate_token a token s =
    if not a.authorized
    then (auth_failed, false, 0)
    else if not a.has_redis
    then (internal_error, false, 0)
    else if is_blank token || ltb max_token_length (length token)
    then (token_invalid, false, 0)
    else token_value (redis_get a.reads_token (token_key a token) s)

abbrev pub found_user : Option User → ErrorCode × Option User
found_user none = (user_not_found, none)
found_user (some u) = (ok, some u)

unfoldable pub get_user_info : Answers → ℕ → Store → ErrorCode × Option User
get_user_info a user_id s =
    if not a.authorized
    then (auth_failed, none)
    else if not a.has_user_dao
    then (internal_error, none)
    else if user_id == 0
    then (invalid_argument, none)
    else found_user (get_user_by_id a.reads_user user_id s)

unfoldable pub get_user_info_by_username : Answers → Text → Store → ErrorCode × Option User
get_user_info_by_username a username s =
    if not a.authorized
    then (auth_failed, none)
    else if not a.has_user_dao
    then (internal_error, none)
    else if is_blank username
    then (username_empty, none)
    else if ltb max_username_length (length username)
    then (invalid_argument, none)
    else found_user (get_user_by_username a.collates a.reads_user username s)
