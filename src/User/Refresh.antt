-- ===== src/User/Refresh.antt =====
-- user_service/src/UserServiceImpl.cpp, `RefreshToken`.
use nebula_im.Base.{ℕ, not, ◌&&◌, ◌||◌, Option, none, some, [], length, ltb, if◌then◌else◌}
use nebula_im.Base.Keys.{Text}
use nebula_im.Base.Decimal.{to_string}
use nebula_im.Fault.ErrorCode.{
  ErrorCode, ok, auth_failed, internal_error, token_invalid, token_refresh_failed,
}
use nebula_im.User.Tables.{
  UserDevice, Store, get_device, upsert_device, is_blank, redis_get, redis_set_ex, redis_del,
}
use nebula_im.User.Stoull.{stoull}
use nebula_im.User.Service.{
  Answers, Session, token_key, max_token_length, max_device_id_length, drop_hash, session_of,
  stored_device,
}

unfoldable pub refuse_refresh : Answers → Text → Text → Option ErrorCode
refuse_refresh a token device_id =
    if not a.authorized
    then some auth_failed
    else if not a.has_redis
    then some internal_error
    else if is_blank token
        || (ltb max_token_length (length token) || ltb max_device_id_length (length device_id))
    then some token_invalid
    else none

-- The tokens that the new one takes the place of.
unfoldable pub retire : Answers → Text → Text → ℕ → Store → ErrorCode × Option Session × Store
retire a token old_hash user_id s = (
  ok,
  some (session_of a user_id),
  redis_del a.deletes_token (token_key a token) (drop_hash a old_hash (a.sha256 a.token) s),
)

abbrev pub refreshed_device : Answers → UserDevice → UserDevice
refreshed_device a d = record d {
  token_hash = a.sha256 a.token;
  last_active_at = a.now;
  updated_at = a.now;
}

-- The device's row, if there is one.
unfoldable pub move_device :
    Answers → Text → ℕ → Option UserDevice → Store → ErrorCode × Option Session × Store
unfolding retire
move_device a token user_id none s = retire a token [] user_id s
move_device a token user_id (some d) s =
    stored_device a token_refresh_failed s
      (upsert_device a.collates a.writes_device a.db_now (refreshed_device a d) s)
      (retire a token d.token_hash user_id)

unfoldable pub renew : Answers → Text → Text → ℕ → Store → ErrorCode × Option Session × Store
unfolding move_device
renew a token device_id user_id s =
    if is_blank a.token
    then (token_refresh_failed, none, s)
    else (let (set, s') = redis_set_ex a.sets_token (token_key a a.token) (to_string user_id) s in
        if set
        then move_device a token user_id
            (if a.has_device_dao && not (is_blank device_id)
              then get_device a.collates a.reads_device user_id device_id s'
              else none)
            s'
        else (token_refresh_failed, none, s'))

-- The reply to a value of Redis.
unfoldable pub renew_value :
    Answers → Text → Text → Option Text → Store → ErrorCode × Option Session × Store
unfolding renew
renew_value a token device_id none s = (token_refresh_failed, none, s)
renew_value a token device_id (some value) s = elim (stoull value) [
  | none ↦ (token_invalid, none, s)
  | some user_id ↦ renew a token device_id user_id s
]

unfoldable pub refresh_token : Answers → Text → Text → Store → ErrorCode × Option Session × Store
unfolding refuse_refresh renew_value
refresh_token a token device_id s = elim (refuse_refresh a token device_id) [
  | some code ↦ (code, none, s)
  | none ↦ renew_value a token device_id (redis_get a.reads_token (token_key a token) s) s
]
