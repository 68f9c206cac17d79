-- ===== src/User/Tables.antt =====
-- common/dao/UserDao.{h,cpp} and DeviceDao.{h,cpp} over lists of rows, and the session tokens in
-- Redis. A Boolean argument tells whether the database or Redis carries a statement out; one that
-- it does not carry out has no effect. A token that expires is an erased one. Texts in the database
-- are equal as its collation takes them to be (deploy/docker-compose.yml), which is an argument:
-- `collates s t` is `s = t` in SQL. Keys of Redis are equal byte by byte.
use nebula_im.Base.{
  ℕ, suc, ◌+◌, Bool, true, false, ◌&&◌, ◌||◌, Option, none, some, List, [], ◌∷◌, ◌==◌,
  if◌then◌else◌, ltb,
}
use nebula_im.Base.Keys.{Text, text_eq, Collation}
use nebula_im.Base.Dict.{Dict, lookup, insert, erase}

pub record User : Type 0 where
  pub id : ℕ
  pub username : Text
  pub password_hash : Text
  pub nickname : Text
  pub avatar : Text
  pub created_at : ℕ
  pub updated_at : ℕ

pub record UserDevice : Type 0 where
  pub user_id : ℕ
  pub device_id : Text
  pub platform : Text
  pub device_name : Text
  pub token_hash : Text
  pub last_login_at : ℕ
  pub last_active_at : ℕ
  pub created_at : ℕ
  pub updated_at : ℕ

-- `next_id` is the next value of the users' AUTO_INCREMENT column, which steps by 1.
pub record Store : Type 0 where
  pub users : List User
  pub next_id : ℕ
  pub devices : List UserDevice
  pub tokens : Dict Text Text

unfoldable pub user_named : Collation → Text → List User → Option User
user_named collates username [] = none
user_named collates username (u ∷ users) =
    if collates u.username username then some u else user_named collates username users

unfoldable pub user_with_id : ℕ → List User → Option User
user_with_id user_id [] = none
user_with_id user_id (u ∷ users) = if u.id == user_id then some u else user_with_id user_id users

unfoldable pub get_user_by_username : Collation → Bool → Text → Store → Option User
unfolding user_named
get_user_by_username collates ok username s =
    if ok then user_named collates username s.users else none

unfoldable pub get_user_by_id : Bool → ℕ → Store → Option User
unfolding user_with_id
get_user_by_id ok user_id s = if ok then user_with_id user_id s.users else none

-- The INSERT gives the new row's id, or fails, as it does on a name that is taken. A failed INSERT
-- may take values of the AUTO_INCREMENT column, `skipped` of them.
abbrev pub failed_insert : ℕ → Store → Option ℕ × Store
failed_insert skipped s = (none, record s { next_id = s.next_id + skipped })

unfoldable pub create_user : Collation → Bool → ℕ → User → Store → Option ℕ × Store
unfolding user_named
create_user collates ok skipped user s = elim (user_named collates user.username s.users) [
  | some u ↦ failed_insert skipped s
  | none ↦
      if ok
      then (
        some s.next_id,
        record s { users = (record user { id = s.next_id }) ∷ s.users; next_id = suc s.next_id },
      )
      else failed_insert skipped s
]

abbrev pub is_device : Collation → ℕ → Text → UserDevice → Bool
is_device collates user_id device_id d = (d.user_id == user_id) && collates d.device_id device_id

unfoldable pub find_device : Collation → ℕ → Text → List UserDevice → Option UserDevice
find_device collates user_id device_id [] = none
find_device collates user_id device_id (d ∷ devices) =
    if is_device collates user_id device_id d
    then some d
    else find_device collates user_id device_id devices

abbrev pub is_blank : Text → Bool
is_blank [] = true
is_blank (c ∷ t) = false

unfoldable pub get_device : Collation → Bool → ℕ → Text → Store → Option UserDevice
unfolding find_device
get_device collates ok user_id device_id s =
    if (user_id == 0) || is_blank device_id
    then none
    else if ok
    then find_device collates user_id device_id s.devices
    else none

-- The row where the key is there already: ON DUPLICATE KEY UPDATE keeps the key, as the row spells
-- it, and `created_at`.
abbrev pub updated : UserDevice → UserDevice → UserDevice
updated old d = record d { device_id = old.device_id; created_at = old.created_at }

unfoldable pub put_device : Collation → UserDevice → List UserDevice → List UserDevice
put_device collates d [] = d ∷ []
put_device collates d (e ∷ devices) =
    if is_device collates d.user_id d.device_id e
    then updated e d ∷ devices
    else e ∷ put_device collates d devices

abbrev pub at_least : ℕ → ℕ → ℕ
at_least time fallback = if ltb 0 time then time else fallback

-- The times that are not positive are filled in.
abbrev pub with_times : ℕ → UserDevice → UserDevice
with_times now d =
    let login_at = at_least d.last_login_at now in
    record d {
      last_login_at = login_at;
      last_active_at = at_least d.last_active_at login_at;
      created_at = at_least d.created_at now;
      updated_at = at_least d.updated_at now;
    }

unfoldable pub upsert_device : Collation → Bool → ℕ → UserDevice → Store → Option Store
unfolding put_device
upsert_device collates ok now d s =
    if (d.user_id == 0) || is_blank d.device_id
    then none
    else if ok
    then some (record s { devices = put_device collates (with_times now d) s.devices })
    else none

-- Redis: `get`, `setEx` and `del` on the tokens.
abbrev pub redis_get : Bool → Text → Store → Option Text
redis_get ok key s = if ok then lookup key s.tokens else none

abbrev pub redis_set_ex : Bool → Text → Text → Store → Bool × Store
redis_set_ex true key value s = (true, record s { tokens = insert key value s.tokens })
redis_set_ex false key value s = (false, s)

abbrev pub redis_del : Bool → Text → Store → Store
redis_del true key s = record s { tokens = erase key s.tokens }
redis_del false key s = s
