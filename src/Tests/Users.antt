-- ===== src/Tests/Users.antt =====
-- User 7, "ann", logs in as "ANN", is validated and refreshes the token; "bob" registers. The
-- database compares names without regard to case.
use nebula_im.Base.{
  ℕ, ◌+◌, ◌≡◌, ◌≢◌, refl, ap, true, false, ◌&&◌, some, [], ◌∷◌, map, leb, if◌then◌else◌, arith,
}
use nebula_im.Base.Keys.{text, text_beq, text_eq, Collation}
use nebula_im.Fault.ErrorCode.{ok}
use nebula_im.User.Tables.{User, Store, get_user_by_username, upsert_device}
use nebula_im.User.Service.{
  Answers, RegisterRequest, LoginRequest, Session, token_key, login, validate_token,
}
use nebula_im.User.Refresh.{refresh_token}
use nebula_im.User.Sessions.{Opened, login-Opened, validate_token-login}
use nebula_im.User.Renewals.{Renewed, refresh_token-Renewed}

abbrev ann : User
ann = record {
  id = 7;
  username = text "ann";
  password_hash = text "hash";
  nickname = [];
  avatar = [];
  created_at = 1;
  updated_at = 1;
}

abbrev one_account : Store
one_account = record { users = ann ∷ []; next_id = 8; devices = []; tokens = [] }

abbrev lower : ℕ → ℕ
lower c = if leb 65 c && leb c 90 then c + 32 else c

abbrev same_letters : Collation
same_letters s t = text_beq (map lower s) (map lower t)

abbrev working : Answers
working = record {
  authorized = true;
  has_user_dao = true;
  has_redis = true;
  has_device_dao = true;
  password_min_length = 6;
  password_hash = text "hash";
  verify_password = λ password hash. true;
  sha256 = λ t. t;
  token = text "t2";
  now = 10;
  db_now = 11;
  expire_at = 99;
  collates = same_letters;
  skipped_ids = 1;
  reads_user = true;
  reads_user_again = true;
  creates_user = true;
  reads_token = true;
  sets_token = true;
  reads_device = true;
  writes_device = true;
  deletes_device_token = true;
  deletes_token = true;
}

abbrev ann_on_phone : LoginRequest
ann_on_phone = record {
  username = text "ANN";
  password = text "secret";
  device_id = text "phone";
  platform = [];
  device_name = [];
}

login-Opened_example :
    Opened working ann_on_phone one_account (login working ann_on_phone one_account)
login-Opened_example = login-Opened working ann_on_phone one_account refl

abbrev session : Session
session = record { user_id = 7; token = text "t2"; expire_at = 99 }

logs_in : (login working ann_on_phone one_account).1 ≡ some session
unfolding login get_user_by_username upsert_device
logs_in = refl

validate_token-login_example :
    validate_token working (text "t2") (login working ann_on_phone one_account).2 ≡ (ok, true, 7)
validate_token-login_example =
    validate_token-login working working ann_on_phone one_account session refl logs_in (omega arith)
      refl refl refl refl refl

abbrev with_token : Store
with_token = record one_account { tokens = (token_key working (text "t1"), text "7") ∷ [] }

other_token : token_key working (text "t1") ≢ token_key working (text "t2")
other_token =
    λ e. let h : true ≡ false = ap (text_beq (token_key working (text "t1"))) e in ground (arith, h)

refresh_token-Renewed_example :
    Renewed working
      (text "t1")
      with_token
      (refresh_token working (text "t1") (text "phone") with_token)
refresh_token-Renewed_example =
    refresh_token-Renewed working (text "t1") (text "phone") with_token refl other_token

abbrev bob : RegisterRequest
bob = record { username = text "bob"; password = text "secret"; nickname = text "Bob" }
