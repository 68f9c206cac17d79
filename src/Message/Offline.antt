-- ===== src/Message/Offline.antt =====
-- common/dao/OfflineMessageDao.cpp, and `PullOfflineMessages` of
-- message_service/src/MessageServiceImpl.cpp. The rows are given in the order of the query, by time
-- and id. A status is a number that is not negative, and so is the limit of the options.
pub mod Again
pub mod Hex
use nebula_im.Base.{
  ℕ, suc, ◌+◌, ◌-◌, ◌*◌, ◌/◌, ◌%◌, ◌≡◌, bit_or, Bool, true, false, not, ◌&&◌, Option, none, some,
  List, [], ◌∷◌, map, length, take, get_or, ltb, leb, ◌==◌, if◌then◌else◌,
}
use nebula_im.Base.Keys.{Text, text}
use nebula_im.Fault.ErrorCode.{
  ErrorCode, ok, auth_failed, internal_error, invalid_argument, user_not_found, db_error,
}

unfoldable pub to_hex : Text → Text
to_hex [] = []
to_hex (ch ∷ bytes) =
    get_or (text "0123456789abcdef") (ch / 16) 0
    ∷ (get_or (text "0123456789abcdef") (ch % 16) 0 ∷ to_hex bytes)

unfoldable pub hex_value : ℕ → Option ℕ
hex_value c =
    if leb 48 c && leb c 57
    then some (c - 48)
    else if leb 97 c && leb c 102
    then some (c - 97 + 10)
    else if leb 65 c && leb c 70
    then some (c - 65 + 10)
    else none

abbrev pub joined : Option ℕ → Option ℕ → Option Text → Option Text
joined (some hi) (some lo) (some out) = some (bit_or (hi * 16) lo ∷ out)
joined (some hi) (some lo) none = none
joined (some hi) none out = none
joined none lo out = none

unfoldable pub from_digits : Text → Option Text
unfolding hex_value
from_digits [] = some []
from_digits (h ∷ []) = none
from_digits (h ∷ (l ∷ hex)) = joined (hex_value h) (hex_value l) (from_digits hex)

unfoldable pub from_hex : Text → Text
unfolding from_digits
from_hex hex =
    if not (length hex % 2 == 0) then [] else elim (from_digits hex) [ none ↦ [] | some out ↦ out ]

-- A row, with its payload in hexadecimal digits, and a message, with its payload's bytes.
pub record OfflineMessage : Type 0 where
  pub user_id : ℕ
  pub message_id : ℕ
  pub payload : Text
  pub status : ℕ
  pub created_at : ℕ
  pub updated_at : ℕ

unfoldable pub parse_offline : OfflineMessage → OfflineMessage
parse_offline r = record r { payload = from_hex r.payload }

abbrev pub is_pending : ℕ → OfflineMessage → Bool
is_pending user_id r = (r.user_id == user_id) && ltb r.status 2

unfoldable pub offline_rows : ℕ → List OfflineMessage → List OfflineMessage
offline_rows user_id [] = []
offline_rows user_id (r ∷ rows) =
    let rest = offline_rows user_id rows in if is_pending user_id r then r ∷ rest else rest

-- The Boolean tells whether the query is answered.
unfoldable pub list_offline_messages : Bool → ℕ → ℕ → List OfflineMessage → List OfflineMessage
list_offline_messages answers user_id limit rows =
    if answers then map parse_offline (take limit (offline_rows user_id rows)) else []

abbrev pub has_number : ℕ → List ℕ → Bool
has_number n [] = false
has_number n (m ∷ ns) = if n == m then true else has_number n ns

abbrev pub pulled : Bool → ℕ → OfflineMessage → OfflineMessage
pulled true now r = record r { status = 1; updated_at = now }
pulled false now r = r

abbrev pub pull_row : ℕ → List ℕ → ℕ → OfflineMessage → OfflineMessage
pull_row user_id message_ids now r =
    pulled (is_pending user_id r && has_number r.message_id message_ids) now r

-- `none` is a statement that failed.
unfoldable pub mark_batch_as_pulled :
    Bool → ℕ → List ℕ → ℕ → List OfflineMessage → Option (List OfflineMessage)
mark_batch_as_pulled works user_id [] now rows = some rows
mark_batch_as_pulled works user_id (i ∷ message_ids) now rows =
    if works then some (map (pull_row user_id (i ∷ message_ids) now) rows) else none

-- What the handler is given: `D` is a message that the payload's parser makes.
pub record PullAnswers (D : Type 0) : Type 0 where
  pub authorized : Bool
  pub valid_deps : Bool
  pub user_exists : Bool
  pub offline_pull_limit : ℕ
  pub deserialize : Text → Option D
  pub lists : Bool
  pub connects : Bool
  pub begins : Bool
  pub marks : Bool
  pub commits : Bool

pub record Pulled (D : Type 0) : Type 0 where
  pub code : ErrorCode
  pub messages : List D
  pub rows : List OfflineMessage

unfoldable pub pull_limit : ℕ → ℕ → ℕ
pull_limit most page_size =
    let limit = if page_size == 0 then most else page_size in if ltb most limit then most else limit

module _ {D : Type 0} where
  -- The messages that can be read, and their ids.
  abbrev pub read_one : Option D → ℕ → List D × List ℕ → List D × List ℕ
  read_one none id read = read
  read_one (some message) id read = (message ∷ read.0, id ∷ read.1)

  unfoldable pub read_all : (Text → Option D) → List OfflineMessage → List D × List ℕ
  read_all deserialize [] = ([], [])
  read_all deserialize (item ∷ offline) =
      read_one (deserialize item.payload) item.message_id (read_all deserialize offline)

  abbrev pub refuse_pull : ErrorCode → List OfflineMessage → Pulled D
  refuse_pull code rows = record { code = code; messages = []; rows = rows }

  -- The end of the transaction; a commit that fails has no effect.
  abbrev pub finish_pull :
      Bool → List D → Option (List OfflineMessage) → List OfflineMessage → Pulled D
  finish_pull commits messages none rows = refuse_pull db_error rows
  finish_pull true messages (some next) rows = record {
    code = ok;
    messages = messages;
    rows = next;
  }
  finish_pull false messages (some next) rows = refuse_pull db_error rows

  unfoldable pub pull_offline_messages : PullAnswers D → ℕ → ℕ → ℕ → List OfflineMessage → Pulled D
  unfolding list_offline_messages read_all mark_batch_as_pulled pull_limit
  pull_offline_messages a now user_id page_size rows =
      if not a.authorized
      then refuse_pull auth_failed rows
      else if not a.valid_deps
      then refuse_pull internal_error rows
      else if user_id == 0
      then refuse_pull invalid_argument rows
      else if not a.user_exists
      then refuse_pull user_not_found rows
      else if not (a.connects && a.begins)
      then refuse_pull db_error rows
      else let read = read_all a.deserialize (
          list_offline_messages a.lists user_id (pull_limit a.offline_pull_limit page_size) rows) in
        finish_pull a.commits read.0 (mark_batch_as_pulled a.marks user_id read.1 now rows) rows
