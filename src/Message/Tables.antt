-- ===== src/Message/Tables.antt =====
-- The tables `messages` and `outbox_events` under the statements of common/dao/MessageDao.cpp and
-- common/outbox/OutboxDao.cpp, with the unique keys of deploy/mysql/migration/V001_init.sql and
-- V004_outbox.sql. The first argument of a statement tells whether the database carries it out.
use nebula_im.Base.{
  ℕ, Bool, false, ◌&&◌, ◌||◌, not, Option, none, some, List, [], ◌∷◌, ◌==◌, if◌then◌else◌,
}
use nebula_im.Base.Keys.{Text}

pub record MessageRecord : Type 0 where
  pub message_id : ℕ
  pub conversation_id : ℕ
  pub from_user_id : ℕ
  pub client_sequence_id : ℕ
  pub to_user_id : ℕ
  pub group_id : ℕ
  pub message_type : ℕ
  pub content : Text
  pub status : ℕ
  pub recalled : Bool
  pub recalled_at : ℕ
  pub created_at : ℕ
  pub updated_at : ℕ

pub record OutboxEvent : Type 0 where
  pub event_id : ℕ
  pub aggregate_type : Text
  pub aggregate_id : ℕ
  pub topic : Text
  pub event_key : Text
  pub payload : Text
  pub status : ℕ
  pub created_at : ℕ
  pub updated_at : ℕ

-- The conversations of the users are a state `C`, which the statements on them change.
pub record Tables (C : Type 0) : Type 0 where
  pub messages : List MessageRecord
  pub events : List OutboxEvent
  pub conversations : C

unfoldable pub find_message : (MessageRecord → Bool) → List MessageRecord → Option MessageRecord
find_message test [] = none
find_message test (r ∷ rs) = if test r then some r else find_message test rs

-- `WHERE message_id=…`, and the unique key.
abbrev pub has_id : ℕ → MessageRecord → Bool
has_id message_id r = r.message_id == message_id

-- `WHERE from_user_id=… AND client_sequence_id=…`; a sequence of 0 is stored as NULL.
abbrev pub has_sequence : ℕ → ℕ → MessageRecord → Bool
has_sequence from_user_id client_sequence_id r =
    not (r.client_sequence_id == 0)
    && (r.from_user_id == from_user_id && r.client_sequence_id == client_sequence_id)

abbrev pub clashes : MessageRecord → MessageRecord → Bool
clashes message r =
    has_id message.message_id r || has_sequence message.from_user_id message.client_sequence_id r

abbrev pub has_event : ℕ → List OutboxEvent → Bool
has_event event_id [] = false
has_event event_id (e ∷ es) = (e.event_id == event_id) || has_event event_id es

unfoldable pub get_message_by_id : Bool → List MessageRecord → ℕ → Option MessageRecord
get_message_by_id answers messages message_id =
    if answers then find_message (has_id message_id) messages else none

unfoldable pub get_message_by_client_sequence :
    Bool → List MessageRecord → ℕ → ℕ → Option MessageRecord
get_message_by_client_sequence answers messages from_user_id client_sequence_id =
    if from_user_id == 0 || client_sequence_id == 0
    then none
    else if answers
    then find_message (has_sequence from_user_id client_sequence_id) messages
    else none

-- The new rows, or `none` for `false`.
unfoldable pub insert_message :
    Bool → List MessageRecord → MessageRecord → Option (List MessageRecord)
insert_message answers messages message = elim (find_message (clashes message) messages) [
  | some r ↦ none
  | none ↦ if answers then some (message ∷ messages) else none
]

unfoldable pub insert_event : Bool → List OutboxEvent → OutboxEvent → Option (List OutboxEvent)
insert_event answers events event =
    if answers && not (has_event event.event_id events) then some (event ∷ events) else none
