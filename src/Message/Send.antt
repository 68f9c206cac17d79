-- ===== src/Message/Send.antt =====
-- message_service/src/MessageServiceImpl.cpp, `SendSingleMessage` and `SendGroupMessage`. Logs,
-- metrics, traces (with the trace id of an event) and the echo of the request id are left out.
pub mod Rows
pub mod Atomic
pub mod Once
pub mod Handlers
use nebula_im.Base.{
  ℕ, Bool, true, false, ◌&&◌, ◌||◌, not, Option, none, some, List, [], ◌∷◌, length, ltb, ◌==◌,
  if◌then◌else◌,
}
use nebula_im.Base.Keys.{Text, text}
use nebula_im.Base.Decimal.{to_string}
use nebula_im.Fault.ErrorCode.{
  ErrorCode, ok, auth_failed, internal_error, invalid_argument, message_empty, message_too_large,
  user_not_found, group_not_found, message_permission_denied, message_persist_failed, db_error,
  outbox_publish_failed, error_code_to_string,
}
use nebula_im.Message.ConversationId.{single, group}
use nebula_im.Message.Tables.{
  MessageRecord, OutboxEvent, Tables, get_message_by_id, get_message_by_client_sequence,
  insert_message, insert_event,
}

-- A request of either kind; `target` is the user or the group.
pub record Request : Type 0 where
  pub from_user_id : ℕ
  pub target : ℕ
  pub client_sequence_id : ℕ
  pub content_type : ℕ
  pub content : Text

pub record Response : Type 0 where
  pub code : ErrorCode
  pub message : Text
  pub message_id : ℕ
  pub server_timestamp : ℕ

-- What the handlers ask of other components: whether the call is authorised and the service wired
-- up, and the reads of users, friendships and groups.
pub record Directory : Type 0 where
  pub authorized : Bool
  pub valid_deps : Bool
  pub user_exists : ℕ → Bool
  pub is_friend : ℕ → ℕ → Bool
  pub group_exists : ℕ → Bool
  pub is_member : ℕ → ℕ → Bool
  pub list_members : ℕ → List ℕ
  pub max_content_length : ℕ
  pub topic_single : Text
  pub topic_group : Text

-- What the database does with each statement of one call, and what the cache of
-- `MessageDeduplicator` has for the request.
pub record Answers : Type 0 where
  pub cached : Option ℕ
  pub reads_id : Bool
  pub reads : Bool
  pub connects : Bool
  pub begins : Bool
  pub inserts : Bool
  pub reads_again : Bool
  pub upserts : Bool
  pub publishes : Bool
  pub commits : Bool

-- The new id, and the time.
pub record Fresh : Type 0 where
  pub id : ℕ
  pub now : ℕ

abbrev pub is_blank : Text → Bool
is_blank [] = true
is_blank (c ∷ t) = false

-- `fillResponse`
unfoldable pub fill_response : ErrorCode → Text → Response
fill_response code message = record {
  code = code;
  message = if is_blank message then error_code_to_string code else message;
  message_id = 0;
  server_timestamp = 0;
}

abbrev pub replayed : MessageRecord → Response
replayed r = record (fill_response ok (text "DUPLICATED_REQUEST_REPLAYED")) {
  message_id = r.message_id;
  server_timestamp = r.created_at;
}

abbrev pub accepted : Fresh → Response
accepted fresh = record (fill_response ok (text "OK")) {
  message_id = fresh.id;
  server_timestamp = fresh.now;
}

-- `validateContent`, with `none` where the content is good.
unfoldable pub validate_content : ℕ → Text → Option Response
validate_content max_content_length content =
    if is_blank content
    then some (fill_response message_empty [])
    else if ltb max_content_length (length content)
    then some (fill_response message_too_large [])
    else none

-- `makeOutboxEvent` for a new message.
unfoldable pub make_outbox_event : MessageRecord → Text → Text → OutboxEvent
make_outbox_event record_ topic payload = record {
  event_id = record_.message_id;
  aggregate_type = text "message";
  aggregate_id = record_.message_id;
  topic = topic;
  event_key = to_string record_.conversation_id;
  payload = payload;
  status = 0;
  created_at = record_.created_at;
  updated_at = record_.created_at;
}

-- A cached id counts only if its row is by the same user with the same sequence.
unfoldable pub trusted : Request → Option MessageRecord → Option MessageRecord
trusted request none = none
trusted request (some r) =
    if not (r.from_user_id == request.from_user_id)
      || not (r.client_sequence_id == request.client_sequence_id)
    then none
    else some r

unfoldable pub cached_message :
    Answers → List MessageRecord → Request → Option ℕ → Option MessageRecord
cached_message answers messages request none = none
cached_message answers messages request (some id) =
    trusted request (get_message_by_id answers.reads_id messages id)

-- The message that an earlier call of the same request stored.
unfoldable pub persisted : Answers → List MessageRecord → Request → Option MessageRecord
persisted answers messages request =
    if request.client_sequence_id == 0
    then none
    else elim (cached_message answers messages request answers.cached) [
      | some r ↦ some r
      | none ↦
          get_message_by_client_sequence answers.reads messages request.from_user_id
            request.client_sequence_id
    ]

module _ {C : Type 0} where
  -- The transaction. Leaving it without a commit rolls it back.
  unfoldable pub insert_all :
      Answers → Tables C → Request → MessageRecord → OutboxEvent → C → Fresh → Response × Tables C
  insert_all answers tables request message event conversations fresh =
      elim (insert_message answers.inserts tables.messages message) [
        | none ↦
            elim (get_message_by_client_sequence answers.reads_again tables.messages
              request.from_user_id request.client_sequence_id) [
                | some r ↦ (replayed r, tables)
                | none ↦ (fill_response message_persist_failed [], tables)
              ]
        | some messages ↦
            if not answers.upserts
            then (fill_response db_error [], tables)
            else elim (insert_event answers.publishes tables.events event) [
              | none ↦ (fill_response outbox_publish_failed [], tables)
              | some events ↦ if not answers.commits then (fill_response db_error [], tables) else (
                accepted fresh,
                record { messages = messages; events = events; conversations = conversations },
              )
            ]
      ]

  unfoldable pub transact :
      Answers → Tables C → Request → MessageRecord → OutboxEvent → C → Fresh → Response × Tables C
  transact answers tables request message event conversations fresh =
      if not answers.connects || not answers.begins
      then (fill_response db_error [], tables)
      else insert_all answers tables request message event conversations fresh

  -- From the look for duplicates on.
  unfoldable pub deliver :
      Answers → Tables C → Request → MessageRecord → OutboxEvent → C → Fresh → Response × Tables C
  deliver answers tables request message event conversations fresh =
      elim (persisted answers tables.messages request) [
        | some r ↦ (replayed r, tables)
        | none ↦ transact answers tables request message event conversations fresh
      ]

abbrev pub message_of : Request → Fresh → ℕ → ℕ → ℕ → MessageRecord
message_of request fresh conversation_id to_user_id group_id = record {
  message_id = fresh.id;
  conversation_id = conversation_id;
  from_user_id = request.from_user_id;
  client_sequence_id = request.client_sequence_id;
  to_user_id = to_user_id;
  group_id = group_id;
  message_type = request.content_type;
  content = request.content;
  status = 1;
  recalled = false;
  recalled_at = 0;
  created_at = fresh.now;
  updated_at = fresh.now;
}

-- The guards of `SendSingleMessage`, with the reply of the one that fails.
unfoldable pub refuse_single : Directory → Request → Option Response
refuse_single directory request =
    if not directory.authorized
    then some (fill_response auth_failed (text "internal rpc unauthenticated"))
    else if not directory.valid_deps
    then some (fill_response internal_error [])
    else if (request.from_user_id == 0)
        || ((request.target == 0) || (request.from_user_id == request.target))
    then some (fill_response invalid_argument [])
    else elim (validate_content directory.max_content_length request.content) [
      | some refusal ↦ some refusal
      | none ↦
          if not (directory.user_exists request.from_user_id)
            || not (directory.user_exists request.target)
          then some (fill_response user_not_found [])
          else if not (directory.is_friend request.from_user_id request.target)
              || not (directory.is_friend request.target request.from_user_id)
          then some (
              fill_response message_permission_denied
                (text "single messages require an accepted friendship"))
          else none
    ]

-- The guards of `SendGroupMessage`.
unfoldable pub refuse_group : Directory → Request → Option Response
refuse_group directory request =
    if not directory.authorized
    then some (fill_response auth_failed (text "internal rpc unauthenticated"))
    else if not directory.valid_deps
    then some (fill_response internal_error [])
    else if (request.from_user_id == 0) || (request.target == 0)
    then some (fill_response invalid_argument [])
    else elim (validate_content directory.max_content_length request.content) [
      | some refusal ↦ some refusal
      | none ↦
          if not (directory.user_exists request.from_user_id)
          then some (fill_response user_not_found [])
          else if not (directory.group_exists request.target)
          then some (fill_response group_not_found [])
          else if not (directory.is_member request.target request.from_user_id)
          then some (fill_response message_permission_denied [])
          else none
    ]

-- `serializeMessageData` and the two upserts of conversations are given.
module _ {C : Type 0} (serialize : MessageRecord → Text) (upsert_single : C → MessageRecord → C)
    (upsert_group : C → MessageRecord → List ℕ → C) where
  unfoldable pub send_single_message :
      Directory → Answers → Fresh → Tables C → Request → Response × Tables C
  send_single_message directory answers fresh tables request =
      elim (refuse_single directory request) [
        | some refusal ↦ (refusal, tables)
        | none ↦
            let message =
              message_of request fresh (single request.from_user_id request.target) request.target
                0 in
            deliver answers tables request message
              (make_outbox_event message directory.topic_single (serialize message))
              (upsert_single tables.conversations message) fresh
      ]

  unfoldable pub send_group_message :
      Directory → Answers → Fresh → Tables C → Request → Response × Tables C
  send_group_message directory answers fresh tables request =
      elim (refuse_group directory request) [
        | some refusal ↦ (refusal, tables)
        | none ↦
            let message = message_of request fresh (group request.target) 0 request.target in
            deliver answers tables request message
              (make_outbox_event message directory.topic_group (serialize message))
              (upsert_group tables.conversations message (directory.list_members request.target))
              fresh
      ]
