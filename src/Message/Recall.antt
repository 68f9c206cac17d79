-- ===== src/Message/Recall.antt =====
-- message_service/src/MessageServiceImpl.cpp, `RecallMessage`, and `recallMessage` of
-- common/dao/MessageDao.cpp. The Booleans tell what the database carries out; a failed commit is
-- one that did not take effect. The replies are their codes; the time window is not negative.
pub mod Once
use nebula_im.Base.{
  ℕ, ◌+◌, ◌*◌, Bool, true, false, ◌&&◌, ◌||◌, not, Option, none, some, List, [], ◌∷◌, ltb, ◌==◌,
  if◌then◌else◌,
}
use nebula_im.Base.Keys.{Text, text}
use nebula_im.Base.Decimal.{to_string}
use nebula_im.Fault.ErrorCode.{
  ErrorCode, ok, auth_failed, internal_error, invalid_argument, message_not_found,
  message_recall_permission_denied, message_already_recalled, message_recall_timeout, db_error,
  outbox_publish_failed,
}
use nebula_im.Message.Tables.{
  MessageRecord, OutboxEvent, Tables, has_id, get_message_by_id, insert_event,
}

-- `MESSAGE_STATUS_RECALLED`
abbrev pub recalled_status : ℕ
recalled_status = 6

-- The row of a recalled message.
abbrev pub recalled_row : ℕ → MessageRecord → MessageRecord
recalled_row now r = record r {
  recalled = true;
  recalled_at = now;
  status = recalled_status;
  updated_at = now;
}

-- `WHERE message_id=… AND recalled=0`
abbrev pub is_recallable : ℕ → MessageRecord → Bool
is_recallable message_id r = has_id message_id r && not r.recalled

unfoldable pub recall_rows : ℕ → ℕ → List MessageRecord → List MessageRecord
recall_rows message_id now [] = []
recall_rows message_id now (r ∷ rs) =
    let rest = recall_rows message_id now rs in
    (if is_recallable message_id r then recalled_row now r else r) ∷ rest

unfoldable pub affects : ℕ → List MessageRecord → Bool
affects message_id [] = false
affects message_id (r ∷ rs) = let rest = affects message_id rs in is_recallable message_id r || rest

-- `none` is `false`: the statement failed, or no row was affected.
unfoldable pub recall_message : Bool → ℕ → ℕ → List MessageRecord → Option (List MessageRecord)
unfolding recall_rows affects
recall_message answers message_id now rows =
    if answers && affects message_id rows then some (recall_rows message_id now rows) else none

pub record RecallRequest : Type 0 where
  pub user_id : ℕ
  pub message_id : ℕ

-- What the handler asks of other components, and what the database does with each statement.
pub record RecallAnswers : Type 0 where
  pub authorized : Bool
  pub valid_deps : Bool
  pub recall_window_seconds : ℕ
  pub topic_single : Text
  pub topic_group : Text
  pub serialize : MessageRecord → Text
  pub now : ℕ
  pub event_id : ℕ
  pub reads : Bool
  pub reads_again : Bool
  pub connects : Bool
  pub begins : Bool
  pub recalls : Bool
  pub publishes : Bool
  pub recounts : Bool
  pub marks : Bool
  pub commits : Bool

-- The guards on the message.
unfoldable pub refuse_message : RecallAnswers → RecallRequest → MessageRecord → Option ErrorCode
refuse_message a req r =
    if not (r.from_user_id == req.user_id)
    then some message_recall_permission_denied
    else if r.recalled
    then some message_already_recalled
    else if ltb (r.created_at + a.recall_window_seconds * 1000) a.now
    then some message_recall_timeout
    else none

-- `makeOutboxEvent` with the recalled record.
abbrev pub recall_event : RecallAnswers → RecallRequest → MessageRecord → OutboxEvent
recall_event a req r = record {
  event_id = a.event_id;
  aggregate_type = text "message_recall";
  aggregate_id = req.message_id;
  topic = if r.group_id == 0 then a.topic_single else a.topic_group;
  event_key = to_string r.conversation_id;
  payload =
      a.serialize (record r { recalled = true; recalled_at = a.now; status = recalled_status });
  status = 0;
  created_at = a.now;
  updated_at = a.now;
}

abbrev pub is_recalled : Option MessageRecord → Bool
is_recalled none = false
is_recalled (some r) = r.recalled

-- `recalculateUnreadForConversation` and `markLastMessageRecalled` are given.
module _ {C : Type 0} (recalculate_unread : ℕ → ℕ → C → C)
    (mark_last_recalled : ℕ → ℕ → ℕ → C → C) where
  abbrev pub recalled_conversations : RecallAnswers → MessageRecord → C → C
  recalled_conversations a r c =
      mark_last_recalled r.conversation_id r.message_id a.now
        (recalculate_unread r.conversation_id a.now c)

  -- The statements behind the update of the row.
  unfoldable pub publish_recall :
      RecallAnswers
      → Tables C
      → RecallRequest
      → MessageRecord
      → List MessageRecord
      → ErrorCode × Tables C
  publish_recall a t req r rows = elim (insert_event a.publishes t.events (recall_event a req r)) [
    | none ↦ (outbox_publish_failed, t)
    | some events ↦
        if a.recounts && (a.marks && a.commits)
        then (
          ok,
          record {
            messages = rows;
            events = events;
            conversations = recalled_conversations a r t.conversations;
          },
        )
        else (db_error, t)
  ]

  unfoldable pub recall_all :
      RecallAnswers → Tables C → RecallRequest → MessageRecord → ErrorCode × Tables C
  unfolding publish_recall
  recall_all a t req r =
      if not a.connects || not a.begins
      then (db_error, t)
      else elim (recall_message a.recalls req.message_id a.now t.messages) [
        | none ↦
            (if is_recalled (get_message_by_id a.reads_again t.messages req.message_id)
              then (message_already_recalled, t)
              else (db_error, t))
        | some rows ↦ publish_recall a t req r rows
      ]

  unfoldable pub recall_found :
      RecallAnswers → Tables C → RecallRequest → Option MessageRecord → ErrorCode × Tables C
  unfolding refuse_message recall_all
  recall_found a t req none = (message_not_found, t)
  recall_found a t req (some r) = elim (refuse_message a req r) [
    | some code ↦ (code, t)
    | none ↦ recall_all a t req r
  ]

  -- The handler.
  unfoldable pub recall : RecallAnswers → Tables C → RecallRequest → ErrorCode × Tables C
  unfolding recall_found
  recall a t req =
      if not a.authorized
      then (auth_failed, t)
      else if not a.valid_deps
      then (internal_error, t)
      else if (req.user_id == 0) || (req.message_id == 0)
      then (invalid_argument, t)
      else recall_found a t req (get_message_by_id a.reads t.messages req.message_id)
