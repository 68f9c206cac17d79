-- ===== src/Message/Pages.antt =====
-- message_service/src/MessageServiceImpl.cpp, `ListConversationMessages`, and its query in
-- common/dao/MessageDao.cpp. The rows of the conversation are given in the order of the query,
-- newest first; times are not negative.
pub mod Cursor
pub mod Whole
use nebula_im.Base.{
  ℕ, suc, ◌+◌, Bool, true, false, not, ◌&&◌, ◌||◌, List, [], ◌∷◌, ◌++◌, length, take, ltb, min,
  ◌==◌, if◌then◌else◌,
}
use nebula_im.Fault.ErrorCode.{ErrorCode, ok, auth_failed, internal_error, conversation_not_found}
use nebula_im.Message.Tables.{MessageRecord}
use nebula_im.Message.Receipts.{Answers, can_read_conversation}

-- The cursor clause: older than a time, or than a message of that time.
unfoldable pub is_older : ℕ → ℕ → MessageRecord → Bool
is_older before_time before_message_id r =
    if ltb 0 before_time && ltb 0 before_message_id
    then ltb r.created_at before_time
      || ((r.created_at == before_time) && ltb r.message_id before_message_id)
    else if ltb 0 before_time
    then ltb r.created_at before_time
    else true

unfoldable pub older_rows : ℕ → ℕ → List MessageRecord → List MessageRecord
unfolding is_older
older_rows before_time before_message_id [] = []
older_rows before_time before_message_id (r ∷ rs) =
    let rest = older_rows before_time before_message_id rs in
    if is_older before_time before_message_id r then r ∷ rest else rest

-- The Boolean tells whether the query is answered.
unfoldable pub list_rows : Bool → ℕ → ℕ → ℕ → List MessageRecord → List MessageRecord
unfolding older_rows
list_rows answers before_time before_message_id limit rows =
    if answers then take limit (older_rows before_time before_message_id rows) else []

pub record PageRequest : Type 0 where
  pub requester_user_id : ℕ
  pub conversation_id : ℕ
  pub before_time : ℕ
  pub before_message_id : ℕ
  pub page_size : ℕ

pub record Page : Type 0 where
  pub code : ErrorCode
  pub messages : List MessageRecord
  pub next_before_time : ℕ
  pub next_before_message_id : ℕ
  pub has_more : Bool

abbrev pub page_limit : ℕ → ℕ
page_limit page_size = if page_size == 0 then 50 else min page_size 100

abbrev pub error_page : ErrorCode → Page
error_page code = record {
  code = code;
  messages = [];
  next_before_time = 0;
  next_before_message_id = 0;
  has_more = false;
}

-- `std::reverse`
abbrev pub reversed : List MessageRecord → List MessageRecord
reversed [] = []
reversed (r ∷ rs) = reversed rs ++ (r ∷ [])

-- The reply with the messages in their order, whose first one is the next cursor.
unfoldable pub filled_page : List MessageRecord → Bool → Page
filled_page [] has_more = record (error_page ok) { has_more = has_more }
filled_page (r ∷ rs) has_more = record {
  code = ok;
  messages = r ∷ rs;
  next_before_time = r.created_at;
  next_before_message_id = r.message_id;
  has_more = has_more;
}

-- What the handler makes of the rows that the query gave, one more than the limit at most.
unfoldable pub page_of : ℕ → List MessageRecord → Page
unfolding filled_page
page_of limit rows =
    let has_more = ltb limit (length rows) in
    filled_page (reversed (if has_more then take limit rows else rows)) has_more

unfoldable pub list_conversation_messages :
    Answers → Bool → (ℕ → List MessageRecord) → PageRequest → Page
unfolding page_of list_rows
list_conversation_messages a answers newest_first req =
    if not a.authorized
    then error_page auth_failed
    else if not a.valid_deps
    then error_page internal_error
    else if (req.requester_user_id == 0)
        || ((req.conversation_id == 0)
            || not (can_read_conversation a req.requester_user_id req.conversation_id))
    then error_page conversation_not_found
    else page_of (page_limit req.page_size) (
        list_rows answers req.before_time req.before_message_id (page_limit req.page_size + 1)
          (newest_first req.conversation_id))
