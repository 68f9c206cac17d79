-- ===== src/Tests/Recalls.antt =====
-- User 1 recalls message 5, twice.
use nebula_im.Base.{ℕ, ◌+◌, ◌≡◌, ◌≢◌, refl, true, false, [], ◌∷◌}
use nebula_im.Base.Keys.{text}
use nebula_im.Fault.ErrorCode.{ok}
use nebula_im.Message.Tables.{MessageRecord, Tables, find_message, get_message_by_id, insert_event}
use nebula_im.Message.Recall.{RecallRequest, RecallAnswers, recall_message, recall}
use nebula_im.Message.Recall.Once.{recall_once}

abbrev letter : MessageRecord
letter = record {
  message_id = 5;
  conversation_id = 77;
  from_user_id = 1;
  client_sequence_id = 9;
  to_user_id = 2;
  group_id = 0;
  message_type = 1;
  content = text "hi";
  status = 1;
  recalled = false;
  recalled_at = 0;
  created_at = 100;
  updated_at = 100;
}

-- The conversations count their statements.
abbrev tables : Tables ℕ
tables = record { messages = letter ∷ []; events = []; conversations = 0 }

abbrev recount : ℕ → ℕ → ℕ → ℕ
recount conversation_id now n = n + 1

abbrev mark : ℕ → ℕ → ℕ → ℕ → ℕ
mark conversation_id message_id now n = n + 1

abbrev in_time : RecallAnswers
in_time = record {
  authorized = true;
  valid_deps = true;
  recall_window_seconds = 120;
  topic_single = text "single";
  topic_group = text "group";
  serialize = λ r. r.content;
  now = 200;
  event_id = 6;
  reads = true;
  reads_again = true;
  connects = true;
  begins = true;
  recalls = true;
  publishes = true;
  recounts = true;
  marks = true;
  commits = true;
}

abbrev mine : RecallRequest
mine = record { user_id = 1; message_id = 5 }

recalls : (recall recount mark in_time tables mine).0 ≡ ok
unfolding recall get_message_by_id find_message insert_event recall_message
recalls = refl

recall_once_example :
    ((recall recount mark in_time (recall recount mark in_time tables mine).1 mine).0 ≢ ok)
    × ((recall recount mark in_time (recall recount mark in_time tables mine).1 mine).1
        ≡ (recall recount mark in_time tables mine).1)
recall_once_example = recall_once recount mark in_time in_time tables mine mine recalls refl
