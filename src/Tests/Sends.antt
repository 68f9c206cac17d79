-- ===== src/Tests/Sends.antt =====
-- Sending in tables that hold one message, by user 1 with client sequence 9.
use nebula_im.Base.{ℕ, suc, true, false, ◌≡◌, ◌≢◌, refl, none, some, List, [], ◌∷◌, arith}
use nebula_im.Base.Keys.{Text, text}
use nebula_im.Message.Tables.{MessageRecord, Tables, find_message, has_sequence}
use nebula_im.Message.Send.{
  Request, Directory, Answers, Fresh, replayed, refuse_single, refuse_group, validate_content,
  send_single_message, send_group_message,
}
use nebula_im.Message.Send.Rows.{IsUnique}
use nebula_im.Message.Send.Atomic.{Atomic}
use nebula_im.Message.Send.Handlers.{
  single_place, group_place, send-Atomic, resend_stores_nothing, resend_single_replays,
  resend_group_replays,
}

abbrev stored : MessageRecord
stored = record {
  message_id = 5;
  conversation_id = 77;
  from_user_id = 1;
  client_sequence_id = 9;
  to_user_id = 2;
  group_id = 0;
  message_type = 1;
  content = text "hi";
  status = 1;
  recalled = false;
  recalled_at = 0;
  created_at = 100;
  updated_at = 100;
}

-- The conversations are a count of upserts.
abbrev filled : Tables ℕ
filled = record { messages = stored ∷ []; events = []; conversations = 0 }

abbrev serialize : MessageRecord → Text
serialize m = m.content

abbrev count_single : ℕ → MessageRecord → ℕ
count_single n m = suc n

abbrev count_group : ℕ → MessageRecord → List ℕ → ℕ
count_group n m members = suc n

abbrev everybody : Directory
everybody = record {
  authorized = true;
  valid_deps = true;
  user_exists = λ u. true;
  is_friend = λ u v. true;
  group_exists = λ g. true;
  is_member = λ g u. true;
  list_members = λ g. 1 ∷ 2 ∷ [];
  max_content_length = 4096;
  topic_single = text "single";
  topic_group = text "group";
}

abbrev count_everybody : ℕ → MessageRecord → ℕ
count_everybody n m = count_group n m (1 ∷ 2 ∷ [])

-- The cache has lost the id, and the database does everything.
abbrev willing : Answers
willing = record {
  cached = none;
  reads_id = true;
  reads = true;
  connects = true;
  begins = true;
  inserts = true;
  reads_again = true;
  upserts = true;
  publishes = true;
  commits = true;
}

abbrev fresh : Fresh
fresh = record { id = 6; now = 200 }

abbrev again : Request
again = record {
  from_user_id = 1;
  target = 2;
  client_sequence_id = 9;
  content_type = 1;
  content = text "hi";
}

abbrev next : Request
next = record again { client_sequence_id = 10 }

filled-IsUnique : IsUnique filled.messages
unfolding find_message
filled-IsUnique = (refl, tt)

real : again.client_sequence_id ≢ 0
real = omega arith

known : find_message (has_sequence 1 9) filled.messages ≡ some stored
unfolding find_message
known = refl

single_admits : refuse_single everybody again ≡ none
unfolding refuse_single validate_content
single_admits = refl

group_admits : refuse_group everybody again ≡ none
unfolding refuse_group validate_content
group_admits = refl

send-Atomic_example :
    let one =
      send_single_message serialize count_single count_group everybody willing fresh filled next in
    let many =
      send_group_message serialize count_single count_group everybody willing fresh filled next in
    (Atomic serialize filled next fresh (single_place everybody next) count_single one
      × IsUnique one.1.messages)
    × (Atomic serialize filled next fresh (group_place everybody next) count_everybody many
        × IsUnique many.1.messages)
send-Atomic_example =
    send-Atomic serialize count_single count_group everybody willing fresh filled next
      filled-IsUnique

resend_stores_nothing_example :
    ((send_single_message serialize count_single count_group everybody willing fresh filled again).1
      ≡ filled)
    × ((send_group_message serialize count_single count_group everybody willing fresh filled
          again).1
        ≡ filled)
resend_stores_nothing_example =
    resend_stores_nothing serialize count_single count_group everybody willing fresh filled again
      stored filled-IsUnique real known

resend_single_replays_example :
    (send_single_message serialize count_single count_group everybody willing fresh filled again).0
    ≡ replayed stored
resend_single_replays_example =
    resend_single_replays serialize count_single count_group everybody willing fresh filled again
      stored filled-IsUnique real known single_admits refl

resend_group_replays_example :
    (send_group_message serialize count_single count_group everybody willing fresh filled again).0
    ≡ replayed stored
resend_group_replays_example =
    resend_group_replays serialize count_single count_group everybody willing fresh filled again
      stored filled-IsUnique real known group_admits refl
