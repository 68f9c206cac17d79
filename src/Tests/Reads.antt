-- ===== src/Tests/Reads.antt =====
-- User 2 acknowledges and reads message 5 of user 1; the state counts statements.
use nebula_im.Base.{ℕ, ◌+◌, true, false, some}
use nebula_im.Base.Keys.{text}
use nebula_im.Message.Tables.{MessageRecord}
use nebula_im.Message.Receipts.{
  Answers, Received, ack_message, mark_message_read, receipts_for_receivers,
}

abbrev letter : MessageRecord
letter = record {
  message_id = 5;
  conversation_id = 77;
  from_user_id = 1;
  client_sequence_id = 9;
  to_user_id = 2;
  group_id = 0;
  message_type = 1;
  content = text "hi";
  status = 1;
  recalled = false;
  recalled_at = 0;
  created_at = 100;
  updated_at = 100;
}

abbrev willing : Answers
willing = record {
  authorized = true;
  valid_deps = true;
  user_exists = λ u. true;
  is_owner = λ u c. false;
  message_by_id = λ id. some letter;
  connects = true;
  begins = true;
  first = true;
  second = true;
  commits = true;
}

abbrev count : ℕ → ℕ → ℕ → ℕ
count a b n = n + 1

receipts_for_receivers_example :
    Received count count count count willing 2 5
      (λ r. count 2 5 (count 5 2 0))
      0
      (ack_message count count count count willing 2 5 0)
    × Received count count count count willing 2 5
        (λ r. count 2 r.conversation_id (count 5 2 0))
        0
        (mark_message_read count count count count willing 2 5 0)
receipts_for_receivers_example = receipts_for_receivers count count count count willing 2 5 0
