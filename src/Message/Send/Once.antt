-- ===== src/Message/Send/Once.antt =====
-- A message that is stored already is not stored again, behind the guards of the handlers.
use nebula_im.Base.{
  true, ◌||◌, not, ◌≡◌, ◌≢◌, refl, sym, ap, ◌∙◌, none, some, Option-cases, Bool-cases, inl, inr,
}
use nebula_im.Message.Tables.{
  MessageRecord, OutboxEvent, Tables, find_message, has_sequence, get_message_by_client_sequence,
  insert_message,
}
use nebula_im.Message.Send.{
  Request, Answers, Fresh, replayed, persisted, insert_all, transact, deliver,
}
use nebula_im.Message.Send.Rows.{IsUnique, persisted_row, persisted_reads, insert_refused}

module _ {C : Type 0} where
  nothing_stored :
      (answers : Answers) (t : Tables C) (request : Request) (message : MessageRecord)
      (event : OutboxEvent) (c : C) (fresh : Fresh)
      → persisted answers t.messages request ≡ none
      → insert_message answers.inserts t.messages message ≡ none
      → (deliver answers t request message event c fresh).1 ≡ t
  unfolding deliver transact insert_all
  nothing_stored answers t request message event c fresh absent refused =
      elim (Bool-cases (not answers.connects || not answers.begins)) [
        | inl fails ↦ rw (absent, fails, deliver, transact) refl
        | inr begun ↦
            elim (Option-cases (
              get_message_by_client_sequence answers.reads_again t.messages request.from_user_id
                request.client_sequence_id)) [
                  | inl gone ↦ rw (absent, begun, refused, gone, deliver, transact, insert_all) refl
                  | inr (r, present) ↦
                      rw (absent, begun, refused, present, deliver, transact, insert_all) refl
                ]
      ]

  -- A request whose message is stored stores nothing.
  pub deliver_again :
      (answers : Answers) (t : Tables C) (request : Request) (message r : MessageRecord)
      (event : OutboxEvent) (c : C) (fresh : Fresh)
      → IsUnique t.messages
      → request.from_user_id ≢ 0
      → request.client_sequence_id ≢ 0
      → message.from_user_id ≡ request.from_user_id
      → message.client_sequence_id ≡ request.client_sequence_id
      → find_message (has_sequence request.from_user_id request.client_sequence_id) t.messages
        ≡ some r
      → ((deliver answers t request message event c fresh).1 ≡ t)
        × (answers.reads ≡ true → (deliver answers t request message event c fresh).0 ≡ replayed r)
  unfolding deliver transact
  deliver_again answers t request message r event c fresh u user real same_user same_seq h =
      elim (Option-cases (persisted answers t.messages request)) [
        | inr (r', present) ↦
            let same = persisted_row answers t.messages request r r' u real h present in
            rw (present, deliver) (refl, (λ reads. ap replayed same))
        | inl absent ↦
            let none_read = persisted_reads answers t.messages request r user real h in
            let still : find_message (has_sequence message.from_user_id message.client_sequence_id)
                  t.messages
                ≡ some r =
              ap (λ n. find_message (has_sequence n message.client_sequence_id) t.messages)
                same_user
              ∙ ap (λ n. find_message (has_sequence request.from_user_id n) t.messages) same_seq
              ∙ h in
            let refused =
              insert_refused answers.inserts t.messages message r (λ e. real (sym same_seq ∙ e))
                still in
            (
              nothing_stored answers t request message event c fresh absent refused,
              λ reads. absurd (none_read reads absent),
            )
      ]
