-- ===== src/Message/Send/Atomic.antt =====
-- A message is stored with its event, or not at all, behind the guards of the handlers.
use nebula_im.Base.{
  ℕ, Bool, false, ◌||◌, not, ◌≡◌, ◌≢◌, refl, sym, none, some, List, ◌∷◌, arith, Option-cases,
  Bool-cases, inl, inr, ◌⊎◌,
}
use nebula_im.Base.Keys.{Text, text}
use nebula_im.Base.Decimal.{to_string}
use nebula_im.Fault.ErrorCode.{ok}
use nebula_im.Message.Tables.{
  MessageRecord, OutboxEvent, Tables, find_message, has_sequence, clashes,
  get_message_by_client_sequence, insert_message, insert_event,
}
use nebula_im.Message.Send.{
  Request, Response, Answers, Fresh, fill_response, persisted, insert_all, transact, deliver,
}
use nebula_im.Message.Send.Rows.{IsUnique, read_row, persisted_found}

inserted_row :
    (inserts : Bool) (ms ms' : List MessageRecord) (message : MessageRecord)
    → insert_message inserts ms message ≡ some ms'
    → (ms' ≡ message ∷ ms) × (find_message (clashes message) ms ≡ none)
unfolding insert_message
inserted_row inserts ms ms' message h = elim (Option-cases (find_message (clashes message) ms)) [
  | inl free ↦ ((let e : message ∷ ms ≡ ms' = ground arith in sym e), free)
  | inr (r, taken) ↦ absurd (ground arith)
]

queued_event :
    (publishes : Bool) (es es' : List OutboxEvent) (event : OutboxEvent)
    → insert_event publishes es event ≡ some es'
    → es' ≡ event ∷ es
unfolding insert_event
queued_event publishes es es' event h = let e : event ∷ es ≡ es' = ground arith in sym e

-- Where a message goes: its conversation, the user or the group, and the topic of its event.
pub record Place : Type 0 where
  pub conversation_id : ℕ
  pub to_user_id : ℕ
  pub group_id : ℕ
  pub topic : Text

-- The row and the event of an accepted request.
pub record Describes (serialize : MessageRecord → Text) (request : Request) (fresh : Fresh)
    (place : Place) (row : MessageRecord) (event : OutboxEvent) : Type 0 where
  pub id : row.message_id ≡ fresh.id
  pub conversation : row.conversation_id ≡ place.conversation_id
  pub sender : row.from_user_id ≡ request.from_user_id
  pub sequence : row.client_sequence_id ≡ request.client_sequence_id
  pub to_user : row.to_user_id ≡ place.to_user_id
  pub to_group : row.group_id ≡ place.group_id
  pub content_type : row.message_type ≡ request.content_type
  pub content : row.content ≡ request.content
  pub normal : (row.status ≡ 1) × (row.recalled ≡ false) × (row.recalled_at ≡ 0)
  pub times : (row.created_at ≡ fresh.now) × (row.updated_at ≡ fresh.now)
  pub event_id : (event.event_id ≡ fresh.id) × (event.aggregate_id ≡ fresh.id)
  pub kind : event.aggregate_type ≡ text "message"
  pub topic : event.topic ≡ place.topic
  pub key : event.event_key ≡ to_string place.conversation_id
  pub payload : event.payload ≡ serialize row
  pub pending : event.status ≡ 0
  pub event_times : (event.created_at ≡ fresh.now) × (event.updated_at ≡ fresh.now)

-- The reply of a call that stores nothing: an error, or the row that was stored before.
abbrev pub Declined : List MessageRecord → Request → Response → Type 0
Declined rows request resp =
    (resp.code ≢ ok)
    ⊎ ((r : MessageRecord) × (find_message
            (has_sequence request.from_user_id request.client_sequence_id) rows
          ≡ some r)
        × (resp.code ≡ ok)
        × (resp.message_id ≡ r.message_id)
        × (resp.server_timestamp ≡ r.created_at))

module _ {C : Type 0} (serialize : MessageRecord → Text) where
  -- The message and its one event are new, and the reply names them.
  pub record Stored (t : Tables C) (request : Request) (fresh : Fresh) (place : Place)
      (upsert : C → MessageRecord → C) (resp : Response) (t' : Tables C) : Type 0 where
    pub row : MessageRecord
    pub event : OutboxEvent
    pub described : Describes serialize request fresh place row event
    pub new : find_message (clashes row) t.messages ≡ none
    pub rows : t'.messages ≡ row ∷ t.messages
    pub events : t'.events ≡ event ∷ t.events
    pub conversations : t'.conversations ≡ upsert t.conversations row
    pub code : resp.code ≡ ok
    pub reply_id : resp.message_id ≡ fresh.id
    pub reply_time : resp.server_timestamp ≡ fresh.now

  abbrev pub Atomic :
      Tables C → Request → Fresh → Place → (C → MessageRecord → C) → Response × Tables C → Type 0
  Atomic t request fresh place upsert (resp, t') =
      ((t' ≡ t) × Declined t.messages request resp) ⊎ Stored t request fresh place upsert resp t'

  insert_all-Atomic :
      (answers : Answers) (t : Tables C) (request : Request) (message : MessageRecord)
      (event : OutboxEvent) (fresh : Fresh) (place : Place) (upsert : C → MessageRecord → C)
      → request.from_user_id ≢ 0
      → Describes serialize request fresh place message event
      → Atomic t request fresh place upsert
          (insert_all answers t request message event (upsert t.conversations message) fresh)
  unfolding insert_all fill_response
  insert_all-Atomic answers t request message event fresh place upsert user described =
      let c = upsert t.conversations message in
      elim (Option-cases (insert_message answers.inserts t.messages message)) [
        | inl refused ↦
            elim (Option-cases (
              get_message_by_client_sequence answers.reads_again t.messages request.from_user_id
                request.client_sequence_id)) [
                  | inl absent ↦ rw (refused, absent, insert_all) (inl (refl, inl (λ e. cc)))
                  | inr (r, present) ↦
                      rw (refused, present, insert_all)
                        (inl (
                          refl,
                          inr (
                            r,
                            read_row answers.reads_again t.messages request.from_user_id
                                request.client_sequence_id r present,
                            refl,
                            refl,
                            refl,
                          ),
                        ))
                ]
        | inr (rows, inserted) ↦ elim (Bool-cases answers.upserts) [
          | inr fails ↦ rw (inserted, fails, insert_all) (inl (refl, inl (λ e. cc)))
          | inl upserted ↦ elim (Option-cases (insert_event answers.publishes t.events event)) [
            | inl refused ↦ rw (inserted, upserted, refused, insert_all) (inl (refl, inl (λ e. cc)))
            | inr (events, queued) ↦ elim (Bool-cases answers.commits) [
              | inr fails ↦
                  rw (inserted, upserted, queued, fails, insert_all) (inl (refl, inl (λ e. cc)))
              | inl committed ↦
                  let (rows_eq, free) =
                    inserted_row answers.inserts t.messages rows message inserted in
                  rw (inserted, upserted, queued, committed, insert_all)
                    (inr (record {
                      row = message;
                      event = event;
                      described = described;
                      new = free;
                      rows = rows_eq;
                      events = queued_event answers.publishes t.events events event queued;
                      conversations = refl;
                      code = refl;
                      reply_id = refl;
                      reply_time = refl;
                    }))
            ]
          ]
        ]
      ]

  pub deliver-Atomic :
      (answers : Answers) (t : Tables C) (request : Request) (message : MessageRecord)
      (event : OutboxEvent) (fresh : Fresh) (place : Place) (upsert : C → MessageRecord → C)
      → IsUnique t.messages
      → request.from_user_id ≢ 0
      → Describes serialize request fresh place message event
      → Atomic t request fresh place upsert
          (deliver answers t request message event (upsert t.conversations message) fresh)
  unfolding deliver transact fill_response
  deliver-Atomic answers t request message event fresh place upsert u user described =
      elim (Option-cases (persisted answers t.messages request)) [
        | inr (r, present) ↦
            rw (present, deliver)
              (inl (
                refl,
                inr (r, persisted_found answers t.messages request r u present, refl, refl, refl),
              ))
        | inl absent ↦ elim (Bool-cases (not answers.connects || not answers.begins)) [
          | inl fails ↦ rw (absent, fails, deliver, transact) (inl (refl, inl (λ e. cc)))
          | inr begun ↦
              rw (absent, begun, deliver, transact)
                (insert_all-Atomic answers t request message event fresh place upsert user
                  described)
        ]
      ]
