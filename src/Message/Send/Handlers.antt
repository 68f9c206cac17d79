-- ===== src/Message/Send/Handlers.antt =====
-- What `SendSingleMessage` and `SendGroupMessage` do to the tables.
use nebula_im.Base.{
  ℕ, true, ◌≡◌, ◌≢◌, refl, sym, none, some, List, arith, Option-cases, inl, inr, subst,
}
use nebula_im.Base.Keys.{Text}
use nebula_im.Fault.ErrorCode.{ok}
use nebula_im.Message.Tables.{MessageRecord, Tables, find_message, has_sequence}
use nebula_im.Message.ConversationId.{single, group}
use nebula_im.Message.Send.{
  Request, Response, Directory, Answers, Fresh, replayed, make_outbox_event, message_of,
  fill_response, validate_content, refuse_single, refuse_group, send_single_message,
  send_group_message,
}
use nebula_im.Message.Send.Rows.{IsUnique}
use nebula_im.Message.Send.Atomic.{Place, Describes, Atomic, deliver-Atomic}
use nebula_im.Message.Send.Once.{deliver_again}

single_user :
    (d : Directory) (request : Request) → refuse_single d request ≡ none → request.from_user_id ≢ 0
unfolding refuse_single
single_user d request h zero = ground arith

group_user :
    (d : Directory) (request : Request) → refuse_group d request ≡ none → request.from_user_id ≢ 0
unfolding refuse_group
group_user d request h zero = ground arith

refuse_single-error :
    (d : Directory) (request : Request) (refusal : Response)
    → refuse_single d request ≡ some refusal
    → refusal.code ≢ ok
unfolding refuse_single fill_response validate_content
refuse_single-error d request refusal h = λ e. ground (arith, h, e)

refuse_group-error :
    (d : Directory) (request : Request) (refusal : Response)
    → refuse_group d request ≡ some refusal
    → refusal.code ≢ ok
unfolding refuse_group fill_response validate_content
refuse_group-error d request refusal h = λ e. ground (arith, h, e)

abbrev pub single_place : Directory → Request → Place
single_place d request = record {
  conversation_id = single request.from_user_id request.target;
  to_user_id = request.target;
  group_id = 0;
  topic = d.topic_single;
}

abbrev pub group_place : Directory → Request → Place
group_place d request = record {
  conversation_id = group request.target;
  to_user_id = 0;
  group_id = request.target;
  topic = d.topic_group;
}

module _ {C : Type 0} (serialize : MessageRecord → Text) (upsert_single : C → MessageRecord → C)
    (upsert_group : C → MessageRecord → List ℕ → C) where
  abbrev pub upsert_members : Directory → Request → C → MessageRecord → C
  upsert_members d request c message = upsert_group c message (d.list_members request.target)

  message_of-Describes :
      (request : Request) (fresh : Fresh) (place : Place)
      → let message =
          message_of request fresh place.conversation_id place.to_user_id place.group_id in
        Describes serialize request fresh place message
          (make_outbox_event message place.topic (serialize message))
  unfolding make_outbox_event
  message_of-Describes request fresh place = record {
    id = refl;
    conversation = refl;
    sender = refl;
    sequence = refl;
    to_user = refl;
    to_group = refl;
    content_type = refl;
    content = refl;
    normal = (refl, refl, refl);
    times = (refl, refl);
    event_id = (refl, refl);
    kind = refl;
    topic = refl;
    key = refl;
    payload = refl;
    pending = refl;
    event_times = (refl, refl);
  }

  single-Atomic :
      (d : Directory) (a : Answers) (fresh : Fresh) (t : Tables C) (request : Request)
      → IsUnique t.messages
      → Atomic serialize t request fresh
          (single_place d request)
          upsert_single
          (send_single_message serialize upsert_single upsert_group d a fresh t request)
  unfolding send_single_message make_outbox_event
  single-Atomic d a fresh t request u = elim (Option-cases (refuse_single d request)) [
    | inr (refusal, refused) ↦
        rw (refused, send_single_message)
          (inl (refl, inl (refuse_single-error d request refusal refused)))
    | inl admitted ↦
        let message =
          message_of request fresh (single request.from_user_id request.target) request.target 0 in
        rw (admitted, send_single_message)
          (deliver-Atomic serialize a t request message
            (make_outbox_event message d.topic_single (serialize message)) fresh
            (single_place d request) upsert_single u (single_user d request admitted)
            (message_of-Describes request fresh (single_place d request)))
  ]

  group-Atomic :
      (d : Directory) (a : Answers) (fresh : Fresh) (t : Tables C) (request : Request)
      → IsUnique t.messages
      → Atomic serialize t request fresh
          (group_place d request)
          (upsert_members d request)
          (send_group_message serialize upsert_single upsert_group d a fresh t request)
  unfolding send_group_message make_outbox_event
  group-Atomic d a fresh t request u = elim (Option-cases (refuse_group d request)) [
    | inr (refusal, refused) ↦
        rw (refused, send_group_message)
          (inl (refl, inl (refuse_group-error d request refusal refused)))
    | inl admitted ↦
        let message = message_of request fresh (group request.target) 0 request.target in
        rw (admitted, send_group_message)
          (deliver-Atomic serialize a t request message
            (make_outbox_event message d.topic_group (serialize message)) fresh
            (group_place d request) (upsert_members d request) u (group_user d request admitted)
            (message_of-Describes request fresh (group_place d request)))
  ]

  Atomic-IsUnique :
      (t : Tables C) (request : Request) (fresh : Fresh) (place : Place)
      (upsert : C → MessageRecord → C) (r : Response × Tables C)
      → IsUnique t.messages
      → Atomic serialize t request fresh place upsert r
      → IsUnique r.1.messages
  Atomic-IsUnique t request fresh place upsert (resp, t') u (inl same) =
      subst (λ (x : Tables C). IsUnique x.messages) (sym same.0) u
  Atomic-IsUnique t request fresh place upsert (resp, t') u (inr s) =
      subst IsUnique (sym s.rows) (s.new, u)

  -- Whatever the database and the cache do with each statement, on tables whose unique keys
  -- hold, a call of SendSingleMessage or SendGroupMessage does one of two things. Either it
  -- leaves the tables as they were, and its reply is an error, or the id and the time of the
  -- stored message of this sender with this client sequence. Or it adds exactly one message
  -- and one pending event, replies OK with the new id and the time, and has the conversations
  -- of the sender and the receivers updated for the message. That message has the new id, the
  -- request's sender, sequence, type and content, the conversation and the receiver of the
  -- call, the normal status and the time; the event carries its id, its serialization, the
  -- topic, and the conversation as its key. The unique keys hold afterwards.
  pub send-Atomic :
      (d : Directory) (a : Answers) (fresh : Fresh) (t : Tables C) (request : Request)
      → IsUnique t.messages
      → let one = send_single_message serialize upsert_single upsert_group d a fresh t request in
        let many = send_group_message serialize upsert_single upsert_group d a fresh t request in
        (Atomic serialize t request fresh (single_place d request) upsert_single one
          × IsUnique one.1.messages)
        × (Atomic serialize t request fresh (group_place d request) (upsert_members d request) many
            × IsUnique many.1.messages)
  send-Atomic d a fresh t request u =
      let one = single-Atomic d a fresh t request u in
      let many = group-Atomic d a fresh t request u in
      (
        (one, Atomic-IsUnique t request fresh (single_place d request) upsert_single _ u one),
        (
          many,
          Atomic-IsUnique t request fresh (group_place d request) (upsert_members d request) _ u
              many,
        ),
      )

  resend_single :
      (d : Directory) (a : Answers) (fresh : Fresh) (t : Tables C) (request : Request)
      (r : MessageRecord)
      → IsUnique t.messages
      → request.client_sequence_id ≢ 0
      → find_message (has_sequence request.from_user_id request.client_sequence_id) t.messages
        ≡ some r
      → ((send_single_message serialize upsert_single upsert_group d a fresh t request).1 ≡ t)
        × (refuse_single d request ≡ none
            → a.reads ≡ true
            → (send_single_message serialize upsert_single upsert_group d a fresh t request).0
              ≡ replayed r)
  unfolding send_single_message
  resend_single d a fresh t request r u real h = elim (Option-cases (refuse_single d request)) [
    | inr (refusal, refused) ↦
        rw (refused, send_single_message) (refl, (λ e. absurd (ground arith)))
    | inl admitted ↦
        let message =
          message_of request fresh (single request.from_user_id request.target) request.target 0 in
        let (kept, reply) =
          deliver_again a t request message r
            (make_outbox_event message d.topic_single (serialize message))
            (upsert_single t.conversations message) fresh u (single_user d request admitted) real
            refl refl h in
        rw (admitted, send_single_message) (kept, (λ e. reply))
  ]

  resend_group :
      (d : Directory) (a : Answers) (fresh : Fresh) (t : Tables C) (request : Request)
      (r : MessageRecord)
      → IsUnique t.messages
      → request.client_sequence_id ≢ 0
      → find_message (has_sequence request.from_user_id request.client_sequence_id) t.messages
        ≡ some r
      → ((send_group_message serialize upsert_single upsert_group d a fresh t request).1 ≡ t)
        × (refuse_group d request ≡ none
            → a.reads ≡ true
            → (send_group_message serialize upsert_single upsert_group d a fresh t request).0
              ≡ replayed r)
  unfolding send_group_message
  resend_group d a fresh t request r u real h = elim (Option-cases (refuse_group d request)) [
    | inr (refusal, refused) ↦ rw (refused, send_group_message) (refl, (λ e. absurd (ground arith)))
    | inl admitted ↦
        let message = message_of request fresh (group request.target) 0 request.target in
        let (kept, reply) =
          deliver_again a t request message r
            (make_outbox_event message d.topic_group (serialize message))
            (upsert_group t.conversations message (d.list_members request.target)) fresh u
            (group_user d request admitted) real refl refl h in
        rw (admitted, send_group_message) (kept, (λ e. reply))
  ]

  -- Where the tables, whose unique keys hold, have a message of the sender with the request's
  -- client sequence, which is not 0, a call of either handler leaves the tables as they were,
  -- whatever the database and the cache do.
  pub resend_stores_nothing :
      (d : Directory) (a : Answers) (fresh : Fresh) (t : Tables C) (request : Request)
      (r : MessageRecord)
      → IsUnique t.messages
      → request.client_sequence_id ≢ 0
      → find_message (has_sequence request.from_user_id request.client_sequence_id) t.messages
        ≡ some r
      → ((send_single_message serialize upsert_single upsert_group d a fresh t request).1 ≡ t)
        × ((send_group_message serialize upsert_single upsert_group d a fresh t request).1 ≡ t)
  resend_stores_nothing d a fresh t request r u real h = (
    (resend_single d a fresh t request r u real h).0,
    (resend_group d a fresh t request r u real h).0,
  )

  -- Where the tables, whose unique keys hold, have a message of the sender with the request's
  -- client sequence, which is not 0, a call of SendSingleMessage that passes the guards
  -- replies OK with the id and the time of that message, if the look for duplicates can read
  -- the table, whatever id the cache has.
  pub resend_single_replays :
      (d : Directory) (a : Answers) (fresh : Fresh) (t : Tables C) (request : Request)
      (r : MessageRecord)
      → IsUnique t.messages
      → request.client_sequence_id ≢ 0
      → find_message (has_sequence request.from_user_id request.client_sequence_id) t.messages
        ≡ some r
      → refuse_single d request ≡ none
      → a.reads ≡ true
      → (send_single_message serialize upsert_single upsert_group d a fresh t request).0
        ≡ replayed r
  resend_single_replays d a fresh t request r u real h admitted reads =
      (resend_single d a fresh t request r u real h).1 admitted reads

  -- Where the tables, whose unique keys hold, have a message of the sender with the request's
  -- client sequence, which is not 0, a call of SendGroupMessage that passes the guards
  -- replies OK with the id and the time of that message, if the look for duplicates can read
  -- the table, whatever id the cache has.
  pub resend_group_replays :
      (d : Directory) (a : Answers) (fresh : Fresh) (t : Tables C) (request : Request)
      (r : MessageRecord)
      → IsUnique t.messages
      → request.client_sequence_id ≢ 0
      → find_message (has_sequence request.from_user_id request.client_sequence_id) t.messages
        ≡ some r
      → refuse_group d request ≡ none
      → a.reads ≡ true
      → (send_group_message serialize upsert_single upsert_group d a fresh t request).0 ≡ replayed r
  resend_group_replays d a fresh t request r u real h admitted reads =
      (resend_group d a fresh t request r u real h).1 admitted reads
