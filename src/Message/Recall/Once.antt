-- ===== src/Message/Recall/Once.antt =====
-- A message is recalled by its sender, in time, with one event, and once.
use nebula_im.Base.{
  ℕ, ◌+◌, ◌*◌, ◌≤◌, ◌≡◌, ◌≢◌, refl, sym, ap, ◌∙◌, Bool, true, false, ◌&&◌, ◌||◌, not, Option, none,
  some, List, [], ◌∷◌, ◌==◌, if◌then◌else◌, ◌⊎◌, inl, inr, arith, Option-cases, Bool-cases,
}
use nebula_im.Fault.ErrorCode.{
  ErrorCode, ok, auth_failed, internal_error, invalid_argument, message_already_recalled, db_error,
}
use nebula_im.Message.Tables.{
  MessageRecord, OutboxEvent, Tables, find_message, has_id, get_message_by_id, insert_event,
}
use nebula_im.Message.Recall.{
  RecallRequest, RecallAnswers, recalled_row, is_recallable, recall_rows, recall_message,
  refuse_message, recall_event, is_recalled, recalled_conversations, publish_recall, recall_all,
  recall_found, recall,
}

-- What the guards on a message have seen.
abbrev Allowed : RecallAnswers → RecallRequest → MessageRecord → Type 0
Allowed a req r =
    (r.from_user_id ≡ req.user_id)
    × (r.recalled ≡ false)
    × (a.now ≤ r.created_at + a.recall_window_seconds * 1000)

refuse_message-Allowed :
    (a : RecallAnswers) (req : RecallRequest) (r : MessageRecord)
    → refuse_message a req r ≡ none
    → Allowed a req r
unfolding refuse_message
refuse_message-Allowed a req r h = ground (arith, h)

refuse_message-error :
    (a : RecallAnswers) (req : RecallRequest) (r : MessageRecord) (code : ErrorCode)
    → refuse_message a req r ≡ some code
    → code ≢ ok
unfolding refuse_message
refuse_message-error a req r code h = λ e. ground (arith, h, e)

recall_message-some :
    (b : Bool) (message_id now : ℕ) (rows rows' : List MessageRecord)
    → recall_message b message_id now rows ≡ some rows'
    → rows' ≡ recall_rows message_id now rows
unfolding recall_message
recall_message-some b message_id now rows rows' h =
    let e : recall_rows message_id now rows ≡ rows' = ground arith in sym e

insert_event-some :
    (b : Bool) (es es' : List OutboxEvent) (event : OutboxEvent)
    → insert_event b es event ≡ some es'
    → es' ≡ event ∷ es
unfolding insert_event
insert_event-some b es es' event h = let e : event ∷ es ≡ es' = ground arith in sym e

-- What `recall_rows` makes of a row.
abbrev marked : ℕ → ℕ → MessageRecord → MessageRecord
marked message_id now r = if is_recallable message_id r then recalled_row now r else r

marked-same :
    (message_id now : ℕ) (r : MessageRecord) → (marked message_id now r).message_id ≡ r.message_id
marked-same message_id now r = ground arith

marked-recalled :
    (message_id now : ℕ) (r : MessageRecord)
    → has_id message_id r ≡ true
    → (marked message_id now r).recalled ≡ true
marked-recalled message_id now r h = ground (arith, h)

-- The row of a recalled message is found again, recalled.
find-recall_rows :
    (message_id now : ℕ) (rows : List MessageRecord) (r : MessageRecord)
    → find_message (has_id message_id) rows ≡ some r
    → (r' : MessageRecord) × (find_message (has_id message_id) (recall_rows message_id now rows)
        ≡ some r')
      × (r'.recalled ≡ true)
unfolding find_message recall_rows
find-recall_rows message_id now [] r h = absurd (cc)
find-recall_rows message_id now (x ∷ rows) r h =
    let rest = find_message (has_id message_id) (recall_rows message_id now rows) in
    let first =
      ap (λ k. if k == message_id then some (marked message_id now x) else rest)
        (marked-same message_id now x) in
    elim (Bool-cases (has_id message_id x)) [
      | inl hit ↦ (
        marked message_id now x,
        first ∙ ap (λ b. if b then some (marked message_id now x) else rest) hit,
        marked-recalled message_id now x hit,
      )
      | inr miss ↦
          let (r', e, recalled) = find-recall_rows message_id now rows r (
            sym (ap (λ b. if b then some x else find_message (has_id message_id) rows) miss) ∙ h) in
          (
            r',
            first ∙ ap (λ b. if b then some (marked message_id now x) else rest) miss ∙ e,
            recalled,
          )
    ]

no_both : false ≢ true
no_both e = ground (arith, e)

module _ {C : Type 0} (recalculate_unread : ℕ → ℕ → C → C)
    (mark_last_recalled : ℕ → ℕ → ℕ → C → C) where
  -- The message was the sender's, not recalled, and in time; its row, one event and the
  -- conversations tell of the recall.
  pub record Recalled (a : RecallAnswers) (t : Tables C) (req : RecallRequest) (t' : Tables C)
      : Type 0 where
    pub row : MessageRecord
    pub found : find_message (has_id req.message_id) t.messages ≡ some row
    pub allowed : Allowed a req row
    pub rows : t'.messages ≡ recall_rows req.message_id a.now t.messages
    pub events : t'.events ≡ recall_event a req row ∷ t.events
    pub conversations :
        t'.conversations
        ≡ recalled_conversations recalculate_unread mark_last_recalled a row t.conversations

  -- An error that changes nothing, or OK.
  abbrev pub AllOrNothing : RecallAnswers → Tables C → RecallRequest → ErrorCode × Tables C → Type 0
  AllOrNothing a t req (code, t') = ((code ≢ ok) × (t' ≡ t)) ⊎ ((code ≡ ok) × Recalled a t req t')

  publish_recall-AllOrNothing :
      (a : RecallAnswers) (t : Tables C) (req : RecallRequest) (r : MessageRecord)
      (rows : List MessageRecord)
      → find_message (has_id req.message_id) t.messages ≡ some r
      → Allowed a req r
      → rows ≡ recall_rows req.message_id a.now t.messages
      → AllOrNothing a t req (publish_recall recalculate_unread mark_last_recalled a t req r rows)
  unfolding publish_recall
  publish_recall-AllOrNothing a t req r rows found allowed same =
      elim (Option-cases (insert_event a.publishes t.events (recall_event a req r))) [
        | inl failed ↦ rw (failed, publish_recall) (inl ((λ e. cc), refl))
        | inr (es, e) ↦ elim (Bool-cases (a.recounts && (a.marks && a.commits))) [
          | inr no_ ↦ rw (e, no_, publish_recall) (inl ((λ e. cc), refl))
          | inl yes_ ↦
              rw (e, yes_, publish_recall)
                (inr (
                  refl,
                  record {
                    row = r;
                    found = found;
                    allowed = allowed;
                    rows = same;
                    events = insert_event-some a.publishes t.events es (recall_event a req r) e;
                    conversations = refl;
                  },
                ))
        ]
      ]

  unchanged :
      (a : RecallAnswers) (t : Tables C) (req : RecallRequest) (b : Bool)
      → AllOrNothing a t req (if b then (message_already_recalled, t) else (db_error, t))
  unchanged a t req true = inl ((λ e. cc), refl)
  unchanged a t req false = inl ((λ e. cc), refl)

  recall_all-AllOrNothing :
      (a : RecallAnswers) (t : Tables C) (req : RecallRequest) (r : MessageRecord)
      → find_message (has_id req.message_id) t.messages ≡ some r
      → Allowed a req r
      → AllOrNothing a t req (recall_all recalculate_unread mark_last_recalled a t req r)
  unfolding recall_all
  recall_all-AllOrNothing a t req r found allowed =
      elim (Bool-cases (not a.connects || not a.begins)) [
        | inl down ↦ rw (down, recall_all) (inl ((λ e. cc), refl))
        | inr up ↦ elim (Option-cases (recall_message a.recalls req.message_id a.now t.messages)) [
          | inl failed ↦
              rw (up, failed, recall_all)
                (unchanged a t req
                  (is_recalled (get_message_by_id a.reads_again t.messages req.message_id)))
          | inr (rows, e) ↦
              rw (up, e, recall_all)
                (publish_recall-AllOrNothing a t req r rows found allowed
                  (recall_message-some a.recalls req.message_id a.now t.messages rows e))
        ]
      ]

  recall_found-AllOrNothing :
      (a : RecallAnswers) (t : Tables C) (req : RecallRequest) (o : Option MessageRecord)
      → (o ≡ none) ⊎ (find_message (has_id req.message_id) t.messages ≡ o)
      → AllOrNothing a t req (recall_found recalculate_unread mark_last_recalled a t req o)
  unfolding recall_found
  recall_found-AllOrNothing a t req none h = inl ((λ e. cc), refl)
  recall_found-AllOrNothing a t req (some r) (inl e) = absurd (cc)
  recall_found-AllOrNothing a t req (some r) (inr found) =
      elim (Option-cases (refuse_message a req r)) [
        | inr (code, refused) ↦
            rw (refused, recall_found) (inl (refuse_message-error a req r code refused, refl))
        | inl passed ↦
            rw (passed, recall_found)
              (recall_all-AllOrNothing a t req r found (refuse_message-Allowed a req r passed))
      ]

  read-cases :
      (b : Bool) (rows : List MessageRecord) (message_id : ℕ)
      → (get_message_by_id b rows message_id ≡ none)
        ⊎ (find_message (has_id message_id) rows ≡ get_message_by_id b rows message_id)
  unfolding get_message_by_id
  read-cases true rows message_id = inr refl
  read-cases false rows message_id = inl refl

  refused_or :
      (a : RecallAnswers) (t : Tables C) (req : RecallRequest) (b : Bool) (code : ErrorCode)
      (next : ErrorCode × Tables C)
      → code ≢ ok
      → AllOrNothing a t req next
      → AllOrNothing a t req (if b then (code, t) else next)
  refused_or a t req true code next ne h = inl (ne, refl)
  refused_or a t req false code next ne h = h

  pub recall-AllOrNothing :
      (a : RecallAnswers) (t : Tables C) (req : RecallRequest)
      → AllOrNothing a t req (recall recalculate_unread mark_last_recalled a t req)
  unfolding recall
  recall-AllOrNothing a t req =
      refused_or a t req (not a.authorized) auth_failed _ (λ e. cc)
        (refused_or a t req (not a.valid_deps) internal_error _ (λ e. cc)
          (refused_or a t req ((req.user_id == 0) || (req.message_id == 0)) invalid_argument _
            (λ e. cc)
            (recall_found-AllOrNothing a t req (get_message_by_id a.reads t.messages req.message_id)
              (read-cases a.reads t.messages req.message_id))))

  -- After a call of RecallMessage that replies OK, another one for the same message, by
  -- whomever and whatever the database does, replies with an error and leaves the tables as
  -- they are.
  pub recall_once :
      (a b : RecallAnswers) (t : Tables C) (req again : RecallRequest)
      → (recall recalculate_unread mark_last_recalled a t req).0 ≡ ok
      → again.message_id ≡ req.message_id
      → let t' = (recall recalculate_unread mark_last_recalled a t req).1 in
        let (code, t'') = recall recalculate_unread mark_last_recalled b t' again in
        (code ≢ ok) × (t'' ≡ t')
  recall_once a b t req again is_ok same = elim (recall-AllOrNothing a t req) [
    | inl (ne, e) ↦ absurd (ne is_ok)
    | inr (e, first) ↦
        elim (recall-AllOrNothing b (recall recalculate_unread mark_last_recalled a t req).1
          again) [
            | inl unchanged_ ↦ unchanged_
            | inr (e', second) ↦
                let t' = (recall recalculate_unread mark_last_recalled a t req).1 in
                let (r', f, recalled) =
                  find-recall_rows req.message_id a.now t.messages first.row first.found in
                let same_row : some second.row ≡ some r' =
                  sym second.found
                  ∙ ap (λ k. find_message (has_id k) t'.messages) same
                  ∙ ap (find_message (has_id req.message_id)) first.rows
                  ∙ f in
                let live : second.row.recalled ≡ false = second.allowed.1 in
                let same_flag : second.row.recalled ≡ r'.recalled =
                  ap (λ o. is_recalled o) same_row in
                absurd (no_both (sym live ∙ same_flag ∙ recalled))
          ]
  ]
