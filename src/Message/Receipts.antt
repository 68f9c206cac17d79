-- ===== src/Message/Receipts.antt =====
-- message_service/src/MessageServiceImpl.cpp, `AckMessage` and `MarkMessageRead`. The receipts,
-- offline messages and unread counts are a state `S`; the statements on them are given.
use nebula_im.Base.{
  ℕ, Bool, true, false, not, ◌&&◌, ◌||◌, ◌≡◌, refl, Option, none, some, ◌==◌, if◌then◌else◌,
  Option-cases, Bool-cases, inl, inr, ◌⊎◌,
}
use nebula_im.Fault.ErrorCode.{
  ErrorCode, ok, auth_failed, internal_error, invalid_argument, user_not_found, message_not_found,
  message_permission_denied, db_error,
}
use nebula_im.Message.Tables.{MessageRecord}

-- What the guards ask of other components, and what the database does with each statement.
pub record Answers : Type 0 where
  pub authorized : Bool
  pub valid_deps : Bool
  pub user_exists : ℕ → Bool
  pub is_owner : ℕ → ℕ → Bool
  pub message_by_id : ℕ → Option MessageRecord
  pub connects : Bool
  pub begins : Bool
  pub first : Bool
  pub second : Bool
  pub commits : Bool

unfoldable pub can_read_conversation : Answers → ℕ → ℕ → Bool
can_read_conversation a user_id conversation_id =
    not (user_id == 0) && (not (conversation_id == 0) && a.is_owner user_id conversation_id)

unfoldable pub can_receive_message : Answers → ℕ → MessageRecord → Bool
can_receive_message a user_id r =
    if (user_id == 0) || (r.from_user_id == user_id)
    then false
    else if not (r.group_id == 0)
    then can_read_conversation a user_id r.conversation_id
    else r.to_user_id == user_id

-- The reply's code of the guard that fails, or the message.
unfoldable pub receivable : Answers → ℕ → Option MessageRecord → ErrorCode ⊎ MessageRecord
receivable a user_id none = inl message_not_found
receivable a user_id (some r) =
    if can_receive_message a user_id r then inr r else inl message_permission_denied

unfoldable pub admit_ack : Answers → ℕ → ℕ → ErrorCode ⊎ MessageRecord
admit_ack a user_id message_id =
    if not a.authorized
    then inl auth_failed
    else if not a.valid_deps
    then inl internal_error
    else if (user_id == 0) || (message_id == 0)
    then inl invalid_argument
    else if not (a.user_exists user_id)
    then inl user_not_found
    else receivable a user_id (a.message_by_id message_id)

unfoldable pub admit_read : Answers → ℕ → ℕ → ErrorCode ⊎ MessageRecord
admit_read a user_id message_id =
    if not a.authorized
    then inl auth_failed
    else if not a.valid_deps
    then inl internal_error
    else if (user_id == 0) || (message_id == 0)
    then inl invalid_argument
    else receivable a user_id (a.message_by_id message_id)

module _ {S : Type 0} where
  -- Two statements and a commit; anything that fails rolls both back.
  unfoldable pub both_or_nothing : Answers → S → S → ErrorCode × S
  both_or_nothing a after s =
      if a.connects && (a.begins && (a.first && (a.second && a.commits)))
      then (ok, after)
      else (db_error, s)

  unfoldable pub finish :
      Answers → (MessageRecord → S) → S → ErrorCode ⊎ MessageRecord → ErrorCode × S
  finish a after s (inl code) = (code, s)
  finish a after s (inr r) = both_or_nothing a (after r) s

-- The statements, on a message and a user: `upsertDelivered`, `markAsAcked`, `markRead`, and
-- `recalculateUnread` on a conversation.
module _ {S : Type 0} (upsert_delivered : ℕ → ℕ → S → S) (mark_as_acked : ℕ → ℕ → S → S)
    (mark_read : ℕ → ℕ → S → S) (recalculate_unread : ℕ → ℕ → S → S) where
  unfoldable pub ack_message : Answers → ℕ → ℕ → S → ErrorCode × S
  ack_message a user_id message_id s =
      finish a (λ r. mark_as_acked user_id message_id (upsert_delivered message_id user_id s)) s
        (admit_ack a user_id message_id)

  unfoldable pub mark_message_read : Answers → ℕ → ℕ → S → ErrorCode × S
  mark_message_read a user_id message_id s =
      finish a (λ r. recalculate_unread user_id r.conversation_id (mark_read message_id user_id s))
        s (admit_read a user_id message_id)

  -- Nothing has changed, or the user may receive the message, and both statements are done.
  abbrev pub Received : Answers → ℕ → ℕ → (MessageRecord → S) → S → ErrorCode × S → Type 0
  Received a user_id message_id after s (code, s') =
      (s' ≡ s)
      ⊎ ((r : MessageRecord) × (a.message_by_id message_id ≡ some r)
          × (can_receive_message a user_id r ≡ true)
          × (code ≡ ok)
          × (s' ≡ after r))

  -- What a guard that lets a message through has seen.
  abbrev Seen : Answers → ℕ → ℕ → ErrorCode ⊎ MessageRecord → Type 0
  Seen a user_id message_id (inl code) = Unit {0}
  Seen a user_id message_id (inr r) =
      (a.message_by_id message_id ≡ some r) × (can_receive_message a user_id r ≡ true)

  receivable-Seen :
      (a : Answers) (user_id message_id : ℕ)
      → Seen a user_id message_id (receivable a user_id (a.message_by_id message_id))
  unfolding receivable
  receivable-Seen a user_id message_id = elim (Option-cases (a.message_by_id message_id)) [
    | inl absent ↦ rw (absent, receivable) tt
    | inr (r, present) ↦ elim (Bool-cases (can_receive_message a user_id r)) [
      | inl may ↦ rw (present, may, receivable) (present, may)
      | inr not_ ↦ rw (present, not_, receivable) tt
    ]
  ]

  guard-Seen :
      (a : Answers) (user_id message_id : ℕ) (test : Bool) (code : ErrorCode)
      (rest : ErrorCode ⊎ MessageRecord)
      → Seen a user_id message_id rest
      → Seen a user_id message_id (if test then inl code else rest)
  guard-Seen a user_id message_id true code rest h = tt
  guard-Seen a user_id message_id false code rest h = h

  finish-Received :
      (a : Answers) (user_id message_id : ℕ) (after : MessageRecord → S) (s : S)
      (o : ErrorCode ⊎ MessageRecord)
      → Seen a user_id message_id o
      → Received a user_id message_id after s (finish a after s o)
  unfolding finish both_or_nothing
  finish-Received a user_id message_id after s (inl code) h = inl refl
  finish-Received a user_id message_id after s (inr r) h =
      elim (Bool-cases (a.connects && (a.begins && (a.first && (a.second && a.commits))))) [
        | inl done ↦ rw (done, finish, both_or_nothing) (inr (r, h.0, h.1, refl, refl))
        | inr fails ↦ rw (fails, finish, both_or_nothing) (inl refl)
      ]

  -- Whatever the other components and the database answer, a call of AckMessage or of
  -- MarkMessageRead leaves receipts, offline messages and unread counts as they were, unless
  -- the message exists and the user may receive it; then it may carry out both of its
  -- statements, and replies OK.
  pub receipts_for_receivers :
      (a : Answers) (user_id message_id : ℕ) (s : S)
      → Received a user_id message_id
          (λ r. mark_as_acked user_id message_id (upsert_delivered message_id user_id s))
          s
          (ack_message a user_id message_id s)
        × Received a user_id message_id
            (λ r. recalculate_unread user_id r.conversation_id (mark_read message_id user_id s))
            s
            (mark_message_read a user_id message_id s)
  unfolding ack_message mark_message_read admit_ack admit_read
  receipts_for_receivers a user_id message_id s =
      let seen = receivable-Seen a user_id message_id in
      (
        finish-Received a user_id message_id
            (λ r. mark_as_acked user_id message_id (upsert_delivered message_id user_id s)) s
            (admit_ack a user_id message_id)
            (guard-Seen a user_id message_id (not a.authorized) auth_failed _ (
              guard-Seen a user_id message_id (not a.valid_deps) internal_error _ (
                guard-Seen a user_id message_id ((user_id == 0) || (message_id == 0))
                  invalid_argument _
                  (guard-Seen a user_id message_id (not (a.user_exists user_id)) user_not_found _
                    seen)))),
        finish-Received a user_id message_id
            (λ r. recalculate_unread user_id r.conversation_id (mark_read message_id user_id s)) s
            (admit_read a user_id message_id)
            (guard-Seen a user_id message_id (not a.authorized) auth_failed _ (
              guard-Seen a user_id message_id (not a.valid_deps) internal_error _ (
                guard-Seen a user_id message_id ((user_id == 0) || (message_id == 0))
                  invalid_argument _ seen))),
      )
