-- ===== src/Message/Send/Rows.antt =====
-- Rows of `messages` under their unique keys, and what the look for duplicates finds.
use nebula_im.Base.{
  ℕ, Bool, true, false, ◌≡◌, ◌≢◌, refl, sym, ap, ◌∙◌, Option, none, some, List, [], ◌∷◌, arith,
  Option-cases, Bool-cases, inl, inr,
}
use nebula_im.Message.Tables.{
  MessageRecord, find_message, has_id, has_sequence, clashes, get_message_by_id,
  get_message_by_client_sequence, insert_message,
}
use nebula_im.Message.Send.{Request, Answers, trusted, cached_message, persisted}

-- The unique keys of `messages` hold.
abbrev pub IsUnique : List MessageRecord → Type 0
IsUnique [] = Unit {0}
IsUnique (m ∷ ms) = (find_message (clashes m) ms ≡ none) × IsUnique ms

found :
    (test : MessageRecord → Bool) (ms : List MessageRecord) (r : MessageRecord)
    → find_message test ms ≡ some r
    → test r ≡ true
unfolding find_message
found test [] r h = absurd (ground arith)
found test (m ∷ ms) r h = elim (Bool-cases (test m)) [
  | inl here ↦ let same : m ≡ r = ground arith in ap test (sym same) ∙ here
  | inr there ↦ found test ms r (ground arith)
]

missed :
    (test other : MessageRecord → Bool) (ms : List MessageRecord) (r : MessageRecord)
    → find_message test ms ≡ some r
    → find_message other ms ≡ none
    → other r ≡ false
unfolding find_message
missed test other [] r h k = absurd (ground arith)
missed test other (m ∷ ms) r h k = elim (Bool-cases (test m)) [
  | inl here ↦ let same : m ≡ r = ground arith in ap other (sym same) ∙ ground arith
  | inr there ↦ missed test other ms r (ground arith) (ground arith)
]

-- Two rows of one user with one sequence are the same.
one_row :
    (from seq id : ℕ) (ms : List MessageRecord) (r r' : MessageRecord)
    → IsUnique ms
    → find_message (has_sequence from seq) ms ≡ some r
    → find_message (has_id id) ms ≡ some r'
    → has_sequence from seq r' ≡ true
    → r' ≡ r
unfolding find_message
one_row from seq id [] r r' u h k e = absurd (ground arith)
one_row from seq id (m ∷ ms) r r' u h k e = elim (Bool-cases (has_id id m)) [
  | inl this ↦
      let same : m ≡ r' = ground arith in
      let seen : has_sequence from seq m ≡ true = ap (has_sequence from seq) same ∙ e in
      ground arith
  | inr other ↦ elim (Bool-cases (has_sequence from seq m)) [
    | inl first ↦
        let k' : find_message (has_id id) ms ≡ some r' = ground arith in
        let apart = missed (has_id id) (clashes m) ms r' k' u.0 in absurd (ground arith)
    | inr later ↦ one_row from seq id ms r r' u.1 (ground arith) (ground arith) e
  ]
]

-- A cached id that is trusted is that of the stored row.
cached_row :
    (answers : Answers) (ms : List MessageRecord) (request : Request) (cached : Option ℕ)
    (r r' : MessageRecord)
    → IsUnique ms
    → request.client_sequence_id ≢ 0
    → find_message (has_sequence request.from_user_id request.client_sequence_id) ms ≡ some r
    → cached_message answers ms request cached ≡ some r'
    → r' ≡ r
unfolding cached_message get_message_by_id trusted
cached_row answers ms request none r r' u real h k = absurd (ground arith)
cached_row answers ms request (some id) r r' u real h k =
    elim (Option-cases (get_message_by_id answers.reads_id ms id)) [
      | inl absent ↦ absurd (ground arith)
      | inr (seen, present) ↦
          let same : seen ≡ r' = ground arith in
          let there : find_message (has_id id) ms ≡ some seen = ground arith in
          let fits : has_sequence request.from_user_id request.client_sequence_id seen ≡ true =
            ground arith in
          sym same
          ∙ one_row request.from_user_id request.client_sequence_id id ms r seen u h there fits
    ]

-- A read by user and sequence is one of the rows.
pub read_row :
    (answers : Bool) (ms : List MessageRecord) (from seq : ℕ) (r : MessageRecord)
    → get_message_by_client_sequence answers ms from seq ≡ some r
    → find_message (has_sequence from seq) ms ≡ some r
unfolding get_message_by_client_sequence
read_row answers ms from seq r h = ground arith

-- What a row with an id and a user's sequence says of the rows with that sequence.
row_found :
    (from seq id : ℕ) (ms : List MessageRecord) (r : MessageRecord)
    → IsUnique ms
    → find_message (has_id id) ms ≡ some r
    → has_sequence from seq r ≡ true
    → find_message (has_sequence from seq) ms ≡ some r
row_found from seq id ms r u k e = elim (Option-cases (find_message (has_sequence from seq) ms)) [
  | inr (r', h) ↦ h ∙ ap some (sym (one_row from seq id ms r' r u h k e))
  | inl absent ↦
      let apart = missed (has_id id) (has_sequence from seq) ms r k absent in absurd (ground arith)
]

cached_found :
    (answers : Answers) (ms : List MessageRecord) (request : Request) (cached : Option ℕ)
    (r : MessageRecord)
    → IsUnique ms
    → request.client_sequence_id ≢ 0
    → cached_message answers ms request cached ≡ some r
    → find_message (has_sequence request.from_user_id request.client_sequence_id) ms ≡ some r
unfolding cached_message get_message_by_id trusted
cached_found answers ms request none r u real k = absurd (ground arith)
cached_found answers ms request (some id) r u real k =
    elim (Option-cases (get_message_by_id answers.reads_id ms id)) [
      | inl absent ↦ absurd (ground arith)
      | inr (seen, present) ↦
          let same : seen ≡ r = ground arith in
          let there : find_message (has_id id) ms ≡ some seen = ground arith in
          let fits : has_sequence request.from_user_id request.client_sequence_id seen ≡ true =
            ground arith in
          row_found request.from_user_id request.client_sequence_id id ms seen u there fits
          ∙ ap some same
    ]

-- What the look for duplicates finds is the stored row of the user and the sequence.
pub persisted_found :
    (answers : Answers) (ms : List MessageRecord) (request : Request) (r : MessageRecord)
    → IsUnique ms
    → persisted answers ms request ≡ some r
    → find_message (has_sequence request.from_user_id request.client_sequence_id) ms ≡ some r
unfolding persisted
persisted_found answers ms request r u k =
    elim (Option-cases (cached_message answers ms request answers.cached)) [
      | inl absent ↦
          read_row answers.reads ms request.from_user_id request.client_sequence_id r (ground arith)
      | inr (seen, present) ↦
          let real : request.client_sequence_id ≢ 0 = λ e. ground arith in
          let same : seen ≡ r = ground arith in
          cached_found answers ms request answers.cached seen u real present ∙ ap some same
    ]

pub persisted_row :
    (answers : Answers) (ms : List MessageRecord) (request : Request) (r r' : MessageRecord)
    → IsUnique ms
    → request.client_sequence_id ≢ 0
    → find_message (has_sequence request.from_user_id request.client_sequence_id) ms ≡ some r
    → persisted answers ms request ≡ some r'
    → r' ≡ r
unfolding persisted get_message_by_client_sequence
persisted_row answers ms request r r' u real h k =
    elim (Option-cases (cached_message answers ms request answers.cached)) [
      | inl absent ↦ ground arith
      | inr (seen, present) ↦
          let same : seen ≡ r' = ground arith in
          sym same ∙ cached_row answers ms request answers.cached r seen u real h present
    ]

pub persisted_reads :
    (answers : Answers) (ms : List MessageRecord) (request : Request) (r : MessageRecord)
    → request.from_user_id ≢ 0
    → request.client_sequence_id ≢ 0
    → find_message (has_sequence request.from_user_id request.client_sequence_id) ms ≡ some r
    → answers.reads ≡ true
    → persisted answers ms request ≢ none
unfolding persisted get_message_by_client_sequence
persisted_reads answers ms request r user real h reads k =
    elim (Option-cases (cached_message answers ms request answers.cached)) [
      | inl absent ↦ ground arith
      | inr (seen, present) ↦ ground arith
    ]

pub insert_refused :
    (inserts : Bool) (ms : List MessageRecord) (message r : MessageRecord)
    → message.client_sequence_id ≢ 0
    → find_message (has_sequence message.from_user_id message.client_sequence_id) ms ≡ some r
    → insert_message inserts ms message ≡ none
unfolding insert_message
insert_refused inserts ms message r real h =
    elim (Option-cases (find_message (clashes message) ms)) [
      | inl free ↦
          let test = has_sequence message.from_user_id message.client_sequence_id in
          let yes_ = found test ms r h in
          let no_ = missed test (clashes message) ms r h free in absurd (ground arith)
      | inr (other, taken) ↦ rw (taken, insert_message) refl
    ]
