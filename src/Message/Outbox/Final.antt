-- ===== src/Message/Outbox/Final.antt =====
-- An event that is published or dead stays as it is.
use nebula_im.Base.{
  ℕ, zero, suc, Bool, true, false, not, ◌&&◌, ◌≡◌, refl, sym, ap, ◌∙◌, List, [], ◌∷◌, if◌then◌else◌,
  arith, Bool-cases, inl, inr, some,
}
use nebula_im.Base.Keys.{Text, Collation}
use nebula_im.Message.Outbox.{
  Row, is_empty, claimed, is_free, claim_rows, claim_pending_events, is_held, update_held,
  as_published, as_failed, as_dead, mark_published, mark_failed, mark_dead, Action, claim, publish,
  fail, bury, act, act_all, is_final,
}

-- Row by row, the event is the same, and a final row has not changed.
abbrev pub Follows : List Row → List Row → Type 0
Follows [] [] = Unit {0}
Follows [] (s ∷ ss) = true ≡ false
Follows (r ∷ rs) [] = true ≡ false
Follows (r ∷ rs) (s ∷ ss) =
    (s.event_id ≡ r.event_id) × ((if is_final r then some r else some s) ≡ some s) × Follows rs ss

Follows-refl : (rs : List Row) → Follows rs rs
Follows-refl [] = tt
Follows-refl (r ∷ rs) = (refl, ground arith, Follows-refl rs)

stays :
    (r s t : Row)
    → (if is_final r then some r else some s) ≡ some s
    → (if is_final s then some s else some t) ≡ some t
    → (if is_final r then some r else some t) ≡ some t
stays r s t h k = elim (Bool-cases (is_final r)) [
  | inl final ↦
      let same : r ≡ s = ground arith in
      let too : is_final s ≡ true = sym (ap is_final same) ∙ final in ground arith
  | inr open_ ↦ ground arith
]

Follows-trans : (rs ss ts : List Row) → Follows rs ss → Follows ss ts → Follows rs ts
Follows-trans [] [] [] h k = tt
Follows-trans [] [] (t ∷ ts) h k = k
Follows-trans [] (s ∷ ss) ts h k = absurd (ground arith)
Follows-trans (r ∷ rs) [] ts h k = absurd (ground arith)
Follows-trans (r ∷ rs) (s ∷ ss) [] h k = k
Follows-trans (r ∷ rs) (s ∷ ss) (t ∷ ts) h k =
    (k.0 ∙ h.0, stays r s t h.1 k.1, Follows-trans rs ss ts h.2 k.2)

chosen-final :
    (locked : ℕ → Bool) (now until_ : ℕ) (token : Text) (r : Row)
    → (if is_final r
        then some r
        else some (if is_free locked now r then claimed now until_ token r else r))
      ≡ some (if is_free locked now r then claimed now until_ token r else r)
chosen-final locked now until_ token r = elim (Bool-cases (is_free locked now r)) [
  | inl free ↦ rw free (ground arith)
  | inr taken ↦ rw taken (ground arith)
]

chosen-id :
    (b : Bool) (now until_ : ℕ) (token : Text) (r : Row)
    → (if b then claimed now until_ token r else r).event_id ≡ r.event_id
chosen-id true now until_ token r = refl
chosen-id false now until_ token r = refl

claim_rows-Follows :
    (locked : ℕ → Bool) (now until_ : ℕ) (token : Text) (limit : ℕ) (rs : List Row)
    → Follows rs (claim_rows locked now until_ token limit rs)
unfolding claim_rows
claim_rows-Follows locked now until_ token limit [] = tt
claim_rows-Follows locked now until_ token zero (r ∷ rs) = (refl, ground arith, Follows-refl rs)
claim_rows-Follows locked now until_ token (suc limit) (r ∷ rs) = (
  chosen-id (is_free locked now r) now until_ token r,
  chosen-final locked now until_ token r,
  claim_rows-Follows locked now until_ token (if is_free locked now r then limit else suc limit) rs,
)

module _ (collates : Collation) where
  update-Follows :
      (event_id : ℕ) (token : Text) (change : Row → Row) (rs : List Row)
      → ((r : Row) → (change r).event_id ≡ r.event_id)
      → Follows rs (update_held collates event_id token change rs)
  unfolding update_held
  update-Follows event_id token change [] same = tt
  update-Follows event_id token change (r ∷ rs) same =
      elim (Bool-cases (not (is_empty token) && is_held collates event_id token r)) [
        | inl held ↦
            rw (held, update_held)
              (same r, ground arith, update-Follows event_id token change rs same)
        | inr apart ↦
            rw (apart, update_held)
              (refl, ground arith, update-Follows event_id token change rs same)
      ]

  act-Follows : (a : Action) (rs : List Row) → Follows rs (act collates a rs)
  unfolding act mark_published mark_failed mark_dead claim_pending_events
  act-Follows (claim locked limit now lease_ms token) rs =
      claim_rows-Follows locked now _ token limit rs
  act-Follows (publish event_id token now) rs =
      update-Follows event_id token (as_published now) rs (λ r. refl)
  act-Follows (fail event_id token retry_count next_retry_at now) rs =
      update-Follows event_id token (as_failed retry_count next_retry_at now) rs (λ r. refl)
  act-Follows (bury event_id token now) rs =
      update-Follows event_id token (as_dead now) rs (λ r. refl)

  -- Whatever claims of any number of events, publications, failures and burials the workers
  -- perform, in any order, with any tokens, any rows locked by others, and however the
  -- database compares tokens: the table keeps its events in their places, and an event that
  -- is published or dead does not change.
  pub act_all-Follows :
      (actions : List Action) (rows : List Row) → Follows rows (act_all collates actions rows)
  unfolding act_all
  act_all-Follows [] rows = Follows-refl rows
  act_all-Follows (a ∷ actions) rows =
      Follows-trans rows (act collates a rows) (act_all collates actions (act collates a rows))
        (act-Follows a rows) (act_all-Follows actions (act collates a rows))

  -- The claim tokens of the rows for an event, whose token is not the one in hand.
  abbrev pub NotHeld : ℕ → Text → List Row → Type 0
  NotHeld event_id token [] = Unit {0}
  NotHeld event_id token (r ∷ rs) =
      (is_held collates event_id token r ≡ false) × NotHeld event_id token rs

  update-NotHeld :
      (event_id : ℕ) (token : Text) (change : Row → Row) (rs : List Row)
      → NotHeld event_id token rs
      → update_held collates event_id token change rs ≡ rs
  unfolding update_held
  update-NotHeld event_id token change [] h = refl
  update-NotHeld event_id token change (r ∷ rs) h =
      ground (arith, update-NotHeld event_id token change rs h.1)

  -- Where no row of the event is in processing under a token, marking the event published,
  -- failed or dead with that token changes nothing.
  lost_claim :
      (event_id : ℕ) (token : Text) (retry_count next_retry_at now : ℕ) (rows : List Row)
      → NotHeld event_id token rows
      → (mark_published collates event_id token now rows ≡ rows)
        × (mark_failed collates event_id token retry_count next_retry_at now rows ≡ rows)
        × (mark_dead collates event_id token now rows ≡ rows)
  unfolding mark_published mark_failed mark_dead
  lost_claim event_id token retry_count next_retry_at now rows h = (
    update-NotHeld event_id token (as_published now) rows h,
    update-NotHeld event_id token (as_failed retry_count next_retry_at now) rows h,
    update-NotHeld event_id token (as_dead now) rows h,
  )
