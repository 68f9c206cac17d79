-- ===== src/Message/Outbox.antt =====
-- common/outbox/OutboxDao.cpp, the life of an event: claims for publication and their outcomes.
-- Each call is one step on the table of events; a call that fails, or whose transaction is not
-- committed, changes nothing and is no step.
pub mod Final
use nebula_im.Base.{
  ℕ, zero, suc, ◌+◌, ◌≤◌, Bool, true, false, not, ◌&&◌, ◌||◌, ◌≡◌, ◌≢◌, refl, sym, ap, ◌∙◌, List,
  [], ◌∷◌, leb, ltb, ◌==◌, if◌then◌else◌, arith, Bool-cases, inl, inr, Option, none, some,
}
use nebula_im.Base.Keys.{Text, Collation}

-- The columns that change; the status is 0 pending, 1 published, 2 failed, 3 dead, 4 processing.
pub record Row : Type 0 where
  pub event_id : ℕ
  pub status : ℕ
  pub retry_count : ℕ
  pub next_retry_at : ℕ
  pub updated_at : ℕ
  pub claim_token : Text

abbrev pub is_empty : Text → Bool
is_empty [] = true
is_empty (c ∷ t) = false

-- `WHERE status IN (0,2,4) AND next_retry_at<=now`
abbrev pub is_due : ℕ → Row → Bool
is_due now r = ((r.status == 0) || ((r.status == 2) || (r.status == 4))) && leb r.next_retry_at now

abbrev pub claimed : ℕ → ℕ → Text → Row → Row
claimed now lease_until token r = record r {
  status = 4;
  next_retry_at = lease_until;
  updated_at = now;
  claim_token = token;
}

abbrev pub is_free : (ℕ → Bool) → ℕ → Row → Bool
is_free locked now r = is_due now r && not (locked r.event_id)

-- `LIMIT … FOR UPDATE SKIP LOCKED` and the updates of the rows that it gives.
unfoldable pub claim_rows : (ℕ → Bool) → ℕ → ℕ → Text → ℕ → List Row → List Row
claim_rows locked now lease_until token limit [] = []
claim_rows locked now lease_until token zero (r ∷ rs) = r ∷ rs
claim_rows locked now lease_until token (suc limit) (r ∷ rs) =
    let left = if is_free locked now r then limit else suc limit in
    let rest = claim_rows locked now lease_until token left rs in
    (if is_free locked now r then claimed now lease_until token r else r) ∷ rest

-- `claimPendingEvents` on rows in the order of their creation, of which other transactions have
-- locked some.
unfoldable pub claim_pending_events : (ℕ → Bool) → ℕ → ℕ → ℕ → Text → List Row → List Row
unfolding claim_rows
claim_pending_events locked limit now lease_ms token rows =
    claim_rows locked now (now + (if ltb 0 lease_ms then lease_ms else 30000)) token limit rows

-- `WHERE event_id=… AND status=4 AND claim_token=…`
abbrev pub is_held : Collation → ℕ → Text → Row → Bool
is_held collates event_id token r =
    (r.event_id == event_id) && ((r.status == 4) && collates r.claim_token token)

-- An update of the held rows, where the token is not empty.
unfoldable pub update_held : Collation → ℕ → Text → (Row → Row) → List Row → List Row
update_held collates event_id token change [] = []
update_held collates event_id token change (r ∷ rs) =
    let rest = update_held collates event_id token change rs in
    if not (is_empty token) && is_held collates event_id token r then change r ∷ rest else r ∷ rest

abbrev pub as_published : ℕ → Row → Row
as_published now r = record r { status = 1; claim_token = []; updated_at = now }

abbrev pub as_failed : ℕ → ℕ → ℕ → Row → Row
as_failed retry_count next_retry_at now r = record r {
  status = 2;
  claim_token = [];
  retry_count = retry_count;
  next_retry_at = next_retry_at;
  updated_at = now;
}

abbrev pub as_dead : ℕ → Row → Row
as_dead now r = record r { status = 3; claim_token = []; updated_at = now }

unfoldable pub mark_published : Collation → ℕ → Text → ℕ → List Row → List Row
mark_published collates event_id token now rows =
    update_held collates event_id token (as_published now) rows

unfoldable pub mark_failed : Collation → ℕ → Text → ℕ → ℕ → ℕ → List Row → List Row
mark_failed collates event_id token retry_count next_retry_at now rows =
    update_held collates event_id token (as_failed retry_count next_retry_at now) rows

unfoldable pub mark_dead : Collation → ℕ → Text → ℕ → List Row → List Row
mark_dead collates event_id token now rows = update_held collates event_id token (as_dead now) rows

-- What the workers of one or more processes do, in the order in which the database takes it.
pub data Action : Type 0 where
  claim : (ℕ → Bool) → ℕ → ℕ → ℕ → Text → Action
  publish : ℕ → Text → ℕ → Action
  fail : ℕ → Text → ℕ → ℕ → ℕ → Action
  bury : ℕ → Text → ℕ → Action

unfoldable pub act : Collation → Action → List Row → List Row
act collates (claim locked limit now lease_ms token) rows =
    claim_pending_events locked limit now lease_ms token rows
act collates (publish event_id token now) rows = mark_published collates event_id token now rows
act collates (fail event_id token retry_count next_retry_at now) rows =
    mark_failed collates event_id token retry_count next_retry_at now rows
act collates (bury event_id token now) rows = mark_dead collates event_id token now rows

unfoldable pub act_all : Collation → List Action → List Row → List Row
act_all collates [] rows = rows
act_all collates (a ∷ actions) rows = act_all collates actions (act collates a rows)

abbrev pub is_final : Row → Bool
is_final r = (r.status == 1) || (r.status == 3)
