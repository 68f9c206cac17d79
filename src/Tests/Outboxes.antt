-- ===== src/Tests/Outboxes.antt =====
-- Two events, the first already published, and workers that claim, lose a claim and publish.
use nebula_im.Base.{false, ◌==◌, List, [], ◌∷◌}
use nebula_im.Base.Keys.{text, text_beq}
use nebula_im.Message.Outbox.{Row, Action, claim, publish, act_all}
use nebula_im.Message.Outbox.Final.{Follows, act_all-Follows}

abbrev done : Row
done = record {
  event_id = 1;
  status = 1;
  retry_count = 0;
  next_retry_at = 0;
  updated_at = 5;
  claim_token = [];
}

abbrev pending : Row
pending = record {
  event_id = 2;
  status = 0;
  retry_count = 0;
  next_retry_at = 0;
  updated_at = 6;
  claim_token = [];
}

abbrev rows : List Row
rows = done ∷ pending ∷ []

abbrev actions : List Action
actions =
    claim (λ id. false) 5 10 100 (text "a")
    ∷ claim (λ id. id == 1) 1 120 100 (text "b")
    ∷ publish 2 (text "a") 130
    ∷ publish 2 (text "b") 140
    ∷ []

act_all-Follows_example : Follows rows (act_all text_beq actions rows)
act_all-Follows_example = act_all-Follows text_beq actions rows
