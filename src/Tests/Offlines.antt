-- ===== src/Tests/Offlines.antt =====
-- User 2 pulls two of three messages, twice; the parser takes payloads that are not empty.
use nebula_im.Base.{ℕ, ◌≡◌, true, Option, none, some, [], ◌∷◌, List, arith}
use nebula_im.Base.Keys.{Text, text}
use nebula_im.Message.Offline.{OfflineMessage, PullAnswers, to_hex, from_hex}
use nebula_im.Message.Offline.Hex.{from_hex-to_hex}

abbrev row : ℕ → ℕ → Text → OfflineMessage
row user_id message_id payload = record {
  user_id = user_id;
  message_id = message_id;
  payload = payload;
  status = 0;
  created_at = message_id;
  updated_at = message_id;
}

abbrev rows : List OfflineMessage
rows =
    row 2 5 (text "6869") ∷ row 3 6 (text "6869") ∷ row 2 7 (text "zz") ∷ row 2 8 (text "21") ∷ []

abbrev parse : Text → Option Text
parse [] = none
parse (c ∷ bytes) = some (c ∷ bytes)

abbrev working : PullAnswers Text
working = record {
  authorized = true;
  valid_deps = true;
  user_exists = true;
  offline_pull_limit = 100;
  deserialize = parse;
  lists = true;
  connects = true;
  begins = true;
  marks = true;
  commits = true;
}

from_hex-to_hex_example : from_hex (to_hex (0 ∷ 171 ∷ 255 ∷ [])) ≡ 0 ∷ 171 ∷ 255 ∷ []
from_hex-to_hex_example =
    from_hex-to_hex (0 ∷ 171 ∷ 255 ∷ []) (omega arith, (omega arith, (omega arith, tt)))
