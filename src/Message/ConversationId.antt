-- ===== src/Message/ConversationId.antt =====
-- common/message/ConversationId.cpp.
use nebula_im.Base.{ℕ, ◌*◌, ◌%◌, ◌^◌, ◌≡◌, refl, [], ◌∷◌, ◌++◌, ltb, if◌then◌else◌, bit_xor, arith}
use nebula_im.Base.Keys.{Text, text}
use nebula_im.Base.Decimal.{to_string}

-- The rest of the loop, from a hash on.
unfoldable pub hash_from : ℕ → Text → ℕ
hash_from hash [] = hash
hash_from hash (c ∷ input) = hash_from (bit_xor hash c * 1099511628211 % 2 ^ 64) input

unfoldable pub fnv1a64 : Text → ℕ
fnv1a64 input = hash_from 1469598103934665603 input

abbrev pub lesser : ℕ → ℕ → ℕ
lesser a b = if ltb b a then b else a

abbrev pub greater : ℕ → ℕ → ℕ
greater a b = if ltb a b then b else a

unfoldable pub single : ℕ → ℕ → ℕ
single user_a user_b = fnv1a64 (
    text "single:"
    ++ (to_string (lesser user_a user_b) ++ (text ":" ++ to_string (greater user_a user_b))))

unfoldable pub group : ℕ → ℕ
group group_id = fnv1a64 (text "group:" ++ to_string group_id)

-- The conversation of two users is the same from either side.
single_comm : (user_a user_b : ℕ) → single user_a user_b ≡ single user_b user_a
unfolding single
single_comm user_a user_b =
    let least : lesser user_a user_b ≡ lesser user_b user_a = ground arith in
    let most : greater user_a user_b ≡ greater user_b user_a = ground arith in rw (least, most) refl
