-- ===== src/User/Accounts.antt =====
-- A registration adds one account with a name and an id of its own, or none.
use nebula_im.Base.{ℕ, suc, ◌≤◌, ◌<◌, ◌≡◌, ◌≢◌, false, none, some, List, [], ◌∷◌, length, ◌⊎◌}
use nebula_im.Base.Keys.{Collation}
use nebula_im.Fault.ErrorCode.{ErrorCode, ok}
use nebula_im.User.Tables.{User, Store, user_named, user_with_id, is_blank}
use nebula_im.User.Service.{
  Answers, RegisterRequest, new_user, max_username_length, max_password_length, max_nickname_length,
}

-- No two accounts have names that the database takes for the same: the UNIQUE key of the table.
abbrev pub UniqueNames : Collation → List User → Type 0
UniqueNames collates [] = Unit {0}
UniqueNames collates (u ∷ users) =
    (user_named collates u.username users ≡ none) × UniqueNames collates users

-- The ids of the accounts are below the next one.
abbrev pub IdsBelow : ℕ → List User → Type 0
IdsBelow n [] = Unit {0}
IdsBelow n (u ∷ users) = (u.id < n) × IdsBelow n users

-- An error leaves the accounts, the devices and the tokens as they were, and takes no id back;
-- otherwise there is one account more, which the request's name leads to, with the next id, which
-- no account had, the request's name, which led nowhere, and the hash of its password, and lengths
-- within the limits.
abbrev pub Enrolled : Answers → RegisterRequest → Store → ErrorCode × ℕ × Store → Type 0
Enrolled a req s (code, user_id, s') =
    (s'.devices ≡ s.devices)
    × (s'.tokens ≡ s.tokens)
    × (((code ≢ ok) × (s'.users ≡ s.users) × (s.next_id ≤ s'.next_id))
        ⊎ ((code ≡ ok)
            × (user_id ≡ s.next_id)
            × (s'.next_id ≡ suc s.next_id)
            × (user_named a.collates req.username s.users ≡ none)
            × (user_with_id user_id s.users ≡ none)
            × (s'.users ≡ (record (new_user a req) { id = user_id }) ∷ s.users)
            × (user_named a.collates req.username s'.users
                ≡ some (record (new_user a req) { id = user_id }))
            × (0 < length req.username)
            × (length req.username ≤ max_username_length)
            × (length req.password ≤ max_password_length)
            × (length req.nickname ≤ max_nickname_length)))

-- What the guards have seen.
abbrev Sized : RegisterRequest → Type 0
Sized req =
    (is_blank req.username ≡ false)
    × (length req.username ≤ max_username_length)
    × (length req.password ≤ max_password_length)
    × (length req.nickname ≤ max_nickname_length)

-- The store with the row of an INSERT.
abbrev with_row : User → Store → Store
with_row u s = record s { users = (record u { id = s.next_id }) ∷ s.users; next_id = suc s.next_id }
