-- ===== src/User/Renewals.antt =====
-- A refreshed token takes the place of the old one.
use nebula_im.Base.{
  ℕ, ◌≡◌, ◌≢◌, refl, sym, ap, ◌∙◌, Bool, true, false, not, ◌&&◌, Option, none, some, [],
  if◌then◌else◌, ◌⊎◌, inl, inr, Option-cases, Bool-cases,
}
use nebula_im.Base.Keys.{Text, text_beq, text_eq, beq_self, beq_ne}
use nebula_im.Base.Dict.{lookup, lookup-insert, lookup-erase}
use nebula_im.Base.Decimal.{to_string}
use nebula_im.Fault.ErrorCode.{ErrorCode}
use nebula_im.User.Tables.{
  UserDevice, Store, get_device, is_blank, redis_get, redis_set_ex, redis_del,
}
use nebula_im.User.Stoull.{stoull}
use nebula_im.User.Service.{Answers, Session, token_key, drop_hash, stored_device}
use nebula_im.User.Refresh.{
  refuse_refresh, retire, refreshed_device, move_device, renew, renew_value, refresh_token,
}
use nebula_im.User.Sessions.{lookup-del, drop_hash-keeps, upsert_device-cases}

-- Without a session the new token is no more in Redis than before, and the old one as it was;
-- with one, the old token led to the user, is gone, and the new one leads to the same user.
abbrev pub Renewed : Answers → Text → Store → ErrorCode × Option Session × Store → Type 0
Renewed a token s (code, none, s') =
    (lookup (token_key a token) s'.tokens ≡ lookup (token_key a token) s.tokens)
    × ((lookup (token_key a a.token) s'.tokens ≡ lookup (token_key a a.token) s.tokens)
        ⊎ (lookup (token_key a a.token) s'.tokens ≡ none))
Renewed a token s (code, some session, s') =
    (session.token ≡ a.token)
    × (lookup (token_key a token) s'.tokens ≡ none)
    × (lookup (token_key a a.token) s'.tokens ≡ some (to_string session.user_id))
    × ((value : Text) × (lookup (token_key a token) s.tokens ≡ some value)
        × (stoull value ≡ some session.user_id))

-- The store where the new token is set and the old one is still there.
record Both (a : Answers) (token : Text) (s : Store) (user_id : ℕ) (s1 : Store) : Type 0 where
  old_token : lookup (token_key a token) s1.tokens ≡ lookup (token_key a token) s.tokens
  new_token : lookup (token_key a a.token) s1.tokens ≡ some (to_string user_id)
  led :
      (value : Text) × (lookup (token_key a token) s.tokens ≡ some value)
      × (stoull value ≡ some user_id)

lookup-del_other :
    (b : Bool) (key other : Text) (s : Store)
    → text_beq key other ≡ false
    → lookup other (redis_del b key s).tokens ≡ lookup other s.tokens
lookup-del_other true key other s h =
    lookup-erase key other s.tokens ∙ ap (λ t. if t then none else lookup other s.tokens) h
lookup-del_other false key other s h = refl

retire-Renewed :
    (a : Answers) (token old_hash : Text) (s : Store) (user_id : ℕ) (s1 : Store)
    → a.deletes_token ≡ true
    → text_beq (token_key a token) (token_key a a.token) ≡ false
    → Both a token s user_id s1
    → Renewed a token s (retire a token old_hash user_id s1)
unfolding retire
retire-Renewed a token old_hash s user_id s1 del differ b =
    let s2 = drop_hash a old_hash (a.sha256 a.token) s1 in
    let kept = (drop_hash-keeps a old_hash (a.sha256 a.token) s1).0 in
    (
      refl,
      ap (λ d. lookup (token_key a token) (redis_del d (token_key a token) s2).tokens) del
          ∙ lookup-del (token_key a token) s2,
      lookup-del_other a.deletes_token (token_key a token) (token_key a a.token) s2 differ
          ∙ kept
          ∙ b.new_token,
      b.led,
    )

-- A device's row that is not written takes the new token back.
stored-Renewed :
    (a : Answers) (token : Text) (d : UserDevice) (s : Store) (user_id : ℕ) (s1 : Store)
    → a.deletes_token ≡ true
    → text_beq (token_key a token) (token_key a a.token) ≡ false
    → text_beq (token_key a a.token) (token_key a token) ≡ false
    → Both a token s user_id s1
    → Renewed a token s (move_device a token user_id (some d) s1)
unfolding move_device stored_device
stored-Renewed a token d s user_id s1 del differ differ' b =
    elim (upsert_device-cases a.collates a.writes_device a.db_now (refreshed_device a d) s1) [
      | inl failed ↦
          rw (failed, del)
            (
              lookup-del_other true (token_key a a.token) (token_key a token) s1 differ'
                  ∙ b.old_token,
              inr (lookup-del (token_key a a.token) s1),
            )
      | inr (t, e, tokens, users) ↦ rw e (
          retire-Renewed a token d.token_hash s user_id t del differ (record {
            old_token = ap (lookup (token_key a token)) tokens ∙ b.old_token;
            new_token = ap (lookup (token_key a a.token)) tokens ∙ b.new_token;
            led = b.led;
          }))
    ]

move_device-Renewed :
    (a : Answers) (token : Text) (d : Option UserDevice) (s : Store) (user_id : ℕ) (s1 : Store)
    → a.deletes_token ≡ true
    → text_beq (token_key a token) (token_key a a.token) ≡ false
    → text_beq (token_key a a.token) (token_key a token) ≡ false
    → Both a token s user_id s1
    → Renewed a token s (move_device a token user_id d s1)
unfolding move_device
move_device-Renewed a token none s user_id s1 del differ differ' b =
    retire-Renewed a token [] s user_id s1 del differ b
move_device-Renewed a token (some d) s user_id s1 del differ differ' b =
    stored-Renewed a token d s user_id s1 del differ differ' b

set_token-Both :
    (a : Answers) (token : Text) (s : Store) (value : Text) (user_id : ℕ)
    → text_beq (token_key a a.token) (token_key a token) ≡ false
    → lookup (token_key a token) s.tokens ≡ some value
    → stoull value ≡ some user_id
    → Both a token s user_id (redis_set_ex true (token_key a a.token) (to_string user_id) s).1
set_token-Both a token s value user_id differ' found read = record {
  old_token =
      lookup-insert (token_key a a.token) (token_key a token) (to_string user_id) s.tokens
      ∙ ap (λ t. if t then some (to_string user_id) else lookup (token_key a token) s.tokens)
          differ';
  new_token =
      lookup-insert (token_key a a.token) (token_key a a.token) (to_string user_id) s.tokens
      ∙ ap (λ t. if t then some (to_string user_id) else lookup (token_key a a.token) s.tokens)
          (beq_self (token_key a a.token));
  led = (value, found, read);
}

renew-Renewed :
    (a : Answers) (token device_id : Text) (s : Store) (value : Text) (user_id : ℕ)
    → a.deletes_token ≡ true
    → text_beq (token_key a token) (token_key a a.token) ≡ false
    → text_beq (token_key a a.token) (token_key a token) ≡ false
    → lookup (token_key a token) s.tokens ≡ some value
    → stoull value ≡ some user_id
    → Renewed a token s (renew a token device_id user_id s)
unfolding renew drop_hash stored_device
renew-Renewed a token device_id s value user_id del differ differ' found read =
    let s1 = (redis_set_ex true (token_key a a.token) (to_string user_id) s).1 in
    elim (Bool-cases (is_blank a.token)) [
      | inl blank ↦ rw (blank, renew) (refl, inl refl)
      | inr token_ok ↦ elim (Bool-cases a.sets_token) [
        | inr unset ↦ rw (token_ok, unset, renew) (refl, inl refl)
        | inl set ↦
            rw (token_ok, set, renew)
              (move_device-Renewed a token
                (if a.has_device_dao && not (is_blank device_id)
                  then get_device a.collates a.reads_device user_id device_id s1
                  else none)
                s user_id s1 del differ differ'
                (set_token-Both a token s value user_id differ' found read))
      ]
    ]

renew_value-Renewed :
    (a : Answers) (token device_id : Text) (o : Option Text) (s : Store)
    → a.deletes_token ≡ true
    → text_beq (token_key a token) (token_key a a.token) ≡ false
    → text_beq (token_key a a.token) (token_key a token) ≡ false
    → (o ≡ none) ⊎ (lookup (token_key a token) s.tokens ≡ o)
    → Renewed a token s (renew_value a token device_id o s)
unfolding renew_value
renew_value-Renewed a token device_id none s del differ differ' h = (refl, inl refl)
renew_value-Renewed a token device_id (some value) s del differ differ' (inl e) = absurd (cc)
renew_value-Renewed a token device_id (some value) s del differ differ' (inr found) =
    elim (Option-cases (stoull value)) [
      | inl bad ↦ rw (bad, renew_value) (refl, inl refl)
      | inr (user_id, read) ↦
          rw (read, renew_value)
            (renew-Renewed a token device_id s value user_id del differ differ' found read)
    ]

redis_get-cases :
    (b : Bool) (key : Text) (s : Store)
    → (redis_get b key s ≡ none) ⊎ (lookup key s.tokens ≡ redis_get b key s)
redis_get-cases true key s = inr refl
redis_get-cases false key s = inl refl

-- Where the old and the new token have different keys and deletions of them are carried out,
-- RefreshToken without a session leaves the old token as it was, and the new one as it was or
-- gone; with a session the old token led to the session's user and is gone, and the new one
-- leads to that user.
pub refresh_token-Renewed :
    (a : Answers) (token device_id : Text) (s : Store)
    → a.deletes_token ≡ true
    → token_key a token ≢ token_key a a.token
    → Renewed a token s (refresh_token a token device_id s)
unfolding refresh_token
refresh_token-Renewed a token device_id s del ne =
    elim (Option-cases (refuse_refresh a token device_id)) [
      | inr (code, refused) ↦ rw (refused, refresh_token) (refl, inl refl)
      | inl passed ↦
          rw (passed, refresh_token)
            (renew_value-Renewed a token device_id (redis_get a.reads_token (token_key a token) s) s
              del (beq_ne (token_key a token) (token_key a a.token) ne)
              (beq_ne (token_key a a.token) (token_key a token) (λ e. ne (sym e)))
              (redis_get-cases a.reads_token (token_key a token) s))
    ]
