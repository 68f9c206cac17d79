-- ===== src/Message/IdGenerator/Order.antt =====
-- The time stamp and sequence number of each id are beyond those of the last.
use nebula_im.Base.{
  ℕ, ◌+◌, ◌-◌, ◌^◌, ◌≤◌, ◌<◌, ◌≡◌, ◌⊎◌, inl, inr, some, [], ◌∷◌, arith, Option-cases,
}
use nebula_im.Base.Bits.{and_4095}
use nebula_im.Message.IdGenerator.{
  Generator, Clock, epoch_ms, max_node_id, init, current_ms, later_ms, first_ms, stamp, compose,
  issue, next_id,
}

pub record IsValid (g : Generator) : Type 0 where
  pub node : g.node_id ≤ max_node_id
  pub sequence : g.sequence < 4096

-- The second comes behind the first.
abbrev pub Before : Generator → Generator → Type 0
Before g h =
    (g.last_timestamp_ms < h.last_timestamp_ms)
    ⊎ ((g.last_timestamp_ms ≡ h.last_timestamp_ms) × (g.sequence < h.sequence))

pub init-IsValid : (node_id : ℕ) → IsValid (init node_id)
unfolding init
init-IsValid node_id = ground arith

pub later_ms-gt :
    (last now : ℕ) (clock rest : Clock)
    → last < 2 ^ 64 - 1
    → later_ms last clock ≡ some (now, rest)
    → (last < now) × (epoch_ms ≤ now)
unfolding later_ms current_ms
later_ms-gt last now clock rest small e = ground arith

first_ms-ge :
    (last now : ℕ) (clock rest : Clock)
    → last < 2 ^ 64 - 1
    → first_ms last clock ≡ some (now, rest)
    → (last ≤ now) × (epoch_ms ≤ now)
unfolding first_ms current_ms
first_ms-ge last now [] rest small e = cc
first_ms-ge last now (t ∷ clock) rest small e =
    ground (arith, later_ms-gt last now clock rest small)

stamp-Before :
    (g : Generator) (now now' sequence : ℕ) (clock rest : Clock)
    → IsValid g
    → g.last_timestamp_ms < 2 ^ 64 - 1
    → g.last_timestamp_ms ≤ now
    → epoch_ms ≤ now
    → stamp g (now, clock) ≡ some (now', sequence, rest)
    → (sequence < 4096)
      × (epoch_ms ≤ now')
      × ((g.last_timestamp_ms < now') ⊎ ((g.last_timestamp_ms ≡ now') × (g.sequence < sequence)))
unfolding stamp
stamp-Before g now now' sequence clock rest v small h k e =
    ground (arith, and_4095 (g.sequence + 1), later_ms-gt g.last_timestamp_ms now' clock rest small)

-- What a call of `nextId` that returns has done: the id is composed of the new state, which is
-- valid and comes behind the old one.
pub record Advances (g : Generator) (id : ℕ) (g' : Generator) : Type 0 where
  pub valid : IsValid g'
  pub same_node : g'.node_id ≡ g.node_id
  pub since_epoch : epoch_ms ≤ g'.last_timestamp_ms
  pub before : Before g g'
  pub composed : id ≡ compose g'.last_timestamp_ms g'.node_id g'.sequence

issue-Advances :
    (g g' : Generator) (now' sequence id : ℕ) (clock rest : Clock)
    → IsValid g
    → (sequence < 4096)
      × (epoch_ms ≤ now')
      × ((g.last_timestamp_ms < now') ⊎ ((g.last_timestamp_ms ≡ now') × (g.sequence < sequence)))
    → issue g (now', sequence, clock) ≡ (id, g', rest)
    → Advances g id g'
unfolding issue
issue-Advances g g' now' sequence id clock rest v h e = ground arith

-- A call of nextId that returns, on a valid generator whose last time stamp is below 2^64 - 1
-- and whatever the clock reads, leaves a valid generator of the same node with a time stamp
-- from the epoch on; time stamp and sequence number come later than before, in that order,
-- and the id is composed of them.
pub next_id-Advances :
    (g g' : Generator) (id : ℕ) (clock rest : Clock)
    → IsValid g
    → g.last_timestamp_ms < 2 ^ 64 - 1
    → next_id g clock ≡ some (id, g', rest)
    → Advances g id g'
unfolding next_id
next_id-Advances g g' id clock rest v small e =
    elim (Option-cases (first_ms g.last_timestamp_ms clock)) [
      | inl stuck ↦ absurd (ground arith)
      | inr ((now, clock₁), e₁) ↦ elim (Option-cases (stamp g (now, clock₁))) [
        | inl stuck ↦ absurd (ground arith)
        | inr ((now', sequence, clock₂), e₂) ↦
            let h = first_ms-ge g.last_timestamp_ms now clock clock₁ small e₁ in
            issue-Advances g g' now' sequence id clock₂ rest v
              (stamp-Before g now now' sequence clock₁ clock₂ v small h.0 h.1 e₂) (ground arith)
      ]
    ]
