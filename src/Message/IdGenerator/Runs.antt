-- ===== src/Message/IdGenerator/Runs.antt =====
-- The ids of a run of calls increase, and a call returns as soon as the clock moves.
use nebula_im.Base.{
  ℕ, zero, suc, ◌+◌, ◌-◌, ◌*◌, ◌^◌, ◌≤◌, ◌<◌, ◌≡◌, ◌⊎◌, inl, inr, arith, List, [], ◌∷◌, ◌++◌, some,
  Option-cases, Bool-cases, bit_and, ◌==◌, subst, ltb, leb, ◌%◌, if◌then◌else◌,
}
use nebula_im.Message.IdGenerator.{
  Generator, Clock, epoch_ms, sequence_mask, clamp, current_ms, wait_next_ms, later_ms, first_ms,
  stamp, issue, next_id, next_ids,
}
use nebula_im.Message.IdGenerator.Order.{IsValid, Advances, next_id-Advances, later_ms-gt}
use nebula_im.Message.IdGenerator.Fields.{Fits, id_sum}

-- Every reading is below a bound.
abbrev pub AllBelow : ℕ → Clock → Type 0
AllBelow top [] = Unit {0}
AllBelow top (t ∷ clock) = (t < top) × AllBelow top clock

wait_next_ms-AllBelow :
    (top last : ℕ) (clock rest : Clock)
    → AllBelow top clock
    → wait_next_ms last clock ≡ some rest
    → AllBelow top rest
unfolding wait_next_ms
wait_next_ms-AllBelow top last [] rest h e = cc
wait_next_ms-AllBelow top last (t ∷ clock) rest h e =
    ground (arith, wait_next_ms-AllBelow top last clock rest h.1)

current_ms-AllBelow :
    (top now : ℕ) (clock rest : Clock)
    → AllBelow top clock
    → current_ms clock ≡ some (now, rest)
    → (now < top) × AllBelow top rest
unfolding current_ms
current_ms-AllBelow top now [] rest h e = cc
current_ms-AllBelow top now (t ∷ clock) rest h e = ground arith

later_ms-AllBelow :
    (top last now : ℕ) (clock rest : Clock)
    → epoch_ms < top
    → AllBelow top clock
    → later_ms last clock ≡ some (now, rest)
    → ((now < top) ⊎ (now ≤ last + 1)) × AllBelow top rest
unfolding later_ms
later_ms-AllBelow top last now clock rest high h e = elim (Option-cases (wait_next_ms last clock)) [
  | inl stuck ↦ absurd (ground arith)
  | inr (c₁, e₁) ↦ elim (Option-cases (current_ms c₁)) [
    | inl stuck ↦ absurd (ground arith)
    | inr ((t, c₂), e₂) ↦
        let b = current_ms-AllBelow top t c₁ c₂ (wait_next_ms-AllBelow top last clock c₁ h e₁) e₂ in
        ground arith
  ]
]

-- A time stamp that a reading bounds, or that is one step past the last.
abbrev Reached : ℕ → ℕ → ℕ → Type 0
Reached top last now = (now < top) ⊎ (now ≤ last + 1)

first_ms-AllBelow :
    (top last now : ℕ) (clock rest : Clock)
    → epoch_ms < top
    → AllBelow top clock
    → first_ms last clock ≡ some (now, rest)
    → Reached top last now × AllBelow top rest
unfolding first_ms
first_ms-AllBelow top last now clock rest high h e = elim (Option-cases (current_ms clock)) [
  | inl stuck ↦ absurd (ground arith)
  | inr ((t, c₁), e₁) ↦
      let b = current_ms-AllBelow top t clock c₁ h e₁ in
      ground (arith, later_ms-AllBelow top last now c₁ rest high b.1)
]

stamp-AllBelow :
    (top now now' sequence : ℕ) (g : Generator) (clock rest : Clock)
    → epoch_ms < top
    → Reached top g.last_timestamp_ms now
    → AllBelow top clock
    → stamp g (now, clock) ≡ some (now', sequence, rest)
    → Reached top g.last_timestamp_ms now' × AllBelow top rest
unfolding stamp
stamp-AllBelow top now now' sequence g clock rest high r h e =
    ground (arith, later_ms-AllBelow top g.last_timestamp_ms now' clock rest high h)

next_id-AllBelow :
    (top id : ℕ) (g g' : Generator) (clock rest : Clock)
    → epoch_ms < top
    → AllBelow top clock
    → next_id g clock ≡ some (id, g', rest)
    → Reached top g.last_timestamp_ms g'.last_timestamp_ms × AllBelow top rest
unfolding next_id issue
next_id-AllBelow top id g g' clock rest high h e =
    elim (Option-cases (first_ms g.last_timestamp_ms clock)) [
      | inl stuck ↦ absurd (ground arith)
      | inr ((now, c₁), e₁) ↦ elim (Option-cases (stamp g (now, c₁))) [
        | inl stuck ↦ absurd (ground arith)
        | inr ((now', sequence, c₂), e₂) ↦
            let b = first_ms-AllBelow top g.last_timestamp_ms now clock c₁ high h e₁ in
            let b' = stamp-AllBelow top now now' sequence g c₁ c₂ high b.0 b.1 e₂ in ground arith
      ]
    ]

AllBelow-mono : (top : ℕ) (clock : Clock) → AllBelow top clock → AllBelow (top + 1) clock
AllBelow-mono top [] h = tt
AllBelow-mono top (t ∷ clock) h = (omega arith, AllBelow-mono top clock h.1)

-- Each number is at least the bound, and above the one before it.
abbrev pub Increasing : ℕ → List ℕ → Type 0
Increasing low [] = Unit {0}
Increasing low (x ∷ xs) = (low ≤ x) × Increasing (suc x) xs

-- The least id that may come next.
abbrev pub floor : Generator → ℕ
floor g =
    if ltb g.last_timestamp_ms epoch_ms
    then 0
    else (g.last_timestamp_ms - epoch_ms) * 2 ^ 22 + g.node_id * 2 ^ 12 + g.sequence + 1

floor-le :
    (g g' : Generator) (id : ℕ)
    → IsValid g
    → Advances g id g'
    → Fits g'.last_timestamp_ms
    → (floor g ≤ id) × (floor g' ≡ suc id)
floor-le g g' id v a fits = ground (arith, id_sum g g' id a fits)

-- If some calls of nextId in a row return, their ids increase strictly, and begin no lower
-- than just above the last id of the state they start from, if that had one. The clock may
-- step back; its readings and the last time stamp are below a bound that, with one
-- millisecond more for each call, is less than 2^42 ms after the epoch.
pub next_ids-Increasing :
    (n top : ℕ) (g g' : Generator) (clock rest : Clock) (ids : List ℕ)
    → IsValid g
    → epoch_ms < top
    → AllBelow top clock
    → g.last_timestamp_ms < top
    → top + n < epoch_ms + 2 ^ 42
    → next_ids n g clock ≡ some (ids, g', rest)
    → Increasing (floor g) ids
unfolding next_ids
next_ids-Increasing zero top g g' clock rest ids v high h low fits e =
    let shape : [] ≡ ids = ground arith in subst (Increasing (floor g)) shape tt
next_ids-Increasing (suc n) top g g' clock rest ids v high h low fits e =
    elim (Option-cases (next_id g clock)) [
      | inl stuck ↦ absurd (ground arith)
      | inr ((id, g₁, c₁), e₁) ↦ elim (Option-cases (next_ids n g₁ c₁)) [
        | inl stuck ↦ absurd (ground arith)
        | inr ((more, g₂, c₂), e₂) ↦
            let a = next_id-Advances g g₁ id clock c₁ v (omega arith) e₁ in
            let b = next_id-AllBelow top id g g₁ clock c₁ high h e₁ in
            let next : g₁.last_timestamp_ms < top + 1 = omega arith in
            let fl = floor-le g g₁ id v a (omega arith) in
            let rest_up =
              next_ids-Increasing n (top + 1) g₁ g₂ c₁ c₂ more a.valid (omega arith)
                (AllBelow-mono top c₁ b.1) next (omega arith) e₂ in
            let shape : id ∷ more ≡ ids = ground arith in
            subst (Increasing (floor g)) shape (fl.0, subst (λ t. Increasing t more) fl.1 rest_up)
      ]
    ]

-- Readings at which a wait goes on.
abbrev pub Stuck : ℕ → Clock → Type 0
Stuck last [] = Unit {0}
Stuck last (t ∷ clock) = (epoch_ms ≤ t) × (t ≤ last) × Stuck last clock

wait_next_ms_ends :
    (last t : ℕ) (stuck clock : Clock)
    → Stuck last stuck
    → last < t
    → wait_next_ms last (stuck ++ t ∷ clock) ≡ some clock
unfolding wait_next_ms
wait_next_ms_ends last t [] clock h k = ground arith
wait_next_ms_ends last t (u ∷ stuck) clock h k =
    ground (arith, wait_next_ms_ends last t stuck clock h.2)

-- A clock that has moved past the last time stamp after some readings ends the call: at most
-- those, the one that is past it, and two more are read.
pub later_ms_ends :
    (last t u : ℕ) (stuck clock : Clock)
    → Stuck last stuck
    → last < t
    → (now : ℕ) × (later_ms last (stuck ++ t ∷ u ∷ clock) ≡ some (now, clock))
unfolding later_ms current_ms
later_ms_ends last t u stuck clock h k = (
  if leb (clamp u) last then (last + 1) % 2 ^ 64 else clamp u,
  rw (wait_next_ms_ends last t stuck (u ∷ clock) h k),
)

stamp_returns :
    (g : Generator) (now t u : ℕ) (stuck clock : Clock)
    → Stuck g.last_timestamp_ms stuck
    → g.last_timestamp_ms < t
    → (r : ℕ × ℕ × Clock) × (stamp g (now, stuck ++ t ∷ u ∷ clock) ≡ some r)
unfolding stamp
stamp_returns g now t u stuck clock h k =
    let (later, e) = later_ms_ends g.last_timestamp_ms t u stuck clock h k in
    let sequence = bit_and (g.sequence + 1) sequence_mask in
    elim (Bool-cases (now == g.last_timestamp_ms)) [
      | inr other ↦ ((now, 0, stuck ++ t ∷ u ∷ clock), rw other)
      | inl same ↦ elim (Bool-cases (sequence == 0)) [
        | inl wrapped ↦ ((later, sequence, clock), rw (same, wrapped, e))
        | inr fresh ↦ ((now, sequence, stuck ++ t ∷ u ∷ clock), rw (same, fresh))
      ]
    ]

stamp_past :
    (g : Generator) (now : ℕ) (clock : Clock)
    → g.last_timestamp_ms < now
    → stamp g (now, clock) ≡ some (now, 0, clock)
unfolding stamp
stamp_past g now clock h = ground arith

-- A call of nextId, on a generator whose last time stamp is below 2^64 - 1, returns if after
-- its first reading the clock gives any readings from the epoch on that are not past the last
-- time stamp, then one that is past it, and then one more.
pub next_id_returns :
    (g : Generator) (first t u : ℕ) (stuck clock : Clock)
    → g.last_timestamp_ms < 2 ^ 64 - 1
    → Stuck g.last_timestamp_ms stuck
    → g.last_timestamp_ms < t
    → (r : ℕ × Generator × Clock) × (next_id g (first ∷ (stuck ++ t ∷ u ∷ clock)) ≡ some r)
unfolding next_id first_ms current_ms
next_id_returns g first t u stuck clock small h k =
    elim (Bool-cases (ltb (clamp first) g.last_timestamp_ms)) [
      | inl behind ↦
          let (now, e) = later_ms_ends g.last_timestamp_ms t u stuck clock h k in
          let past = later_ms-gt g.last_timestamp_ms now (stuck ++ t ∷ u ∷ clock) clock small e in
          (issue g (now, 0, clock), rw (behind, e, stamp_past g now clock past.0))
      | inr level ↦
          let (r, e) = stamp_returns g (clamp first) t u stuck clock h k in
          (issue g r, rw (level, e))
    ]
