-- ===== src/Message/IdGenerator/Fields.antt =====
-- The fields of an id, and the order of ids, while the time stamp fits its 42 bits.
use nebula_im.Base.{
  ℕ, ◌+◌, ◌-◌, ◌*◌, ◌/◌, ◌%◌, ◌^◌, ◌≤◌, ◌<◌, ◌≡◌, ◌≢◌, arith, ap, ◌∙◌, some, bit_or,
}
use nebula_im.Base.Bits.{or_fields}
use nebula_im.Message.IdGenerator.{Generator, Clock, epoch_ms, max_node_id, compose, next_id}
use nebula_im.Message.IdGenerator.Order.{IsValid, Advances, next_id-Advances}

-- Until the year 2165.
abbrev pub Fits : ℕ → Type 0
Fits now = now < epoch_ms + 2 ^ 42

-- The three fields of an id side by side.
pub compose-eq-sum :
    (now node_id sequence : ℕ)
    → epoch_ms ≤ now
    → Fits now
    → node_id ≤ max_node_id
    → sequence < 4096
    → compose now node_id sequence ≡ (now - epoch_ms) * 2 ^ 22 + node_id * 2 ^ 12 + sequence
unfolding compose
compose-eq-sum now node_id sequence h k n s =
    ap (λ t. bit_or (bit_or t (node_id * 2 ^ 12)) sequence)
      (let e : (now - epoch_ms) * 2 ^ 22 % 2 ^ 64 ≡ (now - epoch_ms) * 2 ^ 22 = omega arith in e)
    ∙ ap (λ t. bit_or t sequence) (or_fields 22 (now - epoch_ms) (node_id * 2 ^ 12) (omega arith))
    ∙ ap (λ t. bit_or t sequence)
        (let e : (now - epoch_ms) * 2 ^ 22 + node_id * 2 ^ 12
              ≡ ((now - epoch_ms) * 2 ^ 10 + node_id) * 2 ^ 12 =
            omega arith in
          e)
    ∙ or_fields 12 ((now - epoch_ms) * 2 ^ 10 + node_id) sequence (omega arith)
    ∙ (omega arith)

pub id_sum :
    (g g' : Generator) (id : ℕ)
    → Advances g id g'
    → Fits g'.last_timestamp_ms
    → id ≡ (g'.last_timestamp_ms - epoch_ms) * 2 ^ 22 + g'.node_id * 2 ^ 12 + g'.sequence
id_sum g g' id a h =
    a.composed
    ∙ compose-eq-sum g'.last_timestamp_ms g'.node_id g'.sequence a.since_epoch h a.valid.node
        a.valid.sequence

-- An id that a valid generator gives, with a time stamp that fits 42 bits after the epoch,
-- holds that time stamp, the node id and the sequence number in bits 22 and up, bits 12 to
-- 21, and bits 0 to 11.
next_id_fields :
    (g g' : Generator) (id : ℕ) (clock rest : Clock)
    → IsValid g
    → g.last_timestamp_ms < 2 ^ 64 - 1
    → next_id g clock ≡ some (id, g', rest)
    → Fits g'.last_timestamp_ms
    → (id / 2 ^ 22 + epoch_ms ≡ g'.last_timestamp_ms)
      × (id / 2 ^ 12 % 2 ^ 10 ≡ g.node_id)
      × (id % 2 ^ 12 ≡ g'.sequence)
next_id_fields g g' id clock rest v small e fits =
    let a = next_id-Advances g g' id clock rest v small e in
    let sum = id_sum g g' id a fits in
    let node = a.valid.node in
    let seq = a.valid.sequence in
    let since = a.since_epoch in let same = a.same_node in (omega arith, omega arith, omega arith)

-- Two valid generators with different node ids never give the same id, while their time
-- stamps fit 42 bits after the epoch.
pub next_id_distinct :
    (g g' h h' : Generator) (id id' : ℕ) (clock rest clock' rest' : Clock)
    → IsValid g
    → IsValid h
    → g.last_timestamp_ms < 2 ^ 64 - 1
    → h.last_timestamp_ms < 2 ^ 64 - 1
    → next_id g clock ≡ some (id, g', rest)
    → next_id h clock' ≡ some (id', h', rest')
    → Fits g'.last_timestamp_ms
    → Fits h'.last_timestamp_ms
    → g.node_id ≢ h.node_id
    → id ≢ id'
next_id_distinct g g' h h' id id' clock rest clock' rest' vg vh sg sh eg eh fg fh ne same = ne (
    omega (
      arith,
      next_id_fields g g' id clock rest vg sg eg fg,
      next_id_fields h h' id' clock' rest' vh sh eh fh,
    ))
