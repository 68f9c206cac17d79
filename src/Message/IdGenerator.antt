-- ===== src/Message/IdGenerator.antt =====
-- common/message/MessageIdGenerator.{h,cpp}. The clock is the list of the values that the calls
-- of `currentMs` will return; `none` is a call that is still waiting when the list ends.
pub mod Order
pub mod Fields
pub mod Runs
use nebula_im.Base.{
  ℕ, zero, suc, ◌+◌, ◌-◌, ◌*◌, ◌/◌, ◌%◌, ◌^◌, ◌≡◌, Option, none, some, List, [], ◌∷◌, Bool, ◌||◌,
  ltb, leb, ◌==◌, if◌then◌else◌, ◌>>=◌, bit_or, bit_and,
}

abbrev pub epoch_ms : ℕ
epoch_ms = 1767225600000

abbrev pub max_node_id : ℕ
max_node_id = 1023

abbrev pub sequence_mask : ℕ
sequence_mask = 4095

pub record Generator : Type 0 where
  pub node_id : ℕ
  pub last_timestamp_ms : ℕ
  pub sequence : ℕ

pub init : ℕ → Generator
init node_id = record {
  node_id = if ltb max_node_id node_id then max_node_id else node_id;
  last_timestamp_ms = 0;
  sequence = 0;
}

abbrev pub Clock : Type 0
Clock = List ℕ

unfoldable pub current_ms : Clock → Option (ℕ × Clock)
current_ms [] = none
current_ms (t ∷ clock) = some (t, clock)

-- One reading for each round of the loop, which sleeps between them.
unfoldable pub wait_next_ms : ℕ → Clock → Option Clock
wait_next_ms last [] = none
wait_next_ms last (now ∷ clock) =
    if ltb now epoch_ms || ltb last now then some clock else wait_next_ms last clock

-- `if (now < kEpochMs) now = kEpochMs;`
abbrev pub clamp : ℕ → ℕ
clamp now = if ltb now epoch_ms then epoch_ms else now

-- What both waits do: wait, read again, and step past the last time stamp in any case.
unfoldable pub later_ms : ℕ → Clock → Option (ℕ × Clock)
later_ms last clock = do
  clock₁ ← wait_next_ms last clock
  (t, clock₂) ← current_ms clock₁
  let now = clamp t
  some (if leb now last then (last + 1) % 2 ^ 64 else now, clock₂)

-- The time stamp before the sequence number is looked at.
unfoldable pub first_ms : ℕ → Clock → Option (ℕ × Clock)
first_ms last clock = do
  (t, clock₁) ← current_ms clock
  let now = clamp t
  if ltb now last then later_ms last clock₁ else some (now, clock₁)

-- The time stamp and the sequence number of the next id.
unfoldable pub stamp : Generator → ℕ × Clock → Option (ℕ × ℕ × Clock)
stamp g (now, clock) =
    if now == g.last_timestamp_ms
    then (let sequence = bit_and (g.sequence + 1) sequence_mask in
        if sequence == 0
        then (do (now', clock') ← later_ms g.last_timestamp_ms clock; some (now', sequence, clock'))
        else some (now, sequence, clock))
    else some (now, 0, clock)

-- `((now - kEpochMs) << 22) | (node_id << 12) | sequence` in 64 bits.
unfoldable pub compose : ℕ → ℕ → ℕ → ℕ
compose now node_id sequence =
    bit_or (bit_or ((now - epoch_ms) * 2 ^ 22 % 2 ^ 64) (node_id * 2 ^ 12)) sequence

unfoldable pub issue : Generator → ℕ × ℕ × Clock → ℕ × Generator × Clock
issue g (now, sequence, clock) = (
  compose now g.node_id sequence,
  record g { last_timestamp_ms = now; sequence = sequence },
  clock,
)

unfoldable pub next_id : Generator → Clock → Option (ℕ × Generator × Clock)
next_id g clock = do
  timed ← first_ms g.last_timestamp_ms clock
  stamped ← stamp g timed
  some (issue g stamped)

-- The ids of `n` calls in a row.
unfoldable pub next_ids : ℕ → Generator → Clock → Option (List ℕ × Generator × Clock)
next_ids zero g clock = some ([], g, clock)
next_ids (suc n) g clock = do
  (id, g₁, clock₁) ← next_id g clock
  (ids, g₂, clock₂) ← next_ids n g₁ clock₁
  some (id ∷ ids, g₂, clock₂)
