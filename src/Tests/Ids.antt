-- ===== src/Tests/Ids.antt =====
-- The id generator with node 3, and one with node 4, at a clock that steps back.
use nebula_im.Base.{ℕ, ◌+◌, ◌*◌, ◌^◌, ◌≡◌, ◌≢◌, refl, some, [], ◌∷◌, arith}
use nebula_im.Message.IdGenerator.{
  Generator, Clock, current_ms, wait_next_ms, later_ms, first_ms, stamp, compose, issue, next_id,
  next_ids,
}
use nebula_im.Message.IdGenerator.Fields.{next_id_distinct}
use nebula_im.Message.IdGenerator.Runs.{
  AllBelow, Increasing, floor, next_ids-Increasing, next_id_returns,
}

abbrev busy : Generator
busy = record { node_id = 3; last_timestamp_ms = 1767225600100; sequence = 4095 }

abbrev other : Generator
other = record { node_id = 4; last_timestamp_ms = 1767225600100; sequence = 4095 }

-- The last millisecond is used up, and the clock stands still, then goes on, then steps back.
abbrev readings : Clock
readings = 1767225600100 ∷ 1767225600100 ∷ 1767225600101 ∷ 1767225600090 ∷ []

abbrev busy_after : Generator
busy_after = record { node_id = 3; last_timestamp_ms = 1767225600101; sequence = 0 }

abbrev other_after : Generator
other_after = record { node_id = 4; last_timestamp_ms = 1767225600101; sequence = 0 }

abbrev busy_id : ℕ
busy_id = 101 * 2 ^ 22 + 3 * 2 ^ 12

abbrev other_id : ℕ
other_id = 101 * 2 ^ 22 + 4 * 2 ^ 12

busy_runs : next_id busy readings ≡ some (busy_id, busy_after, [])
unfolding current_ms wait_next_ms later_ms first_ms stamp compose issue next_id
busy_runs = refl

other_runs : next_id other readings ≡ some (other_id, other_after, [])
unfolding current_ms wait_next_ms later_ms first_ms stamp compose issue next_id
other_runs = refl

busy_twice : next_ids 1 busy readings ≡ some (busy_id ∷ [], busy_after, [])
unfolding current_ms wait_next_ms later_ms first_ms stamp compose issue next_id next_ids
busy_twice = refl

next_id_distinct_example : busy_id ≢ other_id
next_id_distinct_example =
    next_id_distinct busy busy_after other other_after busy_id other_id readings [] readings []
      (omega arith) (omega arith) (omega arith) (omega arith) busy_runs other_runs (omega arith)
      (omega arith) (omega arith)

below : AllBelow 1767225600200 readings
below = (omega arith, (omega arith, (omega arith, (omega arith, tt))))

next_ids-Increasing_example : Increasing (floor busy) (busy_id ∷ [])
next_ids-Increasing_example =
    next_ids-Increasing 1 1767225600200 busy busy_after readings [] (busy_id ∷ []) (omega arith)
      (omega arith) below (omega arith) (omega arith) busy_twice

next_id_returns_example : (r : ℕ × Generator × Clock) × (next_id busy readings ≡ some r)
next_id_returns_example =
    next_id_returns busy 1767225600100 1767225600101 1767225600090 (1767225600100 ∷ []) []
      (omega arith) (omega arith, omega arith, tt) (omega arith)
