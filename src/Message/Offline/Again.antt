-- ===== src/Message/Offline/Again.antt =====
-- A pull that is repeated before its messages are acknowledged.
use nebula_im.Base.{ℕ, ◌≡◌, Bool, List, if◌then◌else◌}
use nebula_im.Fault.ErrorCode.{ErrorCode}
use nebula_im.Message.Offline.{
  OfflineMessage, list_offline_messages, mark_batch_as_pulled, PullAnswers, Pulled, read_all,
  refuse_pull, finish_pull,
}

module _ {D : Type 0} where
  -- A second pull gives the same reply.
  abbrev Repeats :
      (List OfflineMessage → Pulled D)
      → (List OfflineMessage → Pulled D)
      → List OfflineMessage
      → Type 0
  Repeats first second rows =
      ((second (first rows).rows).code ≡ (first rows).code)
      × ((second (first rows).rows).messages ≡ (first rows).messages)

  abbrev guarded :
      Bool → ErrorCode → (List OfflineMessage → Pulled D) → List OfflineMessage → Pulled D
  guarded refuses code next rows = if refuses then refuse_pull code rows else next rows

  -- The handler behind its guards.
  abbrev admitted : PullAnswers D → ℕ → ℕ → ℕ → List OfflineMessage → Pulled D
  admitted a now u n rows =
      let read = read_all a.deserialize (list_offline_messages a.lists u n rows) in
      finish_pull a.commits read.0 (mark_batch_as_pulled a.marks u read.1 now rows) rows
