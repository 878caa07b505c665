-- ===== src/Sync/Retry.antt =====
-- The dead letters: a retry, or the record of a failure.
use k_pos_be.Common.{
  ◌≡◌, refl, ◌≤◌, ◌<◌, leb, Bool-cases, inl, inr, Option, none, some, [], ◌∷◌, ◌++◌, arith, String,
}
use k_pos_be.Schema.{SyncQueue, SyncTransactionDto}
use k_pos_be.Prisma.{Prisma}
use k_pos_be.Prisma.Action.{World, Message, pure, try_catch, recover, branch}
use k_pos_be.Prisma.Keeps.{Keeps}
use k_pos_be.Prisma.Kept.{kept_rules}
use k_pos_be.Prisma.Quiet.{IsQuiet, quiet_rules}
use k_pos_be.Sync.Producer.{
  Broker, Confirm, confirmed, refused, timed_out, deliver, publish_with_confirm, publish_to_retry,
  retry_queue,
}
use k_pos_be.Sync.Failure.{record_terminal_failure, record_entry, queue_entry}
use k_pos_be.Sync.Consumer.{next_attempt, max_retries, handle_dead_letter}
use k_pos_be.Sync.Outcome.{IsQueueOnly, sync_queue-IsApart}

-- the message of a retry
abbrev pub retry_of : SyncTransactionDto → Message
retry_of dto = record {
  queue = retry_queue (next_attempt dto);
  body = record dto { retry_attempt = some (next_attempt dto) } ∷ [];
}

module _ (prisma : Prisma) where
  entry-IsQueueOnly :
      (dto : SyncTransactionDto) (o : Option SyncQueue)
      → Keeps IsQueueOnly (record_entry prisma dto o)
  unfolding record_entry queue_entry
  entry-IsQueueOnly dto none = search (kept_rules, sync_queue-IsApart) depth 12
  entry-IsQueueOnly dto (some entry) = search (kept_rules, sync_queue-IsApart) depth 12

  terminal-IsQueueOnly :
      (dto : SyncTransactionDto) → Keeps IsQueueOnly (record_terminal_failure prisma dto)
  unfolding record_terminal_failure
  terminal-IsQueueOnly dto = search (kept_rules, sync_queue-IsApart, entry-IsQueueOnly) depth 12

  entry-IsQuiet :
      (dto : SyncTransactionDto) (o : Option SyncQueue) → IsQuiet (record_entry prisma dto o)
  unfolding record_entry queue_entry
  entry-IsQuiet dto none = search quiet_rules depth 12
  entry-IsQuiet dto (some entry) = search quiet_rules depth 12

  terminal-IsQuiet : (dto : SyncTransactionDto) → IsQuiet (record_terminal_failure prisma dto)
  unfolding record_terminal_failure
  terminal-IsQuiet dto = search (quiet_rules, entry-IsQuiet) depth 12

  module _ (broker : Broker) (dto : SyncTransactionDto) where
    -- The ways to handle a dead letter.
    pub data IsHandled (w w' : World) : Type 0 where
      retried :
          next_attempt dto ≤ 3
          → w'.db ≡ w.db
          → w'.sent ≡ w.sent ++ (retry_of dto ∷ [])
          → IsHandled w w'
      lost :
          next_attempt dto ≤ 3
          → (reason : String) → broker.answer w.tick ≡ refused reason
          → w'.db ≡ w.db
          → w'.sent ≡ w.sent
          → IsHandled w w'
      given_up : 3 < next_attempt dto → IsQueueOnly w.db w'.db → w'.sent ≡ w.sent → IsHandled w w'

    publish-IsHandled :
        (w : World)
        → next_attempt dto ≤ 3
        → IsHandled w
            (publish_to_retry broker
              (record dto { retry_attempt = some (next_attempt dto) } ∷ [])
              (next_attempt dto)
              w).1
    unfolding publish_to_retry publish_with_confirm try_catch pure
    publish-IsHandled w few = go (broker.answer w.tick) refl
      where
        go :
            (c : Confirm)
            → broker.answer w.tick ≡ c
            → IsHandled w
                (recover
                  (deliver c (retry_of dto) w).0
                  pure
                  (λ _. pure tt)
                  (deliver c (retry_of dto) w).1).1
        go confirmed e = retried few refl refl
        go (refused reason) e = lost few reason e refl refl
        go timed_out e = retried few refl refl

    -- However the broker answers, a dead letter whose next attempt is at most the third is queued
    -- again with that attempt, or lost where the broker refuses it, and the database is as it was; on
    -- a later attempt nothing is queued, and nothing but SyncQueue changes.
    pub handle_dead_letter_lem :
        (w : World) → IsHandled w (handle_dead_letter prisma broker dto w).1
    unfolding handle_dead_letter branch
    handle_dead_letter_lem w = elim (Bool-cases (leb (next_attempt dto) max_retries)) [
      | inl h ↦ rw h (publish-IsHandled w (ground arith))
      | inr h ↦
          rw h (
            given_up (ground arith) ((terminal-IsQueueOnly dto).at w) ((terminal-IsQuiet dto).at w))
    ]
