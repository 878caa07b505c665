-- ===== src/Sync/Producer.antt =====
-- src/modules/sync/sync-producer.service.ts: publishing to RabbitMQ with a publisher confirm. What
-- the broker answers to the n-th publish is a parameter; a confirm that comes after the five
-- seconds leaves a message that is queued and reported as not published.
use k_pos_be.Common.{ℕ, suc, String, List, [], ◌∷◌, ◌++◌, eqb, if◌then◌else◌}
use k_pos_be.Schema.{SyncTransactionDto}
use k_pos_be.Prisma.Action.{
  Action, World, Message, ok, err, internal, service_unavailable, ⊤, pure, throw, try_catch,
}

pub data Confirm : Type 0 where
  confirmed : Confirm
  refused : String → Confirm
  timed_out : Confirm

-- The answer to the publish that is made at a tick.
pub record Broker : Type 0 where
  pub answer : ℕ → Confirm

abbrev pub enqueue : Message → World → World
enqueue m w = record w { tick = suc w.tick; sent = w.sent ++ (m ∷ []) }

abbrev pub deliver : Confirm → Message → Action ⊤
deliver confirmed m w = (ok tt, enqueue m w)
deliver (refused reason) m w = (err (internal reason), record w { tick = suc w.tick })
deliver timed_out m w = (err (internal "Publisher confirm timed out after 5000ms"), enqueue m w)

-- the queue of a retry, by its attempt
unfoldable pub retry_queue : ℕ → String
retry_queue attempt =
    if eqb attempt 1
    then "sync.retry.5s"
    else if eqb attempt 2
    then "sync.retry.30s"
    else "sync.retry.120s"

module _ (broker : Broker) where
  unfoldable pub publish_with_confirm : String → List SyncTransactionDto → Action ⊤
  publish_with_confirm queue body w =
      deliver (broker.answer w.tick) (record { queue = queue; body = body }) w

  unfoldable pub publish_batch : List SyncTransactionDto → Action ⊤
  publish_batch transactions =
      try_catch (publish_with_confirm "sync.transactions" transactions) pure
        (λ _. throw (service_unavailable "Message broker is currently unavailable. Retry later."))

  unfoldable pub publish_to_retry : List SyncTransactionDto → ℕ → Action ⊤
  publish_to_retry transactions attempt =
      try_catch (publish_with_confirm (retry_queue attempt) transactions) pure (λ _. pure tt)
