-- ===== src/Sync/Consumer.antt =====
-- src/modules/sync/sync-consumer.service.ts: the handlers of the queue `sync.transactions` and of
-- the dead letters, over the steps of Process and Failure.
use k_pos_be.Common.{
  ℕ, ◌+◌, Bool, not, ◌&&◌, Option, none, some, List, [], ◌∷◌, ◌==◌, leb, or_else, is_empty, is_some,
  if◌then◌else◌,
}
use k_pos_be.Schema.{Transaction, SyncTransactionDto, same_key, transactions}
use k_pos_be.Prisma.{Prisma}
use k_pos_be.Prisma.Action.{Action, ⊤, pure, ◌>>=◌, ◌>>◌, try_catch, branch, for_each, find_first}
use k_pos_be.Sync.Process.{process_transaction}
use k_pos_be.Sync.Failure.{handle_failure, record_terminal_failure}
use k_pos_be.Sync.Producer.{Broker, publish_to_retry}

-- What the worker tells the broker of a delivery.
pub data Settled : Type 0 where
  ack nack : Settled

-- `id_device_offline_uuid`
abbrev pub is_duplicate : SyncTransactionDto → Transaction → Bool
is_duplicate dto t = t.id_device == dto.id_device && same_key t.offline_uuid (some dto.offline_uuid)

-- The payload of a dead letter: not an array, or an array, `none` for what is not an object.
pub data DlqPayload : Type 0 where
  not_array : DlqPayload
  array : List (Option SyncTransactionDto) → DlqPayload

-- `.filter((t) => t && typeof t === 'object' && t.offline_uuid && t.id_device)`
unfoldable pub valid_entries : List (Option SyncTransactionDto) → List SyncTransactionDto
valid_entries [] = []
valid_entries (none ∷ ts) = valid_entries ts
valid_entries (some t ∷ ts) =
    let rest = valid_entries ts in
    if not (is_empty t.offline_uuid) && not (is_empty t.id_device) then t ∷ rest else rest

abbrev pub max_retries : ℕ
max_retries = 3

-- `(data._retryAttempt ?? 0) + 1`
abbrev pub next_attempt : SyncTransactionDto → ℕ
next_attempt dto = or_else dto.retry_attempt 0 + 1

module _ (prisma : Prisma) where
  unfoldable pub sync_one : SyncTransactionDto → Action ⊤
  sync_one dto = find_first prisma transactions (is_duplicate dto) >>= λ existing.
      branch (is_some existing) (pure tt) (process_transaction prisma dto)

  -- one round of the loop over the batch
  unfoldable pub sync_item : SyncTransactionDto → Action ⊤
  sync_item dto = try_catch (sync_one dto) pure (handle_failure prisma dto)

  unfoldable pub handle_sync_transaction_batch : List SyncTransactionDto → Action Settled
  handle_sync_transaction_batch transactions = for_each transactions sync_item >> pure ack

  module _ (broker : Broker) where
    unfoldable pub handle_dead_letter : SyncTransactionDto → Action ⊤
    handle_dead_letter dto =
        let attempt = next_attempt dto in
        branch (leb attempt max_retries)
          (publish_to_retry broker (record dto { retry_attempt = some attempt } ∷ []) attempt)
          (record_terminal_failure prisma dto)

    unfoldable pub handle_dlq_message : DlqPayload → Action ⊤
    handle_dlq_message not_array = pure tt
    handle_dlq_message (array ts) = for_each (valid_entries ts) handle_dead_letter

    -- the consumer that `onModuleInit` registers on `sync.dlq`
    unfoldable pub consume_dlq : DlqPayload → Action Settled
    consume_dlq payload = try_catch (handle_dlq_message payload) (λ _. pure ack) (λ _. pure nack)
