-- ===== src/Sync/Service.antt =====
-- src/modules/sync/sync.service.ts and sync.controller.ts: the check of a batch before it is
-- queued, and the status of what was sent.
use Prim.Native.String.{◌++◌}
use k_pos_be.Common.{
  String, Bool, false, not, ◌&&◌, ◌||◌, Option, none, some, List, [], ◌∷◌, ◌==◌, any, map, is_empty,
  ℕ, length, if◌then◌else◌,
}
use k_pos_be.Schema.{
  Transaction, SyncQueue, SyncTransactionDto, Document, is_conflict, same_key, transactions,
  sync_queue,
}
use k_pos_be.Crypto.{Crypto}
use k_pos_be.Prisma.{Prisma}
use k_pos_be.Prisma.Action.{
  Action, Result, ok, err, bad_request, conflict, pure, lift, ◌>>=◌, ◌>>◌, throw_if, find_all,
}
use k_pos_be.Sync.Producer.{Broker, publish_batch}

-- `xs.find(p)`
abbrev pub find_item : {A : Type 0} → (A → Bool) → List A → Option A
find_item p [] = none
find_item p (x ∷ xs) = if p x then some x else find_item p xs

abbrev pub includes : List String → String → Bool
includes xs s = any (λ x. x == s) xs

-- a nullable column in a list of texts
abbrev pub included : List String → Option String → Bool
included xs none = false
included xs (some s) = includes xs s

-- `existing && existing.payload_hash !== hash`
pub is_mismatch : String → Option Transaction → Bool
is_mismatch hash none = false
is_mismatch hash (some t) = not (same_key t.payload_hash (some hash))

-- `status`, `transaction_id` and `error` of a uuid
pub data SyncState : Type 0 where
  synced_state conflict_state : String → SyncState
  failed_state : Option Document → SyncState
  unknown_state : SyncState

state_of_queue : Option SyncQueue → SyncState
state_of_queue none = unknown_state
state_of_queue (some q) = failed_state q.last_error

state_of : Option Transaction → Option SyncQueue → SyncState
unfolding state_of_queue
state_of (some t) q =
    if is_conflict t.sync_status
    then conflict_state t.id_transaction
    else synced_state t.id_transaction
state_of none q = state_of_queue q

unfoldable pub status_of : List Transaction → List SyncQueue → String → SyncState
unfolding state_of
status_of txs queues uuid = state_of (find_item (λ t. same_key t.offline_uuid (some uuid)) txs) (
    find_item (λ q. same_key q.offline_uuid (some uuid) || same_key q.id_transaction (some uuid))
      queues)

-- `{ ...t, id_device }`
abbrev pub with_device : String → SyncTransactionDto → SyncTransactionDto
with_device id_device t = record t { id_device = id_device }

module _ (crypto : Crypto) where
  -- the loop of `validateBatch`, which attaches the hashes
  unfoldable pub hash_all :
      List Transaction → List SyncTransactionDto → Result (List SyncTransactionDto)
  unfolding is_mismatch
  hash_all existing [] = ok []
  hash_all existing (tx ∷ txs) =
      let hash = crypto.sha256_payload tx.items tx.payment in
      let rest : Result (List SyncTransactionDto) = elim (hash_all existing txs) [
        | ok hashed ↦ ok (record tx { payload_hash = some hash } ∷ hashed)
        | err e ↦ err e
      ] in
      if is_mismatch hash (find_item (λ e. same_key e.offline_uuid (some tx.offline_uuid)) existing)
      then err (
          conflict (
            "IDEMPOTENCY_PAYLOAD_MISMATCH: Transaction "
            ++ (tx.offline_uuid ++ " has a different payload")))
      else rest

  module _ (prisma : Prisma) where
    unfoldable pub validate_batch :
        String → List SyncTransactionDto → Action (List SyncTransactionDto)
    validate_batch id_device batch = do
      existing ← find_all prisma transactions (λ t.
          t.id_device == id_device && included (map (λ x. x.offline_uuid) batch) t.offline_uuid)
      lift (hash_all existing batch)

    -- `POST /sync`; the number of accepted transactions
    unfoldable pub sync_transactions : Broker → String → List SyncTransactionDto → Action ℕ
    sync_transactions broker id_device batch = do
      throw_if (is_empty id_device) (bad_request "X-Device-ID header is required")
      hashed ← validate_batch id_device batch
      publish_batch broker (map (with_device id_device) hashed)
      pure (length batch)

module _ (prisma : Prisma) where
  unfoldable pub get_status_by_offline_uuids : List String → Action (List (String × SyncState))
  unfolding status_of
  get_status_by_offline_uuids uuids = do
    txs ← find_all prisma transactions (λ t. included uuids t.offline_uuid)
    queues ←
        find_all prisma sync_queue
          (λ q. included uuids q.offline_uuid || included uuids q.id_transaction)
    pure (map (λ uuid. (uuid, status_of txs queues uuid)) uuids)
