-- ===== src/Api/Batches.antt =====
-- src/modules/sync/sync.controller.ts.
use k_pos_be.Common.{ℕ, String, Option, some, List, [], ◌∷◌, is_empty, split_on}
use k_pos_be.Schema.{SyncQueue, SyncTransactionDto}
use k_pos_be.User.{JwtPayload}
use k_pos_be.Crypto.{Crypto}
use k_pos_be.Prisma.{Prisma}
use k_pos_be.Prisma.Action.{Action, bad_request, ◌>>◌, throw_if}
use k_pos_be.Sync.Producer.{Broker}
use k_pos_be.Sync.Service.{SyncState, sync_transactions, get_status_by_offline_uuids}
use k_pos_be.Sync.FailedQueues.{get_failed_sync_queues}
use k_pos_be.Api.Guard.{owner_or_operator}

pub data SyncCall : Type 0 where
  -- the header X-Device-ID, empty where it is missing, and the body
  post_sync : String → List SyncTransactionDto → SyncCall
  get_status : String → SyncCall
  get_failed_queues : SyncCall

unfoldable pub sync_roles : SyncCall → Option (List String)
sync_roles (post_sync id_device batch) = some ("OWNER" ∷ "OPERATOR" ∷ "ENTRY" ∷ [])
sync_roles (get_status uuids) = some ("OWNER" ∷ "OPERATOR" ∷ "ENTRY" ∷ [])
sync_roles get_failed_queues = owner_or_operator

abbrev pub SyncReply : SyncCall → Type 0
SyncReply (post_sync id_device batch) = ℕ
SyncReply (get_status uuids) = List (String × SyncState)
SyncReply get_failed_queues = List SyncQueue

module _ (prisma : Prisma) where
  -- `offline_uuid.split(',')`, of a query that is not empty
  unfoldable pub get_sync_status : String → Action (List (String × SyncState))
  get_sync_status uuids = do
    throw_if (is_empty uuids) (bad_request "offline_uuid is required")
    get_status_by_offline_uuids prisma (split_on 44 uuids)

  module _ (crypto : Crypto) (broker : Broker) where
    unfoldable pub answer_sync : (call : SyncCall) → JwtPayload → Action (SyncReply call)
    unfolding get_sync_status
    answer_sync (post_sync id_device batch) user =
        sync_transactions crypto prisma broker id_device batch
    answer_sync (get_status uuids) user = get_sync_status uuids
    answer_sync get_failed_queues user = get_failed_sync_queues prisma user
