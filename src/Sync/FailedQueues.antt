-- ===== src/Sync/FailedQueues.antt =====
-- src/modules/sync/sync.service.ts, `getFailedSyncQueues`.
use k_pos_be.Common.{String, Bool, List, any, ◌&&◌, ◌||◌, ◌==◌}
use k_pos_be.Schema.{Db, SyncQueue, is_conflict, is_sync_failed}
use k_pos_be.User.{JwtPayload}
use k_pos_be.Prisma.{Prisma}
use k_pos_be.Prisma.Action.{Action, read}

-- `device: { id_merchant }`
abbrev pub is_from : String → Db → SyncQueue → Bool
is_from merchant db q =
    any (λ d. d.id_device == q.id_device && d.id_merchant == merchant) db.devices

unfoldable pub is_failed_entry : JwtPayload → Db → SyncQueue → Bool
is_failed_entry user db q =
    (is_sync_failed q.status || is_conflict q.status) && is_from user.id_merchant db q

module _ (prisma : Prisma) where
  unfoldable pub failed_rows : JwtPayload → Db → List SyncQueue
  unfolding is_failed_entry
  failed_rows user db =
      prisma.order_by "updated_at" (prisma.find_many (is_failed_entry user db) db.sync_queue)

  unfoldable pub get_failed_sync_queues : JwtPayload → Action (List SyncQueue)
  get_failed_sync_queues user = read prisma (failed_rows user)
