-- ===== src/Sync/Batch.antt =====
-- The worker over a whole batch, and over a sale that comes again.
use mathlib.Core.List.Perm
use mathlib.Core.List.{mem-cons_self}
use k_pos_be.Common.{◌≡◌, refl, String, List, [], ◌∷◌, eq_refl}
use k_pos_be.Schema.{Db, SyncTransactionDto}
use k_pos_be.Prisma.{Prisma}
use k_pos_be.Prisma.Action.{World, Result, ok, err, ⊤, ◌>>=◌, continue, pure, for_each, Action}
use k_pos_be.Sync.Consumer.{ack, sync_item, handle_sync_transaction_batch}
use k_pos_be.Sync.Recorded.{IsRecorded}
use k_pos_be.Sync.Outcome.{IsQueueOnly, sync_item_lem, known-IsQueueOnly}

for_each-ok :
    {A : Type 0} (xs : List A) (f : A → Action ⊤)
    → ((x : A) (w : World) → (f x w).0 ≡ ok tt)
    → (w : World) → (for_each xs f w).0 ≡ ok tt
unfolding for_each pure ◌>>=◌
for_each-ok [] f h w = refl
for_each-ok {A} (x ∷ xs) f h w = go (f x w) (h x w) (for_each-ok xs f h)
  where
    go :
        (y : Result ⊤ × World)
        → y.0 ≡ ok tt
        → ((v : World) → (for_each xs f v).0 ≡ ok tt)
        → (continue y.0 (λ _. for_each xs f) y.1).0 ≡ ok tt
    go (ok a, v) e rest = rest v
    go (err b, v) e rest = cc

module _ (prisma : Prisma) where
  -- The worker acknowledges every batch, whichever of its calls are refused.
  pub batch-ack :
      (ts : List SyncTransactionDto) (w : World)
      → (handle_sync_transaction_batch prisma ts w).0 ≡ ok ack
  unfolding handle_sync_transaction_batch ◌>>=◌ pure
  batch-ack ts w =
      go (for_each ts (sync_item prisma) w)
        (for_each-ok ts (sync_item prisma) (λ dto v. (sync_item_lem prisma "" dto v).0) w)
    where
      go : (y : Result ⊤ × World) → y.0 ≡ ok tt → (continue y.0 (λ _. pure ack) y.1).0 ≡ ok ack
      go (ok a, v) e = refl
      go (err b, v) e = cc

  module _ (p : String) where
    -- In the state in which a sale has just been recorded, delivering it again changes nothing but
    -- SyncQueue, whatever calls fail.
    pub redelivery :
        (dto : SyncTransactionDto) (db : Db) (w : World)
        → IsRecorded prisma p dto db w.db
        → IsQueueOnly w.db (sync_item prisma dto w).1.db
    redelivery dto db w (conflict, (row, is, inserted), moved) = known-IsQueueOnly prisma p dto w (
      row,
      rw (is.device, is.uuid, eq_refl dto.id_device, eq_refl dto.offline_uuid),
      (Perm.mem_iff inserted).1 mem-cons_self,
    )
