-- ===== src/System/Worker.antt =====
-- The queue worker under a relation that allows its writes.
use k_pos_be.Common.{Bool, Option, none, some, List, [], ◌∷◌, ℕ, String}
use k_pos_be.Schema.{
  Db, SyncTransactionDto, SyncItemDto, SyncPaymentDto, Device, SyncQueue, TransactionStatus,
  SyncStatus,
}
use k_pos_be.Prisma.{Prisma}
use k_pos_be.Prisma.Action.{Error}
use k_pos_be.Prisma.Keeps.{
  Keeps, Yields, Keeps-Yields, Yields-bind, Yields-for_each, Yields-when, Keeps-bind, Keeps-read,
  Keeps-branch, Keeps-pure, keeps_rules, Keeps-transaction,
}
use k_pos_be.Sync.Process.{
  check_stock_availability, create_transaction_header, create_transaction_details, create_payment,
  deduct_inventory, record_sale, process_body, process_transaction, date_or_now,
}
use k_pos_be.Sync.Failure.{handle_failure, queue_entry, record_entry, record_terminal_failure}
use k_pos_be.Sync.Consumer.{sync_one, sync_item, handle_sync_transaction_batch}
use k_pos_be.System.Asides.{asides}
use k_pos_be.System.Allowed.{Allows, Aside-create, Aside-update}

module _ {prisma : Prisma} {R : Db → Db → Type 0} (allows : Allows prisma R) where
  open allows use {pre, adjusts, sells}

  check-Allowed : (items : List SyncItemDto) → Keeps R (check_stock_availability prisma items)
  unfolding check_stock_availability
  check-Allowed [] = search (pre, keeps_rules)
  check-Allowed (item ∷ items) =
      Keeps-bind pre _ _ (Keeps-read pre prisma _)
        λ rows. Keeps-branch pre _ _ _ (λ _. Keeps-pure pre _) (λ _. check-Allowed items)

  date-Allowed : (o : Option ℕ) → Keeps R (date_or_now prisma o)
  date-Allowed none = search (pre, keeps_rules)
  date-Allowed (some t) = search (pre, keeps_rules)

  details-Allowed :
      (tx_id : String) (items : List SyncItemDto)
      → Keeps R (create_transaction_details prisma tx_id items)
  unfolding create_transaction_details
  details-Allowed tx_id items =
      search (pre, keeps_rules, date-Allowed, allows, Aside-create, asides) depth 12

  payment-Allowed :
      (tx_id merchant_id : String) (payment : SyncPaymentDto)
      → Keeps R (create_payment prisma tx_id merchant_id payment)
  unfolding create_payment
  payment-Allowed tx_id merchant_id payment =
      search (pre, keeps_rules, allows, Aside-create, asides) depth 12

  header-Allowed :
      (dto : SyncTransactionDto) (device : Device) (status : TransactionStatus)
      (sync_status : SyncStatus) (has_conflict : Bool)
      → Keeps R (create_transaction_header prisma dto device status sync_status has_conflict)
  unfolding create_transaction_header
  header-Allowed dto device status sync_status has_conflict =
      search (pre, keeps_rules, sells) depth 12

  sale-Allowed :
      (dto : SyncTransactionDto) (conflict : Bool) (device : Device)
      → Yields R (record_sale prisma dto conflict device)
  unfolding record_sale deduct_inventory
  sale-Allowed dto conflict device =
      Yields-bind pre _ _ (Keeps-Yields (header-Allowed dto device _ _ conflict)) λ tx.
        Yields-bind pre _ _ (Keeps-Yields (details-Allowed _ dto.items)) λ _.
          Yields-bind pre _ _ (Keeps-Yields (payment-Allowed _ _ dto.payment))
            λ _. Yields-when pre _ _ (Yields-for_each pre dto.items _ (λ item. adjusts _))

  process-Allowed : (dto : SyncTransactionDto) → Keeps R (process_transaction prisma dto)
  unfolding process_transaction process_body
  process-Allowed dto = Keeps-transaction pre _ (
      Yields-bind pre _ _ (search (pre, keeps_rules)) λ _.
        Yields-bind pre _ _ (Keeps-Yields (check-Allowed dto.items)) λ conflict.
          Yields-bind pre _ _ (search (pre, keeps_rules)) λ found.
            Yields-bind pre _ _ (search (pre, keeps_rules))
              λ device. sale-Allowed dto conflict device)

  failure-Allowed : (dto : SyncTransactionDto) (e : Error) → Keeps R (handle_failure prisma dto e)
  unfolding handle_failure queue_entry
  failure-Allowed dto e = search (pre, keeps_rules, allows, Aside-create, asides) depth 12

  entry-Allowed :
      (dto : SyncTransactionDto) (o : Option SyncQueue) → Keeps R (record_entry prisma dto o)
  unfolding record_entry queue_entry
  entry-Allowed dto none = search (pre, keeps_rules, allows, Aside-create, asides) depth 12
  entry-Allowed dto (some q) =
      search (pre, keeps_rules, allows, Aside-create, Aside-update, asides) depth 12

  pub terminal-Allowed : (dto : SyncTransactionDto) → Keeps R (record_terminal_failure prisma dto)
  unfolding record_terminal_failure
  terminal-Allowed dto = search (pre, keeps_rules, entry-Allowed) depth 12

  pub batch-Allowed :
      (ts : List SyncTransactionDto) → Keeps R (handle_sync_transaction_batch prisma ts)
  unfolding handle_sync_transaction_batch sync_item sync_one
  batch-Allowed ts = search (pre, keeps_rules, process-Allowed, failure-Allowed) depth 12
