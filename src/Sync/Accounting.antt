-- ===== src/Sync/Accounting.antt =====
-- What the worker does to stock and audit trail.
use k_pos_be.Common.{ℕ, ◌≡◌, Option, none, some, String, Bool, true, arith, List, [], ◌∷◌}
use k_pos_be.Common.Int.{ℤ, pos, ◌+ℤ◌, neg, int_laws}
use k_pos_be.Schema.{
  Device, SyncTransactionDto, SyncItemDto, SyncPaymentDto, TransactionStatus, SyncStatus,
}
use k_pos_be.Prisma.{Prisma}
use k_pos_be.Prisma.Action.{pure, for_each}
use k_pos_be.Prisma.Keeps.{
  Keeps, Yields, Yields-then, Keeps-pure, Keeps-bind, Keeps-branch, Keeps-read,
}
use k_pos_be.Inventory.{AdjustInventoryParams, adjust_inventory_and_history}
use k_pos_be.Inventory.Ledger.{share, Moved, IsUnmoved, IsUnmoved-preorder, adjust_inventory-Moved}
use k_pos_be.Inventory.Elsewhere.{unmoved_rules}
use k_pos_be.Sync.Process.{
  check_stock_availability, create_transaction_header, create_transaction_details, create_payment,
  date_or_now,
}

module _ (p : String) where
  -- minus the units of a product that the lines sell
  pub sold : List SyncItemDto → ℤ
  sold [] = pos 0
  sold (item ∷ items) = share p item.id_product (neg item.quantity) +ℤ sold items

  pub pure-Moved : Yields (Moved p (pos 0)) (pure tt)
  unfolding pure
  pure-Moved = record {
    at = λ w a w' e. let same : w'.db ≡ w.db = ground arith in rw same (omega int_laws);
  }

  module _ (prisma : Prisma) where
    pub check-IsUnmoved :
        (items : List SyncItemDto) → Keeps (IsUnmoved p) (check_stock_availability prisma items)
    unfolding check_stock_availability
    check-IsUnmoved [] = search unmoved_rules
    check-IsUnmoved (item ∷ items) =
        let pre = IsUnmoved-preorder p in
        Keeps-bind pre _ _ (Keeps-read pre prisma _)
          λ rows. Keeps-branch pre _ _ _ (λ _. Keeps-pure pre true) (λ _. check-IsUnmoved items)

    date-IsUnmoved : (o : Option ℕ) → Keeps (IsUnmoved p) (date_or_now prisma o)
    date-IsUnmoved none = search unmoved_rules
    date-IsUnmoved (some t) = search unmoved_rules

    pub details-IsUnmoved :
        (tx_id : String) (items : List SyncItemDto)
        → Keeps (IsUnmoved p) (create_transaction_details prisma tx_id items)
    unfolding create_transaction_details
    details-IsUnmoved tx_id items = search (unmoved_rules, date-IsUnmoved) depth 12

    pub payment-IsUnmoved :
        (tx_id merchant_id : String) (payment : SyncPaymentDto)
        → Keeps (IsUnmoved p) (create_payment prisma tx_id merchant_id payment)
    unfolding create_payment
    payment-IsUnmoved tx_id merchant_id payment = search unmoved_rules depth 12

    pub header-IsUnmoved :
        (dto : SyncTransactionDto) (device : Device) (status : TransactionStatus)
        (sync_status : SyncStatus) (has_conflict : Bool)
        → Keeps
            (IsUnmoved p)
            (create_transaction_header prisma dto device status sync_status has_conflict)
    unfolding create_transaction_header
    header-IsUnmoved dto device status sync_status has_conflict = search unmoved_rules depth 12

    pub deduct-Moved :
        (f : SyncItemDto → AdjustInventoryParams)
        → ((item : SyncItemDto) → (f item).id_product ≡ item.id_product)
        → ((item : SyncItemDto) → (f item).quantity_change ≡ neg item.quantity)
        → (items : List SyncItemDto)
        → Yields
            (Moved p (sold items))
            (for_each items (λ item. adjust_inventory_and_history prisma (f item)))
    unfolding for_each sold
    deduct-Moved f product change [] = pure-Moved
    deduct-Moved f product change (item ∷ items) =
        Yields-then
          (λ a b c h k. (
            rw (k.0, h.0, product item, change item) (omega int_laws),
            rw (k.1, h.1, product item, change item) (omega int_laws),
          ))
          _ _ (adjust_inventory-Moved p prisma (f item)) (λ _. deduct-Moved f product change items)
