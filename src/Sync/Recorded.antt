-- ===== src/Sync/Recorded.antt =====
-- What the worker stores of a sale: the row, its status, and the movement of stock that goes with it.
use k_pos_be.Common.{
  ℕ, ◌≡◌, refl, Option, none, some, String, Bool, true, false, not, List, [], ◌∷◌, Perm,
  if◌then◌else◌, subst,
}
use k_pos_be.Common.Int.{ℤ, pos}
use k_pos_be.Schema.{
  Db, Device, Transaction, SyncTransactionDto, SyncItemDto, SyncPaymentDto, TransactionStatus,
  SyncStatus, transactions,
}
use k_pos_be.Prisma.{Prisma}
use k_pos_be.Prisma.Action.{Action, ⊤, ◌>>=◌, create, when, branch, pure}
use k_pos_be.Prisma.Keeps.{
  Keeps, Yields, Keeps-Yields, Yields-then, Yields-both, Yields-weaken, Yields-create, Keeps-pure,
  Keeps-bind, Keeps-branch, Keeps-read, Keeps-fresh_id, Keeps-now, Keeps-lift, Keeps-find_first,
  Keeps-or_throw, Yields-transaction,
}
use k_pos_be.Prisma.Kept.{IsKept, IsKept-preorder, sales, kept_rules}
use k_pos_be.Inventory.{AdjustInventoryParams, adjust_inventory_and_history}
use k_pos_be.Inventory.Ledger.{Moved, IsUnmoved, IsUnmoved-preorder, Yields-after}
use k_pos_be.Sync.Process.{
  check_stock_availability, create_transaction_header, create_transaction_details, create_payment,
  deduct_inventory, record_sale, process_body, process_transaction, date_or_now,
}
use k_pos_be.Sync.Accounting.{
  sold, pure-Moved, deduct-Moved, header-IsUnmoved, details-IsUnmoved, payment-IsUnmoved,
  check-IsUnmoved,
}

-- The row that is stored of a sale, with or without a conflict.
pub record IsRowOf (dto : SyncTransactionDto) (conflict : Bool) (row : Transaction) : Type 0 where
  pub device : row.id_device ≡ dto.id_device
  pub uuid : row.offline_uuid ≡ some dto.offline_uuid
  pub total : row.total ≡ dto.total
  pub hash : row.payload_hash ≡ dto.payload_hash
  pub status :
      row.status ≡ (if conflict then TransactionStatus.pending else TransactionStatus.confirmed)
  pub sync_status :
      row.sync_status ≡ (if conflict then SyncStatus.sync_conflict else SyncStatus.synced)

-- One such row has come into the table.
abbrev pub IsInserted : SyncTransactionDto → Bool → Db → Db → Type 0
IsInserted dto conflict db db' =
    (row : Transaction) × IsRowOf dto conflict row × Perm db'.transactions (row ∷ db.transactions)

module _ (prisma : Prisma) where
  date-IsKept : (o : Option ℕ) → Keeps (IsKept sales) (date_or_now prisma o)
  date-IsKept none = search kept_rules
  date-IsKept (some t) = search kept_rules

  check-IsKept :
      (items : List SyncItemDto) → Keeps (IsKept sales) (check_stock_availability prisma items)
  unfolding check_stock_availability
  check-IsKept [] = search kept_rules
  check-IsKept (item ∷ items) =
      let pre = IsKept-preorder sales in
      Keeps-bind pre _ _ (Keeps-read pre prisma _)
        λ rows. Keeps-branch pre _ _ _ (λ _. Keeps-pure pre true) (λ _. check-IsKept items)

  details-IsKept :
      (tx_id : String) (items : List SyncItemDto)
      → Keeps (IsKept sales) (create_transaction_details prisma tx_id items)
  unfolding create_transaction_details
  details-IsKept tx_id items = search (kept_rules, date-IsKept) depth 12

  payment-IsKept :
      (tx_id merchant_id : String) (payment : SyncPaymentDto)
      → Keeps (IsKept sales) (create_payment prisma tx_id merchant_id payment)
  unfolding create_payment
  payment-IsKept tx_id merchant_id payment = search kept_rules depth 12

  adjust-IsKept :
      (params : AdjustInventoryParams)
      → Keeps (IsKept sales) (adjust_inventory_and_history prisma params)
  unfolding adjust_inventory_and_history
  adjust-IsKept params = search kept_rules depth 12

  deduct-IsKept :
      (dto : SyncTransactionDto) (tx_id merchant_id : String)
      → Keeps (IsKept sales) (deduct_inventory prisma dto tx_id merchant_id)
  unfolding deduct_inventory
  deduct-IsKept dto tx_id merchant_id = search (kept_rules, adjust-IsKept) depth 12

  module _ (dto : SyncTransactionDto) (conflict : Bool) where
    -- steps that leave the sales alone, before and after the insertion
    after-IsKept :
        {A B : Type 0} (m : Action A) (f : A → Action B)
        → Keeps (IsKept sales) m
        → ((a : A) → Yields (IsInserted dto conflict) (f a))
        → Yields (IsInserted dto conflict) (m >>= f)
    after-IsKept m f km =
        Yields-then (λ a b c h k. (k.0, k.1, subst (λ ts. Perm c.transactions (k.0 ∷ ts)) h k.2)) m
          f (Keeps-Yields km)

    before-IsKept :
        {A B : Type 0} (m : Action A) (f : A → Action B)
        → Yields (IsInserted dto conflict) m
        → ((a : A) → Keeps (IsKept sales) (f a))
        → Yields (IsInserted dto conflict) (m >>= f)
    before-IsKept m f ym kf =
        Yields-then (λ a b c h k. (h.0, h.1, rw k h.2)) m f ym (λ a. Keeps-Yields (kf a))

    insert-IsInserted :
        (row : Transaction)
        → IsRowOf dto conflict row
        → Yields (IsInserted dto conflict) (create prisma transactions row)
    insert-IsInserted row is =
        Yields-create prisma transactions row
          λ db. (row, is, prisma.insert-perm row db.transactions)

    header-IsInserted :
        (device : Device)
        → Yields (IsInserted dto conflict) (
            create_transaction_header prisma dto device
              (if conflict then TransactionStatus.pending else TransactionStatus.confirmed)
              (if conflict then SyncStatus.sync_conflict else SyncStatus.synced)
              conflict)
    unfolding create_transaction_header
    header-IsInserted device =
        let pre = IsKept-preorder sales in
        after-IsKept _ _ (Keeps-fresh_id pre prisma) λ _.
          after-IsKept _ _ (Keeps-now pre prisma) λ _. after-IsKept _ _ (Keeps-now pre prisma) λ _.
            after-IsKept _ _ (Keeps-now pre prisma) λ _. insert-IsInserted _ (record {
              device = refl;
              uuid = refl;
              total = refl;
              hash = refl;
              status = refl;
              sync_status = refl;
            })

    pub record-IsInserted :
        (device : Device)
        → Yields (IsInserted dto conflict) (record_sale prisma dto conflict device)
    unfolding record_sale
    record-IsInserted device =
        before-IsKept _ _ (header-IsInserted device)
          λ tx. search (kept_rules, details-IsKept, payment-IsKept, deduct-IsKept) depth 12

  module _ (p : String) (dto : SyncTransactionDto) where
    abbrev pub movement : Bool → ℤ
    movement conflict = if conflict then pos 0 else sold p dto.items

    deduct_unless-Moved :
        (conflict : Bool) (tx_id merchant_id : String)
        → Yields
            (Moved p (movement conflict))
            (when (not conflict) (deduct_inventory prisma dto tx_id merchant_id))
    unfolding when branch deduct_inventory pure
    deduct_unless-Moved true tx_id merchant_id = pure-Moved p
    deduct_unless-Moved false tx_id merchant_id =
        deduct-Moved p prisma _ (λ item. refl) (λ item. refl) dto.items

    record-Moved :
        (conflict : Bool) (device : Device)
        → Yields (Moved p (movement conflict)) (record_sale prisma dto conflict device)
    unfolding record_sale
    record-Moved conflict device =
        Yields-after p _ _ _ _ (Keeps-Yields (header-IsUnmoved p prisma dto device _ _ conflict))
          λ tx. Yields-after p _ _ _ _ (Keeps-Yields (details-IsUnmoved p prisma _ dto.items)) λ _.
            Yields-after p _ _ _ _ (Keeps-Yields (payment-IsUnmoved p prisma _ _ dto.payment))
              λ _. deduct_unless-Moved conflict _ _

    -- With or without a conflict, the row is stored and the stock moves accordingly.
    abbrev pub IsRecorded : Db → Db → Type 0
    IsRecorded db db' =
        (conflict : Bool) × IsInserted dto conflict db db' × Moved p (movement conflict) db db'

    -- steps before the sale is recorded
    quietly :
        {A : Type 0} (m : Action A) (f : A → Action ⊤)
        → Keeps (IsKept sales) m
        → Keeps (IsUnmoved p) m
        → ((a : A) → Yields IsRecorded (f a))
        → Yields IsRecorded (m >>= f)
    quietly m f kept still =
        Yields-then
          (λ a b c h k. (
            k.0,
            (k.1.0, k.1.1, subst (λ ts. Perm c.transactions (k.1.0 ∷ ts)) h.0 k.1.2),
            (rw (k.2.0, h.1.0), rw (k.2.1, h.1.1)),
          ))
          m f (Yields-both (Keeps-Yields kept) (Keeps-Yields still))

    body-IsRecorded : Yields IsRecorded (process_body prisma dto)
    unfolding process_body
    body-IsRecorded =
        let kept = IsKept-preorder sales in
        let still = IsUnmoved-preorder p in
        quietly _ _ (Keeps-lift kept _) (Keeps-lift still _) λ _.
          quietly _ _ (check-IsKept dto.items) (check-IsUnmoved p prisma dto.items) λ conflict.
            quietly _ _ (Keeps-find_first kept prisma _ _) (Keeps-find_first still prisma _ _)
              λ found.
                quietly _ _ (Keeps-or_throw kept found _) (Keeps-or_throw still found _) λ device.
                  Yields-weaken (λ a b h. (conflict, h.0, h.1))
                    (Yields-both (record-IsInserted dto conflict device)
                      (record-Moved conflict device))

    pub process-IsRecorded : Yields IsRecorded (process_transaction prisma dto)
    unfolding process_transaction
    process-IsRecorded = Yields-transaction body-IsRecorded
