-- ===== src/Sync/Signed.antt =====
-- The user in whose name the worker writes to the audit trail.
use k_pos_be.Common.{
  ◌≡◌, ◌≢◌, refl, ℕ, Option, none, some, String, Bool, true, false, List, [], ◌∷◌, any, ◌==◌, arith,
  subst,
}
use k_pos_be.Schema.{
  Db, Table, User, Device, StockHistory, SyncTransactionDto, SyncItemDto, SyncPaymentDto,
  TransactionStatus, SyncStatus, has_user, inventory, stock_history, transactions, details,
  payments,
}
use k_pos_be.Prisma.{Prisma}
use k_pos_be.Prisma.Action.{World, Action, ok, ⊤, ◌>>=◌, create, create_in, when, branch, for_each}
use k_pos_be.Prisma.Keeps.{
  Keeps, Yields, Keeps-Yields, Yields-call, Yields-then, Yields-weaken, Yields-transaction,
  Keeps-pure, Keeps-bind, Keeps-branch, Keeps-read, Keeps-lift, Keeps-find_first, Keeps-or_throw,
  Keeps-fresh_id, Keeps-now,
}
use k_pos_be.Prisma.Kept.{IsKept, IsKept-preorder, IsApart, Kept-update, kept_rules}
use k_pos_be.Inventory.{adjust_inventory_and_history}
use k_pos_be.Sync.Process.{
  check_stock_availability, create_transaction_header, create_transaction_details, create_payment,
  deduct_inventory, sale_of, record_sale, process_body, process_transaction, date_or_now,
}
use k_pos_be.Sync.Recorded.{IsInserted, record-IsInserted}

abbrev is_worker : User → Bool
is_worker u = u.id_user == "system_sync"

-- The user of the worker is stored, at the start.
abbrev IsSigned : Db → Db → Type 0
IsSigned a b = any is_worker a.users ≡ true

abbrev staff : Db → List User
staff db = db.users

inventory-IsApart : IsApart staff inventory
inventory-IsApart = record { same = λ rows db. refl }

transactions-IsApart : IsApart staff transactions
transactions-IsApart = record { same = λ rows db. refl }

details-IsApart : IsApart staff details
details-IsApart = record { same = λ rows db. refl }

payments-IsApart : IsApart staff payments
payments-IsApart = record { same = λ rows db. refl }

abbrev whole : Db → Db
whole db = db

module _ (prisma : Prisma) where
  create_in-refs :
      {R : Type 0} (t : Table R) (r : R) (db : Db) (a : R) (db' : Db)
      → create_in prisma t r db ≡ ok (a, db')
      → t.refs r db ≡ true
  unfolding create_in
  create_in-refs t r db a db' e = ground arith

  after-IsSigned :
      {A B : Type 0} (m : Action A) (f : A → Action B)
      → Keeps (IsKept staff) m
      → ((a : A) → Yields IsSigned (f a))
      → Yields IsSigned (m >>= f)
  after-IsSigned m f k =
      Yields-then (λ a b c h s. subst (λ us. any is_worker us ≡ true) h s) m f (Keeps-Yields k)

  entry-IsSigned :
      (h : StockHistory)
      → h.id_user ≡ some "system_sync"
      → Yields IsSigned (create prisma stock_history h)
  unfolding create
  entry-IsSigned h by = Yields-call prisma _ λ db a db' e.
      let sound = create_in-refs stock_history h db a db' e in
      let signed = rw by at sound in ground arith

  adjust-IsSigned :
      (id_device tx_id merchant_id : String) (item : SyncItemDto)
      → Yields IsSigned
          (adjust_inventory_and_history prisma (sale_of prisma id_device tx_id merchant_id item))
  unfolding adjust_inventory_and_history
  adjust-IsSigned id_device tx_id merchant_id item =
      let pre = IsKept-preorder staff in
      after-IsSigned _ _ (Kept-update staff prisma inventory inventory-IsApart _ _) λ _.
        after-IsSigned _ _ (Keeps-fresh_id pre prisma) λ id.
          after-IsSigned _ _ (Keeps-now pre prisma) λ at.
            Yields-then (λ a b c h _. h) _ _ (entry-IsSigned _ refl)
              (λ _. Keeps-Yields (Keeps-pure pre tt))

  deduct-IsSigned :
      (id_device tx_id merchant_id : String) (items : List SyncItemDto)
      → items ≢ []
      → Yields IsSigned (
          for_each items λ item.
            adjust_inventory_and_history prisma (sale_of prisma id_device tx_id merchant_id item))
  unfolding for_each
  deduct-IsSigned id_device tx_id merchant_id [] some_line = absurd (some_line refl)
  deduct-IsSigned id_device tx_id merchant_id (item ∷ items) some_line =
      Yields-then {S = λ a b. ⊤} (λ a b c h _. h) _ _
        (adjust-IsSigned id_device tx_id merchant_id item) (λ _. record { at = λ w a w' e. tt })

  date-IsKept : (o : Option ℕ) → Keeps (IsKept staff) (date_or_now prisma o)
  date-IsKept none = search kept_rules
  date-IsKept (some t) = search kept_rules

  header-IsKept :
      (dto : SyncTransactionDto) (device : Device) (status : TransactionStatus)
      (sync_status : SyncStatus) (conflict : Bool)
      → Keeps
          (IsKept staff)
          (create_transaction_header prisma dto device status sync_status conflict)
  unfolding create_transaction_header
  header-IsKept dto device status sync_status conflict =
      search (kept_rules, transactions-IsApart) depth 14

  details-IsKept :
      (tx_id : String) (items : List SyncItemDto)
      → Keeps (IsKept staff) (create_transaction_details prisma tx_id items)
  unfolding create_transaction_details
  details-IsKept tx_id items = search (kept_rules, date-IsKept, details-IsApart) depth 12

  payment-IsKept :
      (tx_id merchant_id : String) (payment : SyncPaymentDto)
      → Keeps (IsKept staff) (create_payment prisma tx_id merchant_id payment)
  unfolding create_payment
  payment-IsKept tx_id merchant_id payment = search (kept_rules, payments-IsApart) depth 12

  check-IsKept :
      (items : List SyncItemDto) → Keeps (IsKept whole) (check_stock_availability prisma items)
  unfolding check_stock_availability
  check-IsKept [] = search kept_rules
  check-IsKept (item ∷ items) =
      let pre = IsKept-preorder whole in
      Keeps-bind pre _ _ (Keeps-read pre prisma _)
        λ rows. Keeps-branch pre _ _ _ (λ _. Keeps-pure pre true) (λ _. check-IsKept items)

  module _ (dto : SyncTransactionDto) (some_line : dto.items ≢ []) where
    record-IsSigned : (device : Device) → Yields IsSigned (record_sale prisma dto false device)
    unfolding record_sale when branch deduct_inventory
    record-IsSigned device = after-IsSigned _ _ (header-IsKept dto device _ _ _) λ tx.
        after-IsSigned _ _ (details-IsKept _ dto.items) λ _.
          after-IsSigned _ _ (payment-IsKept _ _ dto.payment)
            λ _. deduct-IsSigned _ _ _ dto.items some_line

    -- without the user of the worker, all that is stored is a conflict
    abbrev IsConflictOnly : Db → Db → Type 0
    IsConflictOnly a b = any is_worker a.users ≡ false → IsInserted dto true a b

    record-IsConflictOnly :
        (conflict : Bool) (device : Device)
        → Yields IsConflictOnly (record_sale prisma dto conflict device)
    record-IsConflictOnly true device =
        Yields-weaken (λ a b h _. h) (record-IsInserted prisma dto true device)
    record-IsConflictOnly false device = Yields-weaken (λ a b h gone. cc) (record-IsSigned device)

    quietly :
        {A : Type 0} (m : Action A) (f : A → Action ⊤)
        → Keeps (IsKept whole) m
        → ((a : A) → Yields IsConflictOnly (f a))
        → Yields IsConflictOnly (m >>= f)
    quietly m f k =
        Yields-then (λ a b c h s. subst (λ x. IsConflictOnly x c) h s) m f (Keeps-Yields k)

    body-IsConflictOnly : Yields IsConflictOnly (process_body prisma dto)
    unfolding process_body
    body-IsConflictOnly =
        let pre = IsKept-preorder whole in
        quietly _ _ (Keeps-lift pre _) λ _. quietly _ _ (check-IsKept dto.items) λ conflict.
          quietly _ _ (Keeps-find_first pre prisma _ _) λ found.
            quietly _ _ (Keeps-or_throw pre found _) λ device. record-IsConflictOnly conflict device

    -- Where no user has the id `system_sync`, a sale that has a line and for which `processTransaction`
    -- returns has been stored as a conflict: one PENDING row in SYNC_CONFLICT.
    pub process_transaction-unsigned :
        (w w' : World)
        → has_user "system_sync" w.db ≡ false
        → process_transaction prisma dto w ≡ (ok tt, w')
        → IsInserted dto true w.db w'.db
    unfolding process_transaction
    process_transaction-unsigned w w' gone h =
        (Yields-transaction body-IsConflictOnly).at w tt w' h gone
