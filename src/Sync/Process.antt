-- ===== src/Sync/Process.antt =====
-- src/modules/sync/sync-consumer.service.ts: `processTransaction` and the steps that it is made of.
use Prim.Native.String.{◌++◌}
use k_pos_be.Common.{
  ℕ, ◌+◌, ◌*◌, String, Bool, true, false, not, ◌||◌, Option, none, some, List, [], ◌∷◌, ◌==◌, eqb,
  show_ℕ, select, map, if◌then◌else◌,
}
use mathlib.Core.List.{flatten}
use k_pos_be.Common.Int.{ℤ, pos, neg, ltb_ℤ}
use k_pos_be.Schema.{
  Device, Product, Inventory, Transaction, TransactionStatus, SyncStatus, PaymentStatus,
  StockMovementType, SyncTransactionDto, SyncItemDto, SyncPaymentDto, devices, transactions,
  details, payments,
}
use k_pos_be.Prisma.{Prisma}
use k_pos_be.Prisma.Action.{
  Action, Result, ok, err, Error, sync_exception, sync_arithmetic_error, sync_constraint_violation,
  ⊤, pure, lift, ◌>>=◌, ◌>>◌, or_throw, when, branch, for_each, transaction, read, now, fresh_id,
  find_first, create,
}
use k_pos_be.Inventory.{AdjustInventoryParams, adjust_inventory_and_history}

-- the message of a failing line
unfoldable pub item_error : SyncItemDto → Error
item_error item = sync_exception sync_arithmetic_error (
    "Arithmetic validation failed for item "
    ++ (item.id_product
        ++ (": "
            ++ (show_ℕ item.quantity
                ++ (" * " ++ (show_ℕ item.unit_price ++ (" != " ++ show_ℕ item.subtotal)))))))

-- the loop of `validateArithmetic`, with `calculatedSubtotal`
unfoldable pub validate_items : ℕ → List SyncItemDto → Result ℕ
unfolding item_error
validate_items sum [] = ok sum
validate_items sum (item ∷ items) =
    let rest = validate_items (sum + item.subtotal) items in
    if not (eqb (item.quantity * item.unit_price) item.subtotal)
    then err (item_error item)
    else rest

unfoldable pub check_total : SyncTransactionDto → Result ℕ → Result ⊤
check_total dto (err e) = err e
check_total dto (ok sum) =
    if not (eqb sum dto.subtotal) || not (eqb sum dto.total)
    then err (
        sync_exception sync_arithmetic_error (
          "Arithmetic validation failed: calculated "
          ++ (show_ℕ sum ++ (" != tx total " ++ show_ℕ dto.total))))
    else ok tt

unfoldable pub validate_arithmetic : SyncTransactionDto → Result ⊤
unfolding validate_items check_total
validate_arithmetic dto = check_total dto (validate_items 0 dto.items)

-- the shape that the locking query returns
pub record InventoryData : Type 0 where
  pub current_stock : ℤ
  pub is_active : Bool

-- `JOIN "Product" p ON p.id_product = i.id_product`
abbrev pub join_product : List Product → Inventory → List InventoryData
join_product ps i =
    map (λ p. record { current_stock = i.current_stock; is_active = p.is_active })
      (select (λ p. p.id_product == i.id_product) ps)

-- `!inventoryData || length === 0`, `!is_active || current_stock < quantity`, on the first row
unfoldable pub is_short : ℕ → List InventoryData → Bool
is_short quantity [] = true
is_short quantity (inv ∷ rest) = not inv.is_active || ltb_ℤ inv.current_stock (pos quantity)

module _ (prisma : Prisma) where
  select_for_update : String → Action (List InventoryData)
  select_for_update id_product = read prisma λ db. flatten (
      map (join_product db.products)
        (prisma.find_many (λ i. i.id_product == id_product) db.inventory))

  unfoldable pub check_stock_availability : List SyncItemDto → Action Bool
  unfolding select_for_update is_short
  check_stock_availability [] = pure false
  check_stock_availability (item ∷ items) = select_for_update item.id_product >>= λ rows.
      branch (is_short item.quantity rows) (pure true) (check_stock_availability items)

  unfoldable pub create_transaction_header :
      SyncTransactionDto → Device → TransactionStatus → SyncStatus → Bool → Action Transaction
  create_transaction_header dto device status sync_status has_conflict = do
    id_transaction ← fresh_id prisma
    synced_at ← now prisma
    confirmed_at ← now prisma
    created_at ← now prisma
    create prisma transactions (record {
      id_transaction = id_transaction;
      id_merchant = device.id_merchant;
      id_user = device.id_user;
      id_device = dto.id_device;
      status = status;
      sync_status = sync_status;
      created_at_local = some dto.created_at_local;
      created_at = created_at;
      confirmed_at = if has_conflict then none else some confirmed_at;
      synced_at = some synced_at;
      total = dto.total;
      subtotal = dto.subtotal;
      offline_uuid = some dto.offline_uuid;
      payload_hash = dto.payload_hash;
      notes = dto.notes;
      voided_at = none;
      voided_by = none;
      void_reason = none;
    })

  -- `item.catalog_version ? new Date(item.catalog_version) : new Date()`
  abbrev pub date_or_now : Option ℕ → Action ℕ
  date_or_now none = now prisma
  date_or_now (some t) = pure t

  create_detail : String → SyncItemDto → Action ⊤
  create_detail tx_id item = do
    id_detail ← fresh_id prisma
    catalog_version ← date_or_now item.catalog_version
    create prisma details (record {
      id_detail = id_detail;
      id_transaction = tx_id;
      id_product = item.id_product;
      quantity = item.quantity;
      unit_price = item.unit_price;
      subtotal = item.subtotal;
      product_name = item.product_name;
      sku_snapshot = item.sku_snapshot;
      catalog_version = catalog_version;
    })
    pure tt

  unfoldable pub create_transaction_details : String → List SyncItemDto → Action ⊤
  unfolding create_detail
  create_transaction_details tx_id items = for_each items (create_detail tx_id)

  unfoldable pub create_payment : String → String → SyncPaymentDto → Action ⊤
  create_payment tx_id merchant_id payment = do
    id_payment ← fresh_id prisma
    verified_at ← now prisma
    create prisma payments (record {
      id_payment = id_payment;
      id_transaction = tx_id;
      id_merchant = merchant_id;
      amount = payment.amount;
      method = payment.method;
      status = PaymentStatus.verified;
      cash_received = payment.cash_received;
      change_amount = payment.change_amount;
      qris_code = payment.qris_code;
      transfer_ref = payment.transfer_ref;
      verified_at = some verified_at;
      verified_by = none;
    })
    pure tt

  abbrev pub sale_of : String → String → String → SyncItemDto → AdjustInventoryParams
  sale_of id_device tx_id merchant_id item = record {
    id_product = item.id_product;
    id_merchant = merchant_id;
    id_user = "system_sync";
    id_transaction = some tx_id;
    quantity_change = neg item.quantity;
    movement_type = StockMovementType.sale;
    notes = "Sold via offline sync (device: " ++ (id_device ++ ")");
  }

  unfoldable pub deduct_inventory : SyncTransactionDto → String → String → Action ⊤
  deduct_inventory dto tx_id merchant_id =
      for_each dto.items
        λ item. adjust_inventory_and_history prisma (sale_of dto.id_device tx_id merchant_id item)

  -- the writes, once the device is known
  unfoldable pub record_sale : SyncTransactionDto → Bool → Device → Action ⊤
  record_sale dto has_conflict device = do
    new_tx ←
        create_transaction_header dto device
          (if has_conflict then TransactionStatus.pending else TransactionStatus.confirmed)
          (if has_conflict then SyncStatus.sync_conflict else SyncStatus.synced) has_conflict
    create_transaction_details new_tx.id_transaction dto.items
    create_payment new_tx.id_transaction device.id_merchant dto.payment
    when (not has_conflict) (deduct_inventory dto new_tx.id_transaction device.id_merchant)

  -- the body of the `$transaction`
  unfoldable pub process_body : SyncTransactionDto → Action ⊤
  process_body dto = do
    lift (validate_arithmetic dto)
    has_conflict ← check_stock_availability dto.items
    found ← find_first prisma devices (λ d. d.id_device == dto.id_device)
    device ←
        or_throw found
          (sync_exception sync_constraint_violation ("Device " ++ (dto.id_device ++ " not found.")))
    record_sale dto has_conflict device

  unfoldable pub process_transaction : SyncTransactionDto → Action ⊤
  process_transaction dto = transaction (process_body dto)
