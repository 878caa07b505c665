-- ===== src/Transactions/Correction.antt =====
-- src/modules/transactions/transactions.service.ts: `correctTransaction` and its steps.
use Prim.Native.String.{◌++◌}
use k_pos_be.Common.{String, not, Option, none, some, or_else}
use k_pos_be.Common.Int.{pos, neg}
use k_pos_be.Schema.{
  Transaction, DetailTransaction, Payment, TransactionCorrection, TransactionStatus, SyncStatus,
  StockMovementType, is_confirmed, transactions, details, payments, corrections,
}
use k_pos_be.User.{JwtPayload}
use k_pos_be.Inventory.{AdjustInventoryParams, adjust_inventory_and_history}
use k_pos_be.Prisma.{Prisma}
use k_pos_be.Prisma.Action.{
  Action, bad_request, ⊤, pure, ◌>>=◌, ◌>>◌, throw_if, for_each, transaction, now, fresh_id, create,
  update,
}
use k_pos_be.Transactions.{
  FullTransaction, CorrectItemDto, CorrectTransactionDto, with_id, mark_voided, find_one,
}

status_text : TransactionStatus → String
status_text TransactionStatus.pending = "PENDING"
status_text TransactionStatus.confirmed = "CONFIRMED"
status_text TransactionStatus.voided = "VOIDED"
status_text TransactionStatus.failed = "FAILED"

module _ (prisma : Prisma) where
  abbrev pub reverted : Transaction → String → String → DetailTransaction → AdjustInventoryParams
  reverted tx user_id reason detail = record {
    id_product = detail.id_product;
    id_merchant = tx.id_merchant;
    id_user = user_id;
    id_transaction = some tx.id_transaction;
    quantity_change = pos detail.quantity;
    movement_type = StockMovementType.correction;
    notes = "Stock reverted for transaction correction. Reason: " ++ reason;
  }

  unfoldable pub revert_old_stock : FullTransaction → String → String → Action ⊤
  revert_old_stock original user_id reason =
      for_each original.details
        λ detail. adjust_inventory_and_history prisma (reverted original.row user_id reason detail)

  unfoldable pub create_new_transaction : Transaction → CorrectTransactionDto → Action Transaction
  create_new_transaction original dto = do
    id_transaction ← fresh_id prisma
    confirmed_at ← now prisma
    created_at ← now prisma
    create prisma transactions (record {
      id_transaction = id_transaction;
      id_merchant = original.id_merchant;
      id_user = original.id_user;
      id_device = original.id_device;
      status = TransactionStatus.confirmed;
      sync_status = SyncStatus.synced;
      created_at_local = original.created_at_local;
      created_at = created_at;
      confirmed_at = some confirmed_at;
      synced_at = none;
      total = dto.total;
      subtotal = dto.subtotal;
      offline_uuid = none;
      payload_hash = none;
      notes = elim dto.notes [ none ↦ original.notes | some n ↦ some n ];
      voided_at = none;
      voided_by = none;
      void_reason = none;
    })

  unfoldable pub create_corrected_detail : String → CorrectItemDto → Action ⊤
  create_corrected_detail tx_id item = do
    id_detail ← fresh_id prisma
    catalog_version ← now prisma
    create prisma details (record {
      id_detail = id_detail;
      id_transaction = tx_id;
      id_product = item.id_product;
      quantity = item.quantity;
      unit_price = item.unit_price;
      subtotal = item.subtotal;
      product_name = or_else item.product_name "Correction";
      sku_snapshot = "NONE";
      catalog_version = catalog_version;
    })
    pure tt

  abbrev pub corrected : Transaction → String → String → CorrectItemDto → AdjustInventoryParams
  corrected tx user_id reason item = record {
    id_product = item.id_product;
    id_merchant = tx.id_merchant;
    id_user = user_id;
    id_transaction = some tx.id_transaction;
    quantity_change = neg item.quantity;
    movement_type = StockMovementType.correction;
    notes = "New stock deduction after correction. Reason: " ++ reason;
  }

  unfoldable pub create_details_and_deduct_stock :
      Transaction → CorrectTransactionDto → String → Action ⊤
  unfolding create_corrected_detail
  create_details_and_deduct_stock new_tx dto user_id = do
    for_each dto.items (create_corrected_detail new_tx.id_transaction)
    for_each dto.items
        λ item. adjust_inventory_and_history prisma (corrected new_tx user_id dto.reason item)

  unfoldable pub clone_of : Transaction → String → CorrectTransactionDto → Option Payment → Action ⊤
  clone_of original new_id dto none = pure tt
  clone_of original new_id dto (some payment) = do
    id_payment ← fresh_id prisma
    create prisma payments (record payment {
      id_payment = id_payment;
      id_transaction = new_id;
      id_merchant = original.id_merchant;
      amount = dto.total;
    })
    pure tt

  unfoldable pub clone_payment : FullTransaction → String → CorrectTransactionDto → Action ⊤
  unfolding clone_of
  clone_payment original new_id dto = clone_of original.row new_id dto original.payment

  unfoldable pub mark_old_as_voided_and_bridge :
      String → String → String → String → Action TransactionCorrection
  mark_old_as_voided_and_bridge old_id new_id user_id reason = do
    at ← now prisma
    update prisma transactions (with_id old_id) (
        mark_voided at user_id
          ("Corrected. Reason: " ++ (reason ++ (". New transaction: " ++ new_id))))
    id_correction ← fresh_id prisma
    created_at ← now prisma
    create prisma corrections (record {
      id_correction = id_correction;
      id_old_transaction = old_id;
      id_new_transaction = new_id;
      corrected_by = user_id;
      reason = reason;
      created_at = created_at;
    })

  -- the body of the `$transaction`
  unfoldable pub correct_body :
      JwtPayload → FullTransaction → CorrectTransactionDto → Action TransactionCorrection
  correct_body user original dto = do
    revert_old_stock original user.sub dto.reason
    new_tx ← create_new_transaction original.row dto
    create_details_and_deduct_stock new_tx dto user.sub
    clone_payment original new_tx.id_transaction dto
    mark_old_as_voided_and_bridge original.row.id_transaction new_tx.id_transaction user.sub
        dto.reason

  unfoldable pub correct_transaction :
      JwtPayload → String → CorrectTransactionDto → Action TransactionCorrection
  unfolding status_text
  correct_transaction user id dto = do
    original ← find_one prisma user id
    throw_if (not (is_confirmed original.row.status)) (
        bad_request (
          "Only CONFIRMED transactions can be corrected. Current status: "
          ++ status_text original.row.status))
    transaction (correct_body user original dto)
