-- ===== src/Transactions.antt =====
-- src/modules/transactions/transactions.service.ts: looking a sale up, voiding it, resolving its
-- synchronisation conflict, and correcting it.
pub mod Correction
pub mod Lookup
pub mod Voiding
pub mod Conflicts
pub mod Corrected
pub mod Listing
pub mod History
use Prim.Native.String.{◌++◌}
use k_pos_be.Common.{
  ℕ, String, Bool, true, false, not, ◌&&◌, ◌||◌, Option, none, some, List, [], ◌∷◌, ◌==◌, or_else,
  trim, if◌then◌else◌,
}
use k_pos_be.Common.Int.{ℤ, pos, neg}
use k_pos_be.Schema.{
  Db, Transaction, DetailTransaction, Payment, TransactionCorrection, TransactionStatus, SyncStatus,
  StockMovementType, same_key, is_voided, is_pending, is_confirmed, is_conflict, transactions,
  details, payments, corrections,
}
use k_pos_be.User.{JwtPayload}
use k_pos_be.Inventory.{AdjustInventoryParams, adjust_inventory_and_history}
use k_pos_be.Prisma.{Prisma}
use k_pos_be.Prisma.Action.{
  Action, Result, ok, Error, bad_request, not_found, ⊤, pure, throw, ◌>>=◌, ◌>>◌, throw_if, branch,
  for_each, transaction, read, now, fresh_id, create, update,
}

-- `include: { details: true, payment: true }`
pub record FullTransaction : Type 0 where
  pub row : Transaction
  pub details : List DetailTransaction
  pub payment : Option Payment

pub data ConflictAction : Type 0 where
  confirm void : ConflictAction

pub record ResolveConflictDto : Type 0 where
  pub action : ConflictAction
  pub notes : Option String

-- src/modules/transactions/dto/correct-transaction.dto.ts; a quantity is taken for a whole number
pub record CorrectItemDto : Type 0 where
  pub id_product : String
  pub quantity : ℕ
  pub unit_price : ℕ
  pub subtotal : ℕ
  pub product_name : Option String

pub record CorrectTransactionDto : Type 0 where
  pub reason : String
  pub items : List CorrectItemDto
  pub subtotal : ℕ
  pub total : ℕ
  pub notes : Option String

-- `where: { OR: [{ id_transaction: id }, { offline_uuid: id }] }`
abbrev pub by_id : String → Transaction → Bool
by_id id t = t.id_transaction == id || same_key t.offline_uuid (some id)

-- `where: { id_transaction }`
abbrev pub with_id : String → Transaction → Bool
with_id id t = t.id_transaction == id

abbrev pub mark_voided : ℕ → String → String → Transaction → Transaction
mark_voided at by reason t = record t {
  status = TransactionStatus.voided;
  voided_at = some at;
  voided_by = some by;
  void_reason = some reason;
}

-- found, and of the caller's merchant
abbrev pub is_own : JwtPayload → FullTransaction → Bool
is_own user t = t.row.id_merchant == user.id_merchant

module _ (prisma : Prisma) where
  abbrev with_relations : Db → Option Transaction → Option FullTransaction
  with_relations db none = none
  with_relations db (some t) = some (record {
    row = t;
    details = prisma.find_many (λ d. d.id_transaction == t.id_transaction) db.details;
    payment = prisma.find (λ p. p.id_transaction == t.id_transaction) db.payments;
  })

  unfoldable pub find_full : String → Action (Option FullTransaction)
  find_full id = read prisma λ db. with_relations db (prisma.find (by_id id) db.transactions)

  unfoldable pub check_own : JwtPayload → String → Option FullTransaction → Action FullTransaction
  check_own user id none = throw (not_found ("Transaction with ID " ++ (id ++ " not found")))
  check_own user id (some t) =
      branch (not (is_own user t))
        (throw (not_found ("Transaction with ID " ++ (id ++ " not found")))) (pure t)

  unfoldable pub find_one : JwtPayload → String → Action FullTransaction
  unfolding find_full check_own
  find_one user id = find_full id >>= check_own user id

  unfoldable pub void_transaction : JwtPayload → String → String → Action Transaction
  void_transaction user id void_reason = do
    tx ← find_one user id
    throw_if (is_voided tx.row.status) (bad_request "Transaction is already voided")
    throw_if (not (is_pending tx.row.status)) (
        bad_request
          "Only PENDING transactions can be voided. Confirmed transactions must go through correction workflow.")
    at ← now prisma
    update prisma transactions (with_id tx.row.id_transaction) (mark_voided at user.sub void_reason)

  abbrev pub forced_sale :
      Transaction → String → Option String → DetailTransaction → AdjustInventoryParams
  forced_sale tx user_id notes detail = record {
    id_product = detail.id_product;
    id_merchant = tx.id_merchant;
    id_user = user_id;
    id_transaction = some tx.id_transaction;
    quantity_change = neg detail.quantity;
    movement_type = StockMovementType.sale;
    notes = trim ("Forced resolve by OWNER (conflict resolution). " ++ or_else notes "");
  }

  unfoldable pub force_resolve_inventory : FullTransaction → String → Option String → Action ⊤
  force_resolve_inventory tx user_id notes =
      for_each tx.details
        λ detail. adjust_inventory_and_history prisma (forced_sale tx.row user_id notes detail)

  unfoldable pub mark_as_confirmed : String → Action Transaction
  mark_as_confirmed id = do
    at ← now prisma
    update prisma transactions (with_id id) (λ t. record t {
      status = TransactionStatus.confirmed;
      sync_status = SyncStatus.synced;
      confirmed_at = some at;
    })

  unfoldable pub resolve_by :
      ConflictAction → JwtPayload → FullTransaction → Option String → Action Transaction
  resolve_by confirm user tx notes =
      transaction
        (force_resolve_inventory tx user.sub notes >> mark_as_confirmed tx.row.id_transaction)
  resolve_by void user tx notes = do
    at ← now prisma
    update prisma transactions (with_id tx.row.id_transaction) (λ t.
        record (mark_voided at user.sub
          (trim ("Conflict resolved by OWNER (voided). " ++ or_else notes "")) t) {
            sync_status = SyncStatus.synced;
          })

  unfoldable pub resolve_conflict : JwtPayload → String → ResolveConflictDto → Action Transaction
  unfolding resolve_by
  resolve_conflict user id dto = do
    tx ← find_one user id
    throw_if (not (is_conflict tx.row.sync_status))
        (bad_request "Transaction is not in SYNC_CONFLICT state.")
    resolve_by dto.action user tx dto.notes
