-- ===== src/Tests/Sales.antt =====
-- The operations on stored sales.
use k_pos_be.Common.{◌≡◌, refl, none, [], ◌∷◌, true, ℕ}
use k_pos_be.Common.Int.{◌+ℤ◌}
use k_pos_be.Schema.{
  Transaction, TransactionStatus, SyncStatus, TransactionCorrection, transactions, is_pending,
  is_conflict, is_confirmed,
}
use k_pos_be.Prisma.Memory.{client, in_memory}
use k_pos_be.Prisma.Steps.{IsUpdated}
use k_pos_be.Prisma.Action.{
  World, ok, err, ◌>>=◌, pure, throw, transaction, throw_if, branch, for_each, call, read, now,
  fresh_id, create, create_in, update, update_in, Result,
}
use k_pos_be.Inventory.{adjust_inventory_and_history}
use k_pos_be.Inventory.Ledger.{Moved}
use k_pos_be.Transactions.{
  FullTransaction, ResolveConflictDto, ConflictAction, CorrectTransactionDto, with_id, mark_voided,
  find_one, void_transaction, force_resolve_inventory, mark_as_confirmed, resolve_conflict,
}
use k_pos_be.Transactions.Correction.{
  revert_old_stock, create_new_transaction, create_details_and_deduct_stock, clone_payment,
  mark_old_as_voided_and_bridge, correct_body, correct_transaction,
}
use k_pos_be.Transactions.Lookup.{IsFound}
use k_pos_be.Transactions.Voiding.{void_transaction_lem}
use k_pos_be.Transactions.Conflicts.{IsResolved, IsSettledSale, resolve_conflict_lem}
use k_pos_be.Transactions.Corrected.{returned, resold, correct_transaction_lem}
use k_pos_be.Tests.Fixture.{shop_with, stored, caller}

-- a sale with a conflict
disputed : World
disputed = shop_with TransactionStatus.pending SyncStatus.sync_conflict

abbrev row_of : Result Transaction → Transaction
row_of (ok r) = r
row_of (err e) = stored TransactionStatus.failed SyncStatus.sync_failed

voided_row : Transaction
voided_row = row_of (void_transaction client caller "u1" "mistake" disputed).0

voided_world : World
voided_world = (void_transaction client caller "u1" "mistake" disputed).1

voids : void_transaction client caller "u1" "mistake" disputed ≡ (ok voided_row, voided_world)
unfolding voided_row voided_world disputed void_transaction find_one in_memory ◌>>=◌ pure throw
    throw_if branch call read now update update_in
voids = refl

void_transaction_lem_example :
    (t : FullTransaction) × (at : ℕ) × IsFound client caller "u1" t disputed.db
    × (is_pending t.row.status ≡ true)
    × IsUpdated client transactions
        (with_id t.row.id_transaction)
        (mark_voided at caller.sub "mistake")
        voided_row
        disputed.db
        voided_world.db
void_transaction_lem_example =
    void_transaction_lem client caller "u1" "mistake" disputed voided_world voided_row voids

confirming : ResolveConflictDto
confirming = record { action = ConflictAction.confirm; notes = none }

resolved_row : Transaction
resolved_row = row_of (resolve_conflict client caller "u1" confirming disputed).0

resolved_world : World
resolved_world = (resolve_conflict client caller "u1" confirming disputed).1

resolves :
    resolve_conflict client caller "u1" confirming disputed ≡ (ok resolved_row, resolved_world)
unfolding resolved_row resolved_world disputed confirming resolve_conflict find_one
    force_resolve_inventory mark_as_confirmed adjust_inventory_and_history in_memory ◌>>=◌ pure
    throw throw_if transaction for_each branch call read now fresh_id create create_in update
    update_in
resolves = refl

resolve_conflict_lem_example :
    (t : FullTransaction) × IsFound client caller "u1" t disputed.db
    × (is_conflict t.row.sync_status ≡ true)
    × IsResolved confirming.action "coffee" t resolved_row disputed.db resolved_world.db
    × IsSettledSale client caller confirming.action confirming.notes t resolved_row disputed.db
        resolved_world.db
resolve_conflict_lem_example =
    resolve_conflict_lem client caller "coffee" "u1" confirming disputed resolved_world resolved_row
      resolves

-- a confirmed sale, of which three units were sold
confirmed_world : World
confirmed_world = shop_with TransactionStatus.confirmed SyncStatus.synced

amendment : CorrectTransactionDto
amendment = record {
  reason = "miscounted";
  items =
      record {
        id_product = "coffee";
        quantity = 3;
        unit_price = 500;
        subtotal = 1500;
        product_name = none;
      }
      ∷ [];
  subtotal = 1500;
  total = 1500;
  notes = none;
}

abbrev bridge_of : Result TransactionCorrection → TransactionCorrection
bridge_of (ok c) = c
bridge_of (err e) = record {
  id_correction = "";
  id_old_transaction = "";
  id_new_transaction = "";
  corrected_by = "";
  reason = "";
  created_at = 0;
}

bridge : TransactionCorrection
bridge = bridge_of (correct_transaction client caller "t1" amendment confirmed_world).0

corrected_world : World
corrected_world = (correct_transaction client caller "t1" amendment confirmed_world).1

corrects :
    correct_transaction client caller "t1" amendment confirmed_world ≡ (ok bridge, corrected_world)
unfolding bridge corrected_world confirmed_world amendment correct_transaction correct_body find_one
    revert_old_stock create_new_transaction create_details_and_deduct_stock clone_payment
    mark_old_as_voided_and_bridge adjust_inventory_and_history in_memory ◌>>=◌ pure throw throw_if
    transaction for_each branch call read now fresh_id create create_in update update_in
corrects = refl

correct_transaction_lem_example :
    (t : FullTransaction) × IsFound client caller "t1" t confirmed_world.db
    × (is_confirmed t.row.status ≡ true)
    × Moved "coffee"
        (returned "coffee" t.details +ℤ resold "coffee" amendment.items)
        confirmed_world.db
        corrected_world.db
correct_transaction_lem_example =
    correct_transaction_lem client "coffee" caller "t1" amendment confirmed_world corrected_world
      bridge corrects
