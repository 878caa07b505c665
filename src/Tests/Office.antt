-- ===== src/Tests/Office.antt =====
-- Disputes and adjustments on concrete rows.
use k_pos_be.Common.{◌≡◌, refl, none, some, [], ◌∷◌, false}
use k_pos_be.Common.Int.{pos, negsuc, ◌+ℤ◌, ltb_ℤ}
use k_pos_be.Schema.{
  TransactionStatus, SyncStatus, Product, Inventory, Reconciliation, ReconciliationStatus,
}
use k_pos_be.Prisma.Memory.{client, in_memory}
use k_pos_be.Prisma.Action.{
  World, Result, ok, err, ◌>>=◌, pure, throw, transaction, throw_if, or_throw, when, branch, call,
  read, now, fresh_id, find_first, create, create_in, update, update_in,
}
use k_pos_be.Inventory.{adjust_inventory_and_history}
use k_pos_be.Inventory.Ledger.{IsUnmoved, Moved, share}
use k_pos_be.Reconciliations.{
  Case, ResolveReconciliationDto, resolve_reconciliation, find_case, invalidate, close_case,
  void_linked,
}
use k_pos_be.Reconciliations.Settling.{IsSettledCase}
use k_pos_be.Reconciliations.Resolving.{
  IsOpenCase, IsLinked, verdict, status_of_verdict, resolve_reconciliation_lem,
}
use k_pos_be.Products.{
  AdjustStockDto, AdjustedStock, adjust_stock, find_with_inventory, adjust_body,
}
use k_pos_be.Products.Adjusting.{IsTarget, adjust_stock_lem}
use k_pos_be.Tests.Fixture.{shop_with, start, world_of, caller}

dispute : Reconciliation
dispute = record {
  id_reconciliation = "c1";
  id_payment = "y1";
  opened_by = "ani";
  reason = "not received";
  evidence_note = none;
  status = ReconciliationStatus.open_case;
  resolved_by = none;
  resolved_at = none;
  resolution_note = none;
}

-- a confirmed sale whose payment is disputed
contested : World
contested = world_of (record (shop_with TransactionStatus.confirmed SyncStatus.synced).db {
  reconciliations = dispute ∷ [];
})

invalid : ResolveReconciliationDto
invalid = record { resolution = "no transfer"; status = some ReconciliationStatus.resolved_invalid }

abbrev case_row : Result Reconciliation → Reconciliation
case_row (ok r) = r
case_row (err e) = dispute

resolved : Reconciliation
resolved = case_row (resolve_reconciliation client "c1" caller invalid contested).0

settled_world : World
settled_world = (resolve_reconciliation client "c1" caller invalid contested).1

settles : resolve_reconciliation client "c1" caller invalid contested ≡ (ok resolved, settled_world)
unfolding resolved settled_world contested dispute invalid resolve_reconciliation find_case
    invalidate close_case void_linked in_memory ◌>>=◌ pure throw throw_if or_throw when transaction
    branch call read now update update_in
settles = refl

resolve_reconciliation_lem_example :
    (c : Case) × IsOpenCase "c1" caller c contested.db
    × IsLinked client c contested.db
    × (resolved.status ≡ status_of_verdict (verdict invalid))
    × IsSettledCase client "c1" caller
        (verdict invalid)
        invalid.resolution
        c
        resolved
        contested.db
        settled_world.db
    × IsUnmoved "coffee" contested.db settled_world.db
resolve_reconciliation_lem_example =
    resolve_reconciliation_lem client "c1" caller "coffee" invalid contested settled_world resolved
      settles

-- four units are broken
breakage : AdjustStockDto
breakage = record { quantity = negsuc 3; notes = none }

abbrev adjusted_of : Result AdjustedStock → AdjustedStock
adjusted_of (ok r) = r
adjusted_of (err e) = record {
  id_product = "";
  previous_stock = pos 0;
  current_stock = pos 0;
  stock_history = none;
}

adjusted : AdjustedStock
adjusted = adjusted_of (adjust_stock client caller "coffee" breakage start).0

adjusted_world : World
adjusted_world = (adjust_stock client caller "coffee" breakage start).1

adjusts : adjust_stock client caller "coffee" breakage start ≡ (ok adjusted, adjusted_world)
unfolding adjusted adjusted_world breakage adjust_stock find_with_inventory adjust_body
    adjust_inventory_and_history in_memory ◌>>=◌ pure throw throw_if or_throw transaction branch
    call read now fresh_id find_first create create_in update update_in ◌+ℤ◌
adjusts = refl

adjust_stock_lem_example :
    (product : Product) × (stock_row : Inventory) × IsTarget caller "coffee" product stock_row
      start.db
    × (ltb_ℤ (stock_row.current_stock +ℤ breakage.quantity) (pos 0) ≡ false)
    × (adjusted.previous_stock ≡ stock_row.current_stock)
    × Moved "coffee"
        (share "coffee" product.id_product breakage.quantity)
        start.db
        adjusted_world.db
adjust_stock_lem_example =
    adjust_stock_lem client caller "coffee" "coffee" breakage start adjusted_world adjusted adjusts
