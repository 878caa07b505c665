-- ===== src/Tests/Worker.antt =====
-- The queue worker on concrete sales.
use mathlib.Core.List.{flatten}
use k_pos_be.Common.{◌≡◌, refl, none, [], ◌∷◌}
use k_pos_be.Common.Int.{pos}
use k_pos_be.Schema.{StockMovementType}
use k_pos_be.Prisma.Memory.{client, in_memory}
use k_pos_be.Prisma.Action.{
  World, ok, ◌>>=◌, pure, throw, lift, transaction, or_throw, when, branch, for_each, call, read,
  now, fresh_id, find_first, create, create_in, update, update_in,
}
use k_pos_be.Inventory.{AdjustInventoryParams, adjust_inventory_and_history}
use k_pos_be.Inventory.Ledger.{Moved, share}
use k_pos_be.Inventory.Each.{adjust_inventory_and_history_lem}
use k_pos_be.Sync.Process.{
  validate_arithmetic, process_transaction, process_body, record_sale, check_stock_availability,
  create_transaction_header, create_transaction_details, create_payment, deduct_inventory,
}
use k_pos_be.Sync.Producer.{Broker, confirmed}
use k_pos_be.Sync.Consumer.{ack, sync_item, handle_sync_transaction_batch, handle_dead_letter}
use k_pos_be.Sync.Arithmetic.{IsBalanced}
use k_pos_be.Sync.Recorded.{IsRecorded}
use k_pos_be.Sync.Outcome.{IsSettled, IsQueueOnly, sync_item_lem}
use k_pos_be.Sync.Sale.{process_transaction_lem}
use k_pos_be.Sync.Batch.{batch-ack, redelivery}
use k_pos_be.Sync.Retry.{IsHandled, handle_dead_letter_lem}
use k_pos_be.Tests.Fixture.{start, sale}

after : World
after = (process_transaction client sale start).1

sells : process_transaction client sale start ≡ (ok tt, after)
unfolding after process_transaction process_body record_sale validate_arithmetic
    check_stock_availability create_transaction_header create_transaction_details create_payment
    deduct_inventory adjust_inventory_and_history in_memory ◌>>=◌ pure throw lift transaction
    or_throw when branch for_each call read now fresh_id find_first create update flatten create_in
    update_in
sells = refl

process_transaction_lem_example :
    IsBalanced sale × IsRecorded client "coffee" sale start.db after.db
process_transaction_lem_example = process_transaction_lem client sale "coffee" start after sells

redelivery_example : IsQueueOnly after.db (sync_item client sale after).1.db
redelivery_example =
    redelivery client "coffee" sale start.db after
      (process_transaction_lem client sale "coffee" start after sells).1

sync_item_lem_example :
    ((sync_item client sale start).0 ≡ ok tt)
    × IsSettled client "coffee" sale start.db (sync_item client sale start).1.db
sync_item_lem_example = sync_item_lem client "coffee" sale start

batch-ack_example : (handle_sync_transaction_batch client (sale ∷ sale ∷ []) start).0 ≡ ok ack
batch-ack_example = batch-ack client (sale ∷ sale ∷ []) start

-- a broker that takes every message
willing : Broker
willing = record { answer = λ n. confirmed }

handle_dead_letter_lem_example :
    IsHandled client willing sale start (handle_dead_letter client willing sale start).1
handle_dead_letter_lem_example = handle_dead_letter_lem client willing sale start

delivery : AdjustInventoryParams
delivery = record {
  id_product = "coffee";
  id_merchant = "shop";
  id_user = "ani";
  id_transaction = none;
  quantity_change = pos 5;
  movement_type = StockMovementType.adjustment;
  notes = "Delivery";
}

delivered : World
delivered = (adjust_inventory_and_history client delivery start).1

delivers : adjust_inventory_and_history client delivery start ≡ (ok tt, delivered)
unfolding delivered delivery adjust_inventory_and_history in_memory ◌>>=◌ pure call now fresh_id
    create update create_in update_in
delivers = refl

adjust_inventory_and_history_lem_example :
    Moved "coffee"
      (share "coffee" delivery.id_product delivery.quantity_change)
      start.db
      delivered.db
adjust_inventory_and_history_lem_example =
    adjust_inventory_and_history_lem "coffee" client delivery start delivered delivers
