-- ===== src/Inventory.antt =====
-- src/common/utils/inventory.util.ts: a stock level changes together with its audit trail.
pub mod Ledger
pub mod Elsewhere
pub mod Each
use k_pos_be.Common.{String, Option, some, ◌==◌}
use k_pos_be.Common.Int.{ℤ, ◌+ℤ◌}
use k_pos_be.Schema.{Inventory, StockHistory, StockMovementType, inventory, stock_history}
use k_pos_be.Prisma.{Prisma}
use k_pos_be.Prisma.Action.{Action, ⊤, pure, ◌>>=◌, ◌>>◌, update, create, fresh_id, now}

pub record AdjustInventoryParams : Type 0 where
  pub id_product : String
  pub id_merchant : String
  pub id_user : String
  pub id_transaction : Option String
  -- positive to increment the stock, negative to decrement it
  pub quantity_change : ℤ
  pub movement_type : StockMovementType
  pub notes : String

-- `increment: quantity_change`
abbrev pub increment : ℤ → Inventory → Inventory
increment d i = record i { current_stock = i.current_stock +ℤ d }

module _ (prisma : Prisma) where
  unfoldable pub adjust_inventory_and_history : AdjustInventoryParams → Action ⊤
  adjust_inventory_and_history params = do
    update prisma inventory (λ i. i.id_product == params.id_product)
        (increment params.quantity_change)
    id_stock ← fresh_id prisma
    created_at ← now prisma
    create prisma stock_history (record {
      id_stock = id_stock;
      id_product = params.id_product;
      id_merchant = some params.id_merchant;
      id_user = some params.id_user;
      movement_type = params.movement_type;
      quantity = params.quantity_change;
      id_transaction = params.id_transaction;
      notes = some params.notes;
      created_at = created_at;
    })
    pure tt
