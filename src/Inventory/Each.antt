-- ===== src/Inventory/Each.antt =====
-- The shared helper over a list of lines.
use k_pos_be.Common.{String, List, [], ◌∷◌, ◌≡◌, arith}
use k_pos_be.Common.Int.{ℤ, pos, ◌+ℤ◌, int_laws}
use k_pos_be.Prisma.{Prisma}
use k_pos_be.Prisma.Action.{World, ok, pure, for_each}
use k_pos_be.Prisma.Keeps.{Yields, Yields-then}
use k_pos_be.Inventory.{AdjustInventoryParams, adjust_inventory_and_history}
use k_pos_be.Inventory.Ledger.{share, Moved, adjust_inventory-Moved}

module _ (p : String) where
  module _ {A : Type 0} (product : A → String) (change : A → ℤ) where
    -- what the lines do together to the product
    pub total_share : List A → ℤ
    total_share [] = pos 0
    total_share (x ∷ xs) = share p (product x) (change x) +ℤ total_share xs

  still-Moved : Yields (Moved p (pos 0)) (pure tt)
  unfolding pure
  still-Moved = record {
    at = λ w a w' e. let same : w'.db ≡ w.db = ground arith in rw same (omega int_laws);
  }

  pub for_each-Moved :
      {A : Type 0} (prisma : Prisma) (f : A → AdjustInventoryParams) (xs : List A)
      → Yields
          (Moved p (total_share (λ x. (f x).id_product) (λ x. (f x).quantity_change) xs))
          (for_each xs (λ x. adjust_inventory_and_history prisma (f x)))
  unfolding for_each total_share
  for_each-Moved prisma f [] = still-Moved
  for_each-Moved prisma f (x ∷ xs) =
      Yields-then (λ a b c h k. (rw (k.0, h.0) (omega int_laws), rw (k.1, h.1) (omega int_laws))) _
        _ (adjust_inventory-Moved p prisma (f x)) (λ _. for_each-Moved prisma f xs)

-- Where `adjustInventoryAndHistory` returns, the stock of its product and the sum of the product's
-- audit trail have both moved by `quantity_change`, and those of every other product by nothing.
pub adjust_inventory_and_history_lem :
    (p : String) (prisma : Prisma) (params : AdjustInventoryParams) (w w' : World)
    → adjust_inventory_and_history prisma params w ≡ (ok tt, w')
    → Moved p (share p params.id_product params.quantity_change) w.db w'.db
adjust_inventory_and_history_lem p prisma params w w' h =
    (adjust_inventory-Moved p prisma params).at w tt w' h
