-- ===== src/System/Books.antt =====
-- The books of the shop over any sequence of requests: stock against audit trail, and the trail itself.
use mathlib.Core.List.Perm
use mathlib.Core.List.{mem-cons_of_mem}
use k_pos_be.Common.{◌≡◌, refl, String, List, Mem, Bool-cases, inl, inr, ◌==◌, subst, sym}
use k_pos_be.Common.Int.{pos, int_laws}
use k_pos_be.Schema.{Db, Inventory, StockHistory, inventory, stock_history, transactions}
use k_pos_be.Prisma.{Prisma}
use k_pos_be.Prisma.Action.{World}
use k_pos_be.Prisma.Keeps.{
  IsPreorder, Yields, Yields-weaken, Keeps-Yields, Yields-create, Keeps-create, Keeps-update,
  Yields-bind, Keeps-fresh_id, Keeps-now, Keeps-pure,
}
use k_pos_be.Prisma.Sums.{sum_by-cons, sum_by-perm}
use k_pos_be.Inventory.{AdjustInventoryParams, adjust_inventory_and_history}
use k_pos_be.Inventory.Ledger.{
  stock, logged, stock_in, IsAccounted, IsAccounted-preorder, Moved-IsAccounted,
  adjust_inventory-Moved,
}
use k_pos_be.System.{Outside, Request, serve_all}
use k_pos_be.System.Allowed.{Allows}
use k_pos_be.System.Served.{serve_all-Allowed}

module _ (p : String) (prisma : Prisma) where
  empty-IsAccounted :
      (i : Inventory)
      → i.current_stock ≡ pos 0
      → (db : Db) → IsAccounted p db (inventory.with_rows (prisma.insert i db.inventory) db)
  unfolding stock logged
  empty-IsAccounted i none_held db =
      rw (sum_by-perm (stock_in p) (prisma.insert-perm i db.inventory), sum_by-cons)
        (elim (Bool-cases (i.id_product == p)) [
          | inl h ↦ rw (h, none_held) (omega int_laws)
          | inr h ↦ rw h (omega int_laws)
        ])

  Accounted-Allows : Allows prisma (IsAccounted p)
  unfolding stock logged
  Accounted-Allows = record {
    pre = IsAccounted-preorder p;
    adjusts = λ params.
        Yields-weaken (λ a b h. Moved-IsAccounted p _ a b h)
          (adjust_inventory-Moved p prisma params);
    stocks =
        λ i e. Keeps-create (IsAccounted-preorder p) prisma inventory i (empty-IsAccounted i e);
    sells = λ t. Keeps-create (IsAccounted-preorder p) prisma transactions t (λ db. refl);
    revises = λ q f _.
        Keeps-update (IsAccounted-preorder p) prisma transactions q f (λ db r rows _. refl);
    aside = λ t e rows db. rw (e.stock_kept rows db, e.history_kept rows db);
  }

-- What the audit trail held, it holds.
abbrev pub IsExtended : Db → Db → Type 0
IsExtended db db' = (h : StockHistory) → Mem h db.stock_history → Mem h db'.stock_history

IsExtended-preorder : IsPreorder IsExtended
IsExtended-preorder = record { reflexive = λ db h m. m; transitive = λ a b c f g h m. g h (f h m) }

module _ (prisma : Prisma) where
  adjust-IsExtended :
      (params : AdjustInventoryParams)
      → Yields IsExtended (adjust_inventory_and_history prisma params)
  unfolding adjust_inventory_and_history
  adjust-IsExtended params =
      let pre = IsExtended-preorder in
      Yields-bind pre _ _
        (Keeps-Yields (Keeps-update pre prisma inventory _ _ (λ db r rows _ h m. m)))
        λ _. Yields-bind pre _ _ (Keeps-Yields (Keeps-fresh_id pre prisma)) λ id.
          Yields-bind pre _ _ (Keeps-Yields (Keeps-now pre prisma)) λ at.
            Yields-bind pre _ _
              (Yields-create prisma stock_history _ (λ db h m.
                (Perm.mem_iff (prisma.insert-perm _ db.stock_history)).1 (mem-cons_of_mem _ m)))
              λ _. Keeps-Yields (Keeps-pure pre tt)

  Extended-Allows : Allows prisma IsExtended
  Extended-Allows = record {
    pre = IsExtended-preorder;
    adjusts = adjust-IsExtended;
    stocks = λ i e. Keeps-create IsExtended-preorder prisma inventory i (λ db h m. m);
    sells = λ t. Keeps-create IsExtended-preorder prisma transactions t (λ db h m. m);
    revises =
        λ q f _. Keeps-update IsExtended-preorder prisma transactions q f (λ db r rows _ h m. m);
    aside = λ t e rows db h m. subst (λ l. Mem h l) (sym (e.history_kept rows db)) m;
  }

module _ (outside : Outside) (requests : List Request) (w : World) where
  -- Whatever requests and deliveries the backend handles, in whatever order, and whatever calls fail:
  -- the stock level of every product and the sum of its audit trail have changed by the same amount.
  pub serve_all-IsAccounted : (p : String) → IsAccounted p w.db (serve_all outside requests w).1.db
  serve_all-IsAccounted p =
      (serve_all-Allowed outside (Accounted-Allows p outside.prisma) requests).at w

  -- Over the same sequences no entry of the audit trail is changed or removed.
  pub serve_all-IsExtended : IsExtended w.db (serve_all outside requests w).1.db
  serve_all-IsExtended = (serve_all-Allowed outside (Extended-Allows outside.prisma) requests).at w
