-- ===== src/System/Lasting.antt =====
-- The sales over any sequence of requests: what was recorded stays, and a status only moves on.
use mathlib.Core.List.Perm
use mathlib.Core.List.{mem-cons, mem-cons_of_mem, mem-cons_self}
use mathlib.Core.Logic.{∥∥₁_elim, ∥∥₁_map, ∥∥₁_prop}
use mathlib.Core.Logic.Or
use k_pos_be.Common.{◌≡◌, List, Mem, Bool, subst, sym}
use k_pos_be.Schema.{
  Db, Transaction, Inventory, StockHistory, inventory, stock_history, transactions,
}
use k_pos_be.Prisma.{Prisma}
use k_pos_be.Prisma.Action.{World, update}
use k_pos_be.Prisma.Keeps.{
  IsPreorder, Keeps, Yields, Keeps-Yields, Keeps-create, Keeps-update, keeps_rules,
}
use k_pos_be.Inventory.{AdjustInventoryParams, adjust_inventory_and_history}
use k_pos_be.System.{Outside, Request, serve_all}
use k_pos_be.System.Revisions.{IsRevised, IsRevised-refl, IsRevised-trans}
use k_pos_be.System.Allowed.{Allows}
use k_pos_be.System.Served.{serve_all-Allowed}

-- A revision of the sale is stored.
abbrev pub IsHeld : Transaction → List Transaction → Type 0
IsHeld t rows = ∥ ((s : Transaction) × Mem s rows × IsRevised t s) ∥₁

-- Of every sale that was stored, a revision is stored.
abbrev pub IsLasting : Db → Db → Type 0
IsLasting db db' = (t : Transaction) → Mem t db.transactions → IsHeld t db'.transactions

held : (t : Transaction) (rows : List Transaction) → Mem t rows → IsHeld t rows
held t rows m = ∣ (t, m, IsRevised-refl t) ∣₁

same-IsLasting : (db db' : Db) → db'.transactions ≡ db.transactions → IsLasting db db'
same-IsLasting db db' e t m = held t _ (subst (λ l. Mem t l) (sym e) m)

IsLasting-preorder : IsPreorder IsLasting
IsLasting-preorder = record {
  reflexive = λ db t m. held t _ m;
  transitive = λ a b c f g t m.
      ∥∥₁_elim (f t m) ∥∥₁_prop
        λ h. ∥∥₁_map (g h.0 h.1) (λ k. (k.0, k.1, IsRevised-trans _ _ _ h.2 k.2));
}

module _ (prisma : Prisma) where
  revised-IsLasting :
      (q : Transaction → Bool) (f : Transaction → Transaction)
      → ((t : Transaction) → IsRevised t (f t))
      → Keeps IsLasting (update prisma transactions q f)
  revised-IsLasting q f step =
      Keeps-update IsLasting-preorder prisma transactions q f λ db r rows e t m.
        let (row, rest, _, _, old, new) = prisma.update-some q f db.transactions r rows e in
        Or.elim ∥∥₁_prop (mem-cons.0 ((Perm.mem_iff old).0 m))
          (λ same. ∣ (
            f row,
            (Perm.mem_iff new).1 mem-cons_self,
            subst (λ x. IsRevised x (f row)) (sym same) (step row),
          ) ∣₁)
          (λ other. held t rows ((Perm.mem_iff new).1 (mem-cons_of_mem _ other)))

  adjust-IsLasting :
      (params : AdjustInventoryParams)
      → Yields IsLasting (adjust_inventory_and_history prisma params)
  unfolding adjust_inventory_and_history
  adjust-IsLasting params =
      let pre = IsLasting-preorder in
      Keeps-Yields (
        search
          (
            pre,
            keeps_rules,
            λ (q : Inventory → Bool) (f : Inventory → Inventory).
                Keeps-update pre prisma inventory q f (λ db r rows _ t m. held t _ m),
            λ (r : StockHistory). Keeps-create pre prisma stock_history r (λ db t m. held t _ m),
          )
          depth 12)

  Lasting-Allows : Allows prisma IsLasting
  Lasting-Allows = record {
    pre = IsLasting-preorder;
    adjusts = adjust-IsLasting;
    stocks = λ i e. Keeps-create IsLasting-preorder prisma inventory i (λ db t m. held t _ m);
    sells = λ s. Keeps-create IsLasting-preorder prisma transactions s λ db t m.
        held t _ ((Perm.mem_iff (prisma.insert-perm s db.transactions)).1 (mem-cons_of_mem _ m));
    revises = revised-IsLasting;
    aside = λ t e rows db. same-IsLasting db (t.with_rows rows db) (e.sales_kept rows db);
  }

-- Whatever requests and deliveries the backend handles, in whatever order, and whatever calls fail: of
-- every sale that was stored before, a row is stored after that differs at most in its status, the
-- status of its synchronisation, when it was confirmed, and when, by whom and why it was voided; its
-- status is the same, CONFIRMED or VOIDED, and that of its synchronisation the same or SYNCED.
pub serve_all-IsLasting :
    (outside : Outside) (requests : List Request) (w : World)
    → IsLasting w.db (serve_all outside requests w).1.db
serve_all-IsLasting outside requests w =
    (serve_all-Allowed outside (Lasting-Allows outside.prisma) requests).at w
