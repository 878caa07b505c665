-- ===== src/Products/Adjusting.antt =====
-- What a manual adjustment of stock leaves behind.
use k_pos_be.Common.{
  ◌≡◌, refl, String, true, false, Option, none, some, Mem, arith, ◌∙◌, ap, subst, ◌==◌, eq_iff,
}
use k_pos_be.Common.Int.{pos, ◌+ℤ◌, ltb_ℤ}
use k_pos_be.Schema.{Db, Product, Inventory}
use k_pos_be.User.{JwtPayload}
use k_pos_be.Prisma.{Prisma}
use k_pos_be.Prisma.Action.{World, ok, pure}
use k_pos_be.Prisma.Inversion.{bind-ok, read-ok}
use k_pos_be.Prisma.Keeps.{Yields, Keeps-Yields, Yields-transaction}
use k_pos_be.Prisma.Steps.{throw_if-ok, or_throw-ok}
use k_pos_be.Inventory.Ledger.{share, Moved, adjust_inventory-Moved, Yields-before}
use k_pos_be.Inventory.Elsewhere.{unmoved_rules}
use k_pos_be.Products.{
  AdjustStockDto, AdjustedStock, is_own, inventory_of, find_with_inventory, adjust_body,
  adjust_stock,
}

-- A product of the caller's merchant and its stock.
pub record IsTarget (user : JwtPayload) (id : String) (product : Product) (stock_row : Inventory)
    (db : Db) : Type 0 where
  pub listed : Mem product db.products
  pub own : is_own user id product ≡ true
  pub stocked : Mem stock_row db.inventory
  pub about : stock_row.id_product ≡ product.id_product

module _ (prisma : Prisma) (user : JwtPayload) where
  stock-found :
      (p : Product) (o : Option Inventory) (x : Product × Inventory)
      → elim o [ none ↦ none | some i ↦ some (p, i) ] ≡ some x
      → (p ≡ x.0) × (o ≡ some x.1)
  stock-found p none x e = cc
  stock-found p (some i) x e =
      let same : ◌≡◌ {A = Product × Inventory} (p, i) x = cc in
      subst (λ y. (p ≡ y.0) × (some i ≡ some y.1)) same (refl, refl)

  target-found :
      (id : String) (db : Db) (o : Option Product) (x : Product × Inventory)
      → inventory_of prisma db o ≡ some x
      → (o ≡ some x.0) × (prisma.find (λ i. i.id_product == x.0.id_product) db.inventory ≡ some x.1)
  target-found id db none x e = cc
  target-found id db (some p) x e =
      let (same, found) = stock-found p _ x e in
      (
        ap some same,
        subst (λ y. prisma.find (λ i. i.id_product == y.id_product) db.inventory ≡ some x.1) same
            found,
      )

  body-Moved :
      (p : String) (dto : AdjustStockDto) (x : Product × Inventory)
      → Yields (Moved p (share p x.0.id_product dto.quantity)) (adjust_body prisma user dto x)
  unfolding adjust_body
  body-Moved p dto x =
      Yields-before p _ _ _ _ (adjust_inventory-Moved p prisma _)
        (λ _. Keeps-Yields (search unmoved_rules depth 12))

  -- Where `adjustStock` returns, a product of the caller's merchant and its stock row were found, the
  -- level read does not fall below zero by the adjustment, and stock and audit trail of that product,
  -- and of no other, have moved by the quantity asked for.
  pub adjust_stock_lem :
      (p id : String) (dto : AdjustStockDto) (w w' : World) (r : AdjustedStock)
      → adjust_stock prisma user id dto w ≡ (ok r, w')
      → (product : Product) × (stock_row : Inventory) × IsTarget user id product stock_row w.db
        × (ltb_ℤ (stock_row.current_stock +ℤ dto.quantity) (pos 0) ≡ false)
        × (r.previous_stock ≡ stock_row.current_stock)
        × Moved p (share p product.id_product dto.quantity) w.db w'.db
  unfolding adjust_stock find_with_inventory pure
  adjust_stock_lem p id dto w w' r h =
      let (o, v, found, h1) = bind-ok _ _ w h in
      let (e, same) = read-ok prisma _ w v o found in
      let (x, v1, e1, h2) = bind-ok _ _ v h1 in
      let (is, w1) = or_throw-ok o _ v v1 x e1 in
      let (_, v2, e2, h3) = bind-ok _ _ v1 h2 in
      let (enough, w2) = throw_if-ok _ _ v1 v2 e2 in
      let (_, v3, e3, h4) = bind-ok _ _ v2 h3 in
      let (product, stocked) = target-found id w.db _ x (e ∙ is) in
      let (own, listed) = prisma.find-some _ _ x.0 product in
      let (about, held) = prisma.find-some _ _ x.1 stocked in
      let moved = (Yields-transaction (body-Moved p dto x)).at v2 _ v3 e3 in
      let before : v2.db ≡ w.db = ap (λ y. y.db) (w2 ∙ w1) ∙ same in
      let after : v3.db ≡ w'.db = ground arith in
      (
        x.0,
        x.1,
        record { listed = listed; own = own; stocked = held; about = (eq_iff _ _).0 about },
        enough,
        ground arith,
        subst (λ y. Moved p (share p x.0.id_product dto.quantity) w.db y) after
            (subst (λ y. Moved p (share p x.0.id_product dto.quantity) y v3.db) before moved),
      )
