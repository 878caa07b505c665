-- ===== src/Inventory/Ledger.antt =====
-- The stock of a product and what its audit trail records, under the shared helper.
use k_pos_be.Common.{
  String, Bool, true, false, ◌≡◌, refl, some, List, ◌==◌, eq_iff, if◌then◌else◌, ◌∙◌,
}
use k_pos_be.Common.Int.{ℤ, pos, ◌+ℤ◌, int_laws, parts_of_eq}
use k_pos_be.Schema.{Db, Inventory, StockHistory, inventory, stock_history}
use k_pos_be.Prisma.{Prisma}
use k_pos_be.Prisma.Action.{Action, ◌>>=◌, update, create}
use k_pos_be.Prisma.Keeps.{
  IsPreorder, Yields, Yields-then, Keeps-Yields, Yields-update, Yields-create, Keeps-fresh_id,
  Keeps-now, Keeps-pure,
}
use k_pos_be.Prisma.Sums.{sum_by, sum_by-cons, sum_by-perm}
use k_pos_be.Inventory.{AdjustInventoryParams, adjust_inventory_and_history, increment}

module _ (p : String) where
  abbrev pub stock_in : Inventory → ℤ
  stock_in i = if i.id_product == p then i.current_stock else pos 0

  abbrev pub logged_in : StockHistory → ℤ
  logged_in h = if h.id_product == p then h.quantity else pos 0

  -- the stock level of a product
  unfoldable pub stock : Db → ℤ
  stock db = sum_by stock_in db.inventory

  -- the sum of the movements that the audit trail records of a product
  unfoldable pub logged : Db → ℤ
  logged db = sum_by logged_in db.stock_history

  -- The stock has moved by `s` and the audit trail by `l`.
  abbrev pub Shifted : ℤ → ℤ → Db → Db → Type 0
  Shifted s l db db' = (stock db' ≡ stock db +ℤ s) × (logged db' ≡ logged db +ℤ l)

  -- Both have moved by the same amount.
  abbrev pub Moved : ℤ → Db → Db → Type 0
  Moved d = Shifted d d

  -- The stock less what is recorded has not changed: no movement goes unrecorded.
  abbrev pub IsAccounted : Db → Db → Type 0
  IsAccounted db db' = stock db' +ℤ logged db ≡ stock db +ℤ logged db'

  -- Neither has changed.
  abbrev pub IsUnmoved : Db → Db → Type 0
  IsUnmoved db db' = (stock db' ≡ stock db) × (logged db' ≡ logged db)

  pub IsAccounted-preorder : IsPreorder IsAccounted
  IsAccounted-preorder = record {
    reflexive = λ db. refl;
    transitive = λ a b c h k. omega (int_laws, parts_of_eq h, parts_of_eq k);
  }

  pub IsUnmoved-preorder : IsPreorder IsUnmoved
  IsUnmoved-preorder = record {
    reflexive = λ db. (refl, refl);
    transitive = λ a b c h k. (k.0 ∙ h.0, k.1 ∙ h.1);
  }

  pub IsUnmoved-IsAccounted : (db db' : Db) → IsUnmoved db db' → IsAccounted db db'
  IsUnmoved-IsAccounted db db' h = rw (h.0, h.1)

  pub Moved-IsAccounted : (d : ℤ) (db db' : Db) → Moved d db db' → IsAccounted db db'
  Moved-IsAccounted d db db' h = rw (h.0, h.1) (omega int_laws)

  -- A step that moves neither, before or after one that does.
  module _ {A B : Type 0} (s l : ℤ) where
    pub Yields-after :
        (m : Action A) (f : A → Action B)
        → Yields IsUnmoved m
        → ((a : A) → Yields (Shifted s l) (f a))
        → Yields (Shifted s l) (m >>= f)
    Yields-after = Yields-then λ a b c h k. (rw (k.0, h.0), rw (k.1, h.1))

    pub Yields-before :
        (m : Action A) (f : A → Action B)
        → Yields (Shifted s l) m
        → ((a : A) → Yields IsUnmoved (f a))
        → Yields (Shifted s l) (m >>= f)
    Yields-before = Yields-then λ a b c h k. (rw (k.0, h.0), rw (k.1, h.1))

  -- what an adjustment of product `q` by `d` does to product `p`
  abbrev pub share : String → ℤ → ℤ
  share q d = if q == p then d else pos 0

  stock_in-increment :
      (q : String) (d : ℤ) (i : Inventory)
      → (i.id_product == q) ≡ true
      → stock_in (increment d i) ≡ stock_in i +ℤ share q d
  stock_in-increment q d i h =
      let same : i.id_product ≡ q = (eq_iff _ _).0 h in rw same (go (q == p))
    where
      go :
          (b : Bool)
          → (if b then i.current_stock +ℤ d else pos 0)
            ≡ (if b then i.current_stock else pos 0) +ℤ (if b then d else pos 0)
      go true = refl
      go false = omega int_laws

  module _ (prisma : Prisma) where
    stock-update :
        (q : String) (d : ℤ) (rows rows' : List Inventory) (r : Inventory)
        → prisma.update (λ i. i.id_product == q) (increment d) rows ≡ some (r, rows')
        → sum_by stock_in rows' ≡ sum_by stock_in rows +ℤ share q d
    stock-update q d rows rows' r e =
        let (i, rest, fits, _, old, new) = prisma.update-some _ _ _ _ _ e in
        rw (sum_by-perm stock_in old, sum_by-perm stock_in new, sum_by-cons, sum_by-cons)
          (rw (stock_in-increment q d i fits) (omega int_laws))

    adjust_stock :
        (q : String) (d : ℤ)
        → Yields
            (Shifted (share q d) (pos 0))
            (update prisma inventory (λ i. i.id_product == q) (increment d))
    unfolding stock logged
    adjust_stock q d =
        Yields-update prisma inventory _ _
          λ db r rows e. (stock-update q d db.inventory rows r e, omega int_laws)

    log_movement :
        (h : StockHistory)
        → Yields (Shifted (pos 0) (share h.id_product h.quantity)) (create prisma stock_history h)
    unfolding stock logged
    log_movement h = Yields-create prisma stock_history h λ db. (
      omega int_laws,
      rw (sum_by-perm logged_in (prisma.insert-perm h db.stock_history), sum_by-cons)
          (omega int_laws),
    )

    -- Where the helper returns, stock and audit trail have moved by `quantity_change`, for the
    -- product of the parameters and no other.
    pub adjust_inventory-Moved :
        (params : AdjustInventoryParams)
        → Yields
            (Moved (share params.id_product params.quantity_change))
            (adjust_inventory_and_history prisma params)
    unfolding adjust_inventory_and_history
    adjust_inventory-Moved params =
        Yields-then (λ a b c h k. (rw (k.0, h.0) (omega int_laws), rw (k.1, h.1) (omega int_laws)))
          _ _ (adjust_stock _ _)
          λ _.
            Yields-after _ _ _ _ (Keeps-Yields (Keeps-fresh_id IsUnmoved-preorder prisma))
              λ id_stock.
                Yields-after _ _ _ _ (Keeps-Yields (Keeps-now IsUnmoved-preorder prisma))
                  λ created_at.
                    Yields-before _ _ _ _ (log_movement _)
                      λ _. Keeps-Yields (Keeps-pure IsUnmoved-preorder tt)
