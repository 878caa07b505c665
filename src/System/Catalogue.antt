-- ===== src/System/Catalogue.antt =====
-- The catalogue under a relation that allows its writes.
use k_pos_be.Common.{Option, none, some, String, refl, ◌≡◌, Bool, Bool-cases, inl, inr, ◌==◌}
use k_pos_be.Common.Int.{pos}
use k_pos_be.Schema.{Db, Product, Inventory, products, inventory}
use k_pos_be.Inventory.{AdjustInventoryParams, adjust_inventory_and_history}
use k_pos_be.User.{JwtPayload}
use k_pos_be.Storage.{Supabase, MulterFile}
use k_pos_be.Prisma.{Prisma}
use k_pos_be.Prisma.Action.{
  Error, bad_request, unauthorized, forbidden, not_found, conflict, service_unavailable, internal,
  unhealthy, sync_exception, database, create, update,
}
use k_pos_be.Prisma.Keeps.{
  Keeps, Keeps-bind, Keeps-try_catch, Keeps-transaction, Keeps-Yields, Keeps-pure, Yields-bind,
  Yields, IsPreorder, keeps_rules,
}
use k_pos_be.Products.{
  CreateProductDto, UpdateProductDto, AdjustStockDto, conflict_on_sku, insert_product, store_image,
  sku_or_generated, create_product, drop_image, upload_if_given, update_product, remove_product,
  find_with_inventory, adjust_body, adjust_stock,
}
use k_pos_be.System.Inert.{Keeps-upload, Keeps-delete_image}
use k_pos_be.System.Asides.{products-IsAside}
use k_pos_be.System.Allowed.{Allows, Aside-create, Aside-update}

-- The kinds of write that the catalogue makes.
pub record AllowsCatalogue (prisma : Prisma) (R : Db → Db → Type 0) : Type 1 where
  pub pre : IsPreorder R
  pub adjusts :
      (params : AdjustInventoryParams) → Yields R (adjust_inventory_and_history prisma params)
  pub stocks : (i : Inventory) → i.current_stock ≡ pos 0 → Keeps R (create prisma inventory i)
  pub lists : (p : Product) → Keeps R (create prisma products p)
  pub edits : (q : Product → Bool) (f : Product → Product) → Keeps R (update prisma products q f)

pub catalogue_of :
    {prisma : Prisma} {R : Db → Db → Type 0} → Allows prisma R → AllowsCatalogue prisma R
catalogue_of allows = record {
  pre = allows.pre;
  adjusts = allows.adjusts;
  stocks = allows.stocks;
  lists = Aside-create allows products products-IsAside;
  edits = Aside-update allows products products-IsAside;
}

module _ {prisma : Prisma} {R : Db → Db → Type 0} (allows : AllowsCatalogue prisma R) where
  open allows use {pre, adjusts, stocks, lists, edits}

  sku_conflict-Allowed :
      {A : Type 0} (sku : String) (e : Error) → Keeps R (conflict_on_sku {A = A} sku e)
  sku_conflict-Allowed sku (database e) = elim (Bool-cases (e.code == "P2002")) [
    | inl h ↦ rw h (search (pre, keeps_rules))
    | inr h ↦ rw h (search (pre, keeps_rules))
  ]
  sku_conflict-Allowed sku (bad_request m) = search (pre, keeps_rules)
  sku_conflict-Allowed sku (unauthorized m) = search (pre, keeps_rules)
  sku_conflict-Allowed sku (forbidden m) = search (pre, keeps_rules)
  sku_conflict-Allowed sku (not_found m) = search (pre, keeps_rules)
  sku_conflict-Allowed sku (conflict m) = search (pre, keeps_rules)
  sku_conflict-Allowed sku (service_unavailable m) = search (pre, keeps_rules)
  sku_conflict-Allowed sku (internal m) = search (pre, keeps_rules)
  sku_conflict-Allowed sku (unhealthy m) = search (pre, keeps_rules)
  sku_conflict-Allowed sku (sync_exception c m) = search (pre, keeps_rules)

  insert-Allowed :
      (user : JwtPayload) (sku : String) (dto : CreateProductDto)
      → Keeps R (insert_product prisma user sku dto)
  unfolding insert_product
  insert-Allowed user sku dto = Keeps-bind pre _ _ (search (pre, keeps_rules)) λ id.
      Keeps-bind pre _ _ (search (pre, keeps_rules)) λ id_inventory.
        Keeps-bind pre _ _ (lists _)
          λ product. Keeps-bind pre _ _ (stocks _ refl) λ _. Keeps-pure pre product

  sku-Allowed : (o : Option String) → Keeps R (sku_or_generated prisma o)
  sku-Allowed none = search (pre, keeps_rules)
  sku-Allowed (some sku) = search (pre, keeps_rules)

  image-Allowed :
      (supabase : Supabase) (user : JwtPayload) (product : Product) (o : Option MulterFile)
      → Keeps R (store_image prisma supabase user product o)
  unfolding store_image
  image-Allowed supabase user product none = search (pre, keeps_rules)
  image-Allowed supabase user product (some file) =
      search (pre, keeps_rules, Keeps-upload, edits) depth 12

  pub create_product-Allowed :
      (supabase : Supabase) (user : JwtPayload) (dto : CreateProductDto) (file : Option MulterFile)
      → Keeps R (create_product prisma supabase user dto file)
  unfolding create_product
  create_product-Allowed supabase user dto file = Keeps-bind pre _ _ (sku-Allowed dto.sku) λ sku.
      Keeps-bind pre _ _
        (Keeps-try_catch pre _ _ _
          (Keeps-transaction pre _ (Keeps-Yields (insert-Allowed user sku dto)))
          (λ p. Keeps-pure pre p) (sku_conflict-Allowed sku))
        λ product. image-Allowed supabase user product file

  drop-Allowed : (supabase : Supabase) (o : Option String) → Keeps R (drop_image prisma supabase o)
  drop-Allowed supabase none = search (pre, keeps_rules)
  drop-Allowed supabase (some url) = Keeps-delete_image pre supabase url

  given-Allowed :
      (supabase : Supabase) (product : Product) (o : Option MulterFile)
      → Keeps R (upload_if_given prisma supabase product o)
  unfolding upload_if_given
  given-Allowed supabase product none = search (pre, keeps_rules)
  given-Allowed supabase product (some file) =
      search (pre, keeps_rules, Keeps-upload, drop-Allowed) depth 12

  pub update_product-Allowed :
      (supabase : Supabase) (user : JwtPayload) (id : String) (dto : UpdateProductDto)
      (file : Option MulterFile)
      → Keeps R (update_product prisma supabase user id dto file)
  unfolding update_product
  update_product-Allowed supabase user id dto file =
      search (pre, keeps_rules, given-Allowed, sku_conflict-Allowed, edits) depth 14

  pub remove_product-Allowed :
      (user : JwtPayload) (id : String) → Keeps R (remove_product prisma user id)
  unfolding remove_product
  remove_product-Allowed user id = search (pre, keeps_rules, edits) depth 12

  pub adjust_stock-Allowed :
      (user : JwtPayload) (id : String) (dto : AdjustStockDto)
      → Keeps R (adjust_stock prisma user id dto)
  unfolding adjust_stock find_with_inventory adjust_body
  adjust_stock-Allowed user id dto = Keeps-bind pre _ _ (search (pre, keeps_rules)) λ found.
      Keeps-bind pre _ _ (search (pre, keeps_rules)) λ target.
        Keeps-bind pre _ _ (search (pre, keeps_rules)) λ _.
          Keeps-bind pre _ _
            (Keeps-transaction pre _
              (Yields-bind pre _ _ (adjusts _) λ _. Keeps-Yields (search (pre, keeps_rules))))
            λ result. search (pre, keeps_rules)
