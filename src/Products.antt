-- ===== src/Products.antt =====
-- src/modules/products/products.service.ts: the catalogue and the manual adjustment of stock. The
-- history entry that `adjustStock` returns is the newest in the source, and any of the product here.
pub mod Adjusting
pub mod Listing
use Prim.Native.String.{◌++◌}
use k_pos_be.Common.{
  ℕ, String, Bool, true, false, not, ◌&&◌, Option, none, some, ◌==◌, or_else, is_empty, show_ℕ,
  if◌then◌else◌,
}
use k_pos_be.Common.Int.{ℤ, pos, neg_part, ◌+ℤ◌, pos_part, ltb_ℤ}
use k_pos_be.Schema.{
  Db, Product, Inventory, StockHistory, StockMovementType, products, inventory, stock_history,
  same_key,
}
use k_pos_be.User.{JwtPayload}
use k_pos_be.Storage.{Supabase, MulterFile, upload_product_image, delete_product_image}
use k_pos_be.Inventory.{adjust_inventory_and_history}
use k_pos_be.Prisma.{Prisma}
use k_pos_be.Prisma.Action.{
  Action, Error, bad_request, not_found, conflict, database, ⊤, pure, throw, ◌>>=◌, ◌>>◌, try_catch,
  throw_if, or_throw, when, transaction, read, now, fresh_id, find_first, create, update,
}

-- src/modules/products/dto/create-product.dto.ts
pub record CreateProductDto : Type 0 where
  pub name : String
  pub sku : Option String
  pub price : ℕ
  pub is_active : Option Bool

pub record UpdateProductDto : Type 0 where
  pub name : Option String
  pub sku : Option String
  pub price : Option ℤ
  pub is_active : Option Bool

pub record AdjustStockDto : Type 0 where
  pub quantity : ℤ
  pub notes : Option String

pub record AdjustedStock : Type 0 where
  pub id_product : String
  pub previous_stock : ℤ
  pub current_stock : ℤ
  pub stock_history : Option StockHistory

-- `error.code === 'P2002'` becomes a conflict, anything else is thrown again
abbrev pub conflict_on_sku : {A : Type 0} → String → Error → Action A
conflict_on_sku sku (database e) =
    if e.code == "P2002"
    then throw (conflict ("Product with SKU '" ++ (sku ++ "' already exists.")))
    else throw (database e)
conflict_on_sku sku e = throw e

-- `where: { id_product, id_merchant: user.id_merchant }`
abbrev pub is_own : JwtPayload → String → Product → Bool
is_own user id p = p.id_product == id && p.id_merchant == user.id_merchant

-- `dto.price !== undefined && dto.price < 0`
abbrev pub is_negative : Option ℤ → Bool
is_negative none = false
is_negative (some n) = ltb_ℤ n (pos 0)

-- the fields that are given replace those of the row
abbrev pub patch : UpdateProductDto → Option String → Product → Product
patch dto image_url p = record p {
  name = or_else dto.name p.name;
  sku = or_else dto.sku p.sku;
  price = elim dto.price [ none ↦ p.price | some n ↦ pos_part n ];
  is_active = or_else dto.is_active p.is_active;
  image_url = elim image_url [ none ↦ p.image_url | some u ↦ some u ];
}

abbrev pub show_magnitude : ℤ → String
show_magnitude n = if ltb_ℤ n (pos 0) then show_ℕ (neg_part n) else show_ℕ (pos_part n)

abbrev pub show_ℤ : ℤ → String
show_ℤ n = if ltb_ℤ n (pos 0) then "-" ++ show_ℕ (neg_part n) else show_ℕ (pos_part n)

module _ (prisma : Prisma) where
  unfoldable pub insert_product : JwtPayload → String → CreateProductDto → Action Product
  insert_product user sku dto = do
    id_product ← fresh_id prisma
    id_inventory ← fresh_id prisma
    product ← create prisma products (record {
      id_product = id_product;
      id_merchant = user.id_merchant;
      name = dto.name;
      sku = sku;
      price = dto.price;
      image_url = none;
      is_active = or_else dto.is_active true;
    })
    create prisma inventory (record {
      id_inventory = id_inventory;
      id_product = product.id_product;
      id_merchant = user.id_merchant;
      current_stock = pos 0;
      reserved = pos 0;
    })
    pure product

  -- `dto.sku ?? `SKU-${Date.now()}``
  abbrev pub sku_or_generated : Option String → Action String
  sku_or_generated none = now prisma >>= λ t. pure ("SKU-" ++ show_ℕ t)
  sku_or_generated (some sku) = pure sku

  unfoldable pub store_image : Supabase → JwtPayload → Product → Option MulterFile → Action Product
  store_image supabase user product none = pure product
  store_image supabase user product (some file) =
      upload_product_image supabase user.id_merchant product.id_product file >>= λ url.
      update prisma products (λ p. p.id_product == product.id_product)
        (λ p. record p { image_url = some url })

  unfoldable pub create_product :
      Supabase → JwtPayload → CreateProductDto → Option MulterFile → Action Product
  unfolding insert_product store_image
  create_product supabase user dto file = do
    sku ← sku_or_generated dto.sku
    product ← try_catch (transaction (insert_product user sku dto)) pure (conflict_on_sku sku)
    store_image supabase user product file

  -- `product.image_url && product.image_url !== imageUrl`
  abbrev is_replaced : Option String → String → Bool
  is_replaced none url = false
  is_replaced (some old) url = not (is_empty old) && not (old == url)

  abbrev pub drop_image : Supabase → Option String → Action ⊤
  drop_image supabase none = pure tt
  drop_image supabase (some old) = delete_product_image supabase old

  unfoldable pub upload_if_given : Supabase → Product → Option MulterFile → Action (Option String)
  upload_if_given supabase product none = pure none
  upload_if_given supabase product (some file) =
      upload_product_image supabase product.id_merchant product.id_product file >>= λ url.
      when (is_replaced product.image_url url) (drop_image supabase product.image_url)
      >> pure (some url)

  unfoldable pub update_product :
      Supabase → JwtPayload → String → UpdateProductDto → Option MulterFile → Action Product
  unfolding upload_if_given
  update_product supabase user product_id dto file = do
    found ← find_first prisma products (is_own user product_id)
    product ← or_throw found (not_found "Product not found or does not belong to your store.")
    throw_if (is_negative dto.price) (bad_request "Price must not be negative.")
    image_url ← upload_if_given supabase product file
    try_catch (update prisma products (λ p. p.id_product == product_id) (patch dto image_url)) pure
        (conflict_on_sku (or_else dto.sku "undefined"))

  unfoldable pub remove_product : JwtPayload → String → Action Product
  remove_product user product_id = do
    found ← find_first prisma products (is_own user product_id)
    product ← or_throw found (not_found "Product not found or does not belong to your store.")
    update prisma products (λ p. p.id_product == product_id) (λ p. record p { is_active = false })

  -- `include: { inventory: true }`
  abbrev inventory_of : Db → Option Product → Option (Product × Inventory)
  inventory_of db none = none
  inventory_of db (some p) = elim (prisma.find (λ i. i.id_product == p.id_product) db.inventory) [
    | none ↦ none
    | some i ↦ some (p, i)
  ]

  unfoldable pub find_with_inventory : JwtPayload → String → Action (Option (Product × Inventory))
  find_with_inventory user id =
      read prisma λ db. inventory_of db (prisma.find (is_own user id) db.products)

  unfoldable pub adjust_body :
      JwtPayload
      → AdjustStockDto
      → Product × Inventory
      → Action (Option Inventory × Option StockHistory)
  adjust_body user dto (product, inv) = do
    adjust_inventory_and_history prisma (record {
      id_product = product.id_product;
      id_merchant = user.id_merchant;
      id_user = user.sub;
      id_transaction = none;
      quantity_change = dto.quantity;
      movement_type = StockMovementType.adjustment;
      notes = or_else dto.notes "Manual stock adjustment";
    })
    updated ← find_first prisma inventory (λ i. i.id_inventory == inv.id_inventory)
    history ←
        find_first prisma stock_history (λ h.
          h.id_product == product.id_product && same_key h.id_merchant (some user.id_merchant))
    pure (updated, history)

  -- the stock that the caller is told of; `result.updatedInventory!` is there
  abbrev stock_or : ℤ → Option Inventory → ℤ
  stock_or n none = n
  stock_or n (some i) = i.current_stock

  unfoldable pub adjust_stock : JwtPayload → String → AdjustStockDto → Action AdjustedStock
  unfolding find_with_inventory adjust_body
  adjust_stock user product_id dto = do
    found ← find_with_inventory user product_id
    target ← or_throw found (not_found "Product or inventory not found.")
    throw_if (ltb_ℤ (target.1.current_stock +ℤ dto.quantity) (pos 0)) (
        bad_request (
          "Insufficient stock. Current stock is "
          ++ (show_ℤ target.1.current_stock
              ++ (", cannot subtract " ++ show_magnitude dto.quantity))))
    result ← transaction (adjust_body user dto target)
    pure (record {
      id_product = target.0.id_product;
      previous_stock = target.1.current_stock;
      current_stock = stock_or target.1.current_stock result.0;
      stock_history = result.1;
    })
