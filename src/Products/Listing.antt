-- ===== src/Products/Listing.antt =====
-- src/modules/products/products.service.ts, `findAll`, and dto/query-products.dto.ts. What the database
-- takes for contained, whatever the case, is a parameter.
pub mod Gap
use k_pos_be.Common.{
  ℕ, suc, String, Bool, true, false, ◌&&◌, ◌||◌, ◌==◌, Option, none, some, List, map, or_else,
  is_empty, trim, if◌then◌else◌,
}
use k_pos_be.Schema.{Db, Product, Inventory}
use k_pos_be.User.{JwtPayload}
use k_pos_be.Paging.{cut}
use k_pos_be.Prisma.{Prisma}
use k_pos_be.Prisma.Action.{Action, read}

pub record QueryProductsDto : Type 0 where
  pub search_text : Option String
  pub cursor : Option String
  pub limit : Option ℕ
  pub is_active : Option Bool

-- `include: { inventory: true }`
pub record StockedProduct : Type 0 where
  pub row : Product
  pub stock_row : Option Inventory

pub record ProductPage : Type 0 where
  pub items : List StockedProduct
  pub next_cursor : Option String
  pub limit : ℕ

abbrev pub product_id : StockedProduct → String
product_id p = p.row.id_product

abbrev pub page_limit : QueryProductsDto → ℕ
page_limit query = or_else query.limit 50

-- `is_active !== undefined ? { is_active } : {}`
abbrev pub fits_active : Option Bool → Product → Bool
fits_active none p = true
fits_active (some true) p = p.is_active
fits_active (some false) p = if p.is_active then false else true

-- `nextItem!.id_product`
abbrev pub next_of : Option StockedProduct → Option String
next_of none = none
next_of (some p) = some (product_id p)

module _ (contains : String → String → Bool) where
  -- `search?.trim() ? { OR: [...] } : {}`
  abbrev pub fits_search : Option String → Product → Bool
  fits_search none p = true
  fits_search (some text) p =
      if is_empty (trim text)
      then true
      else contains p.name (trim text) || contains p.sku (trim text)

  unfoldable pub in_catalogue : JwtPayload → QueryProductsDto → Product → Bool
  in_catalogue user query p =
      p.id_merchant == user.id_merchant
      && fits_active query.is_active p
      && fits_search query.search_text p

  module _ (prisma : Prisma) where
    unfoldable pub product_rows : JwtPayload → QueryProductsDto → Db → List StockedProduct
    unfolding in_catalogue
    product_rows user query db =
        map
          (λ p. record {
            row = p;
            stock_row = prisma.find (λ i. i.id_product == p.id_product) db.inventory;
          })
          (prisma.order_by "created_at" (prisma.find_many (in_catalogue user query) db.products))

    -- `cursor ? { cursor: { id_product: cursor }, skip: 1 } : {}`
    abbrev pub fetch_products : Option String → ℕ → List StockedProduct → List StockedProduct
    fetch_products none limit rows = prisma.page none 0 (suc limit) rows
    fetch_products (some c) limit rows =
        if is_empty c
        then prisma.page none 0 (suc limit) rows
        else prisma.page (some (λ p. product_id p == c)) 1 (suc limit) rows

    unfoldable pub list_products : JwtPayload → QueryProductsDto → Db → ProductPage
    list_products user query db =
        let limit = page_limit query in
        let (items, next) =
          cut limit (fetch_products query.cursor limit (product_rows user query db)) in
        record { items = items; next_cursor = next_of next; limit = limit }

    unfoldable pub find_all_products : JwtPayload → QueryProductsDto → Action ProductPage
    find_all_products user query = read prisma (list_products user query)
