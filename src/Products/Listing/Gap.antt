-- ===== src/Products/Listing/Gap.antt =====
-- The pages of the catalogue, followed by their cursors.
use k_pos_be.Common.{
  suc, ◌≡◌, ◌∙◌, ap, Bool, Option, none, some, String, List, ◌∷◌, ◌++◌, length, take, drop,
  drop_until, ◌==◌, subst,
}
use k_pos_be.Schema.{Db}
use k_pos_be.User.{JwtPayload}
use k_pos_be.Paging.{cut, cut-more}
use k_pos_be.Paging.Walk.{AreIdentified, drop_until-mid, mid-named}
use k_pos_be.Prisma.{Prisma}
use k_pos_be.Products.Listing.{
  QueryProductsDto, StockedProduct, page_limit, product_id, next_of, product_rows, list_products,
  in_catalogue,
}

module _ (contains : String → String → Bool) (prisma : Prisma) (user : JwtPayload)
    (query : QueryProductsDto) (db : Db) where
  -- the page at a cursor
  abbrev pub products_at : Option String → List StockedProduct × Option String
  products_at cursor =
      let page = list_products contains prisma user (record query { cursor = cursor }) db in
      (page.items, page.next_cursor)

  -- Where the catalogue is a full page, a product and a rest, the ids differ and none is empty: the
  -- first page names that product as the next cursor, and the page at that cursor holds the first of
  -- the rest, up to the limit, without that product.
  pub products-gap :
      (first : List StockedProduct) (y : StockedProduct) (rest : List StockedProduct)
      → product_rows contains prisma user query db ≡ first ++ (y ∷ rest)
      → length first ≡ page_limit query
      → AreIdentified product_id (first ++ (y ∷ rest))
      → (products_at none ≡ (first, some (product_id y)))
        × ((products_at (some (product_id y))).0
            ≡ (cut (page_limit query) (take (suc (page_limit query)) rest)).0)
  unfolding list_products product_rows in_catalogue
  products-gap first y rest whole full identified =
      let limit = page_limit query in
      let rows = product_rows contains prisma user query db in
      let named = mid-named product_id first y rest identified in
      let begin : prisma.page none 0 (suc limit) rows ≡ take (suc limit) (first ++ (y ∷ rest)) =
        prisma.page-start 0 (suc limit) rows ∙ ap (λ l. take (suc limit) l) whole in
      let cut_first : cut limit (take (suc limit) (first ++ (y ∷ rest))) ≡ (first, some y) =
        subst (λ n. cut n (take (suc n) (first ++ (y ∷ rest))) ≡ (first, some y)) full
          (cut-more first y rest) in
      let on =
        prisma.page-cursor (λ p. product_id p == product_id y) 1 (suc limit) rows
        ∙ ap (λ l. take (suc limit) (drop 1 (drop_until (λ p. product_id p == product_id y) l)))
            whole
        ∙ ap (λ l. take (suc limit) (drop 1 l))
            (drop_until-mid product_id first y rest identified) in
      (
        ap (λ r. (r.0, next_of r.1)) (ap (cut limit) begin ∙ cut_first),
        rw named (ap (λ l. (cut limit l).0) on),
      )
