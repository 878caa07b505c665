-- ===== src/Transactions/Listing/Pages.antt =====
-- The pages of the list of sales.
use k_pos_be.Common.{
  Bool, suc, ◌≡◌, ap, Option, none, some, String, List, is_empty, false, ◌==◌, drop_until,
}
use k_pos_be.Schema.{Db}
use k_pos_be.User.{JwtPayload}
use k_pos_be.Paging.{cut}
use k_pos_be.Paging.Walk.{page_of, cursor_of}
use k_pos_be.Prisma.{Prisma}
use k_pos_be.Transactions.{FullTransaction}
use k_pos_be.Transactions.Listing.{
  QueryTransactionsDto, page_limit, sale_id, sale_rows, list_sales, matches,
}

module _ (prisma : Prisma) (user : JwtPayload) (query : QueryTransactionsDto) (db : Db) where
  -- the page at a cursor
  abbrev pub sales_at : Option String → List FullTransaction × Option String
  sales_at cursor =
      let page = list_sales prisma user (record query { cursor = cursor }) db in
      (page.items, page.next_cursor)

  pub start_page :
      sales_at none ≡ page_of sale_id (page_limit query) (sale_rows prisma user query db)
  unfolding list_sales page_of sale_rows matches
  start_page =
      ap (λ l. ((cut (page_limit query) l).0, cursor_of sale_id (cut (page_limit query) l).1))
        (prisma.page-start 0 (suc (page_limit query)) (sale_rows prisma user query db))

  pub later_page :
      (c : String)
      → is_empty c ≡ false
      → sales_at (some c)
        ≡ page_of sale_id
            (page_limit query)
            (drop_until (λ t. sale_id t == c) (sale_rows prisma user query db))
  unfolding list_sales page_of sale_rows matches
  later_page c named = rw named (
      ap (λ l. ((cut (page_limit query) l).0, cursor_of sale_id (cut (page_limit query) l).1))
        (prisma.page-cursor (λ t. sale_id t == c) 0 (suc (page_limit query))
          (sale_rows prisma user query db)))
