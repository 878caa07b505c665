-- ===== src/Transactions/Listing/Walks.antt =====
-- The list of the sales, read to its end by the cursors. Each page is a query of its own, which may put
-- rows that are created at one instant in an order of its own.
use mathlib.Core.List.Perm
use k_pos_be.Common.{
  suc, ◌≤◌, ◌≡◌, refl, ◌∙◌, sym, ap, false, String, ◌==◌, is_empty, Option, none, some, List, [],
  ◌∷◌, map, length, Perm, select, drop_until,
}
use k_pos_be.Schema.{Db, Transaction}
use k_pos_be.User.{JwtPayload}
use k_pos_be.Paging.Walk.{AreIdentified, page_of, walk, walk-all}
use k_pos_be.Paging.Maps.{page_of-map, drop_until-map}
use k_pos_be.Prisma.{Prisma}
use k_pos_be.Transactions.{FullTransaction}
use k_pos_be.Transactions.Listing.{
  QueryTransactionsDto, page_limit, sale_rows, with_includes, matches,
}
use k_pos_be.Transactions.Listing.Newest.{IsNewestFirst, newest_unique}
use k_pos_be.Transactions.Listing.Pages.{sales_at, start_page, later_page}

abbrev pub id_of : Transaction → String
id_of t = t.id_transaction

abbrev pub row_of : FullTransaction → Transaction
row_of t = t.row

module _ (client_at : Option String → Prisma) (user : JwtPayload) (query : QueryTransactionsDto)
    (db : Db) where
  -- the selected sales, as the query for a cursor orders them
  abbrev pub rows_at : Option String → List Transaction
  rows_at cursor =
      (client_at cursor).order_by "created_at"
        ((client_at cursor).find_many (matches user query) db.transactions)

  -- the sales of the page at a cursor, without their lines and payments, and the next cursor
  abbrev pub pages_at : Option String → List Transaction × Option String
  pages_at cursor =
      let page = sales_at (client_at cursor) user query db cursor in (map row_of page.0, page.1)

  rows-Perm :
      (cursor : Option String) → Perm (rows_at cursor) (select (matches user query) db.transactions)
  rows-Perm cursor =
      Perm.trans ((client_at cursor).order_by-perm "created_at" _)
        ((client_at cursor).find_many-perm (matches user query) db.transactions)

  rows-same :
      ((cursor : Option String) → IsNewestFirst (rows_at cursor))
      → (cursor : Option String) → rows_at cursor ≡ rows_at none
  rows-same newest cursor =
      newest_unique _ _ (newest cursor) (newest none)
        (Perm.trans (rows-Perm cursor) (Perm.symm (rows-Perm none)))

  includes-row :
      (prisma : Prisma) (ts : List Transaction) → map row_of (map (with_includes prisma db) ts) ≡ ts
  includes-row prisma [] = refl
  includes-row prisma (t ∷ ts) = ap (λ l. t ∷ l) (includes-row prisma ts)

  sales-row :
      (cursor : Option String)
      → map row_of (sale_rows (client_at cursor) user query db) ≡ rows_at cursor
  unfolding sale_rows
  sales-row cursor = includes-row (client_at cursor) (rows_at cursor)

  start-page : pages_at none ≡ page_of id_of (page_limit query) (rows_at none)
  start-page =
      ap (λ r. (map row_of r.0, r.1)) (start_page (client_at none) user query db)
      ∙ (sym (page_of-map row_of id_of (page_limit query) _)
          ∙ ap (page_of id_of (page_limit query)) (sales-row none))

  later-page :
      (c : String)
      → is_empty c ≡ false
      → pages_at (some c)
        ≡ page_of id_of (page_limit query) (drop_until (λ t. id_of t == c) (rows_at (some c)))
  later-page c named =
      ap (λ r. (map row_of r.0, r.1)) (later_page (client_at (some c)) user query db c named)
      ∙ (sym (page_of-map row_of id_of (page_limit query) _)
          ∙ ap (page_of id_of (page_limit query)) (
              sym (drop_until-map row_of (λ t. id_of t == c) _)
              ∙ ap (drop_until (λ t. id_of t == c)) (sales-row (some c))))

  -- Where every query of a page puts the selected sales newest first, no two of them are created at one
  -- instant, their ids differ and none is empty, and the limit is at least one: the sales on the pages
  -- that `findAll` gives from cursor to cursor, their lines and payments aside, are the selected ones
  -- in that order, every one of them once, as long as the database does not change.
  pub walk-sales :
      1 ≤ page_limit query
      → ((cursor : Option String) → IsNewestFirst (rows_at cursor))
      → AreIdentified id_of (rows_at none)
      → (walk id_of pages_at (suc (length (rows_at none))) none ≡ rows_at none)
        × Perm (rows_at none) (select (matches user query) db.transactions)
  walk-sales positive newest identified = (
    walk-all id_of pages_at (rows_at none) (page_limit query) start-page
        (λ c named.
          later-page c named
          ∙ ap (λ l. page_of id_of (page_limit query) (drop_until (λ t. id_of t == c) l))
              (rows-same newest (some c)))
        positive identified,
    rows-Perm none,
  )
