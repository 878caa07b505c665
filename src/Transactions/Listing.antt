-- ===== src/Transactions/Listing.antt =====
-- src/modules/transactions/transactions.service.ts, `findAll`, and dto/query-transactions.dto.ts. A date
-- is the instant that `new Date` reads from it, and the rows come with their relations.
pub mod Newest
pub mod Pages
pub mod Walks
use k_pos_be.Common.{
  ℕ, suc, String, Bool, true, false, ◌&&◌, ◌==◌, Option, none, some, List, map, leb, or_else,
  is_empty, if◌then◌else◌,
}
use k_pos_be.Schema.{Db, Transaction, TransactionStatus, SyncStatus, same_status, same_sync_status}
use k_pos_be.User.{JwtPayload}
use k_pos_be.Paging.{cut}
use k_pos_be.Paging.Walk.{cursor_of}
use k_pos_be.Prisma.{Prisma}
use k_pos_be.Prisma.Action.{Action, read}
use k_pos_be.Transactions.{FullTransaction}

pub record QueryTransactionsDto : Type 0 where
  pub status : Option TransactionStatus
  pub sync_status : Option SyncStatus
  pub id_device : Option String
  pub start_date : Option ℕ
  pub end_date : Option ℕ
  pub cursor : Option String
  pub limit : Option ℕ

pub record TransactionPage : Type 0 where
  pub items : List FullTransaction
  pub next_cursor : Option String
  pub limit : ℕ

-- a condition that is left out where nothing is given
abbrev pub where_given : {A : Type 0} → Option A → (A → Bool) → Bool
where_given none p = true
where_given (some a) p = p a

-- a text that is empty counts as not given
abbrev pub given : Option String → Option String
given none = none
given (some s) = if is_empty s then none else some s

unfoldable pub matches : JwtPayload → QueryTransactionsDto → Transaction → Bool
matches user query t =
    t.id_merchant == user.id_merchant
    && where_given query.status (same_status t.status)
    && where_given query.sync_status (same_sync_status t.sync_status)
    && where_given (given query.id_device) (λ d. t.id_device == d)
    && where_given query.start_date (λ from. leb from t.created_at)
    && where_given query.end_date (λ to. leb t.created_at to)

abbrev pub page_limit : QueryTransactionsDto → ℕ
page_limit query = or_else query.limit 10

abbrev pub sale_id : FullTransaction → String
sale_id t = t.row.id_transaction

-- `cursor ? { id_transaction: cursor } : undefined`
abbrev pub at_cursor : Option String → Option (FullTransaction → Bool)
at_cursor none = none
at_cursor (some c) = some (λ t. sale_id t == c)

module _ (prisma : Prisma) where
  -- `include: { details: true, payment: true }`
  abbrev pub with_includes : Db → Transaction → FullTransaction
  with_includes db t = record {
    row = t;
    details = prisma.find_many (λ d. d.id_transaction == t.id_transaction) db.details;
    payment = prisma.find (λ p. p.id_transaction == t.id_transaction) db.payments;
  }

  -- every sale that the conditions select, the newest first
  unfoldable pub sale_rows : JwtPayload → QueryTransactionsDto → Db → List FullTransaction
  unfolding matches
  sale_rows user query db =
      map (with_includes db)
        (prisma.order_by "created_at" (prisma.find_many (matches user query) db.transactions))

  unfoldable pub list_sales : JwtPayload → QueryTransactionsDto → Db → TransactionPage
  list_sales user query db =
      let limit = page_limit query in
      let (items, next) =
        cut limit
          (prisma.page (at_cursor (given query.cursor)) 0 (suc limit) (sale_rows user query db)) in
      record { items = items; next_cursor = cursor_of sale_id next; limit = limit }

  unfoldable pub find_all_transactions : JwtPayload → QueryTransactionsDto → Action TransactionPage
  find_all_transactions user query = read prisma (list_sales user query)
