-- ===== src/Api/Sales.antt =====
-- src/modules/transactions/transactions.controller.ts: its calls, the roles that may make them, and the
-- service methods that answer them.
use k_pos_be.Common.{ℕ, String, Option, List}
use k_pos_be.Schema.{Transaction, TransactionCorrection}
use k_pos_be.User.{JwtPayload}
use k_pos_be.Prisma.{Prisma}
use k_pos_be.Prisma.Action.{Action}
use k_pos_be.Transactions.{
  FullTransaction, ResolveConflictDto, CorrectTransactionDto, find_one, void_transaction,
  resolve_conflict,
}
use k_pos_be.Transactions.Correction.{correct_transaction}
use k_pos_be.Transactions.Listing.{QueryTransactionsDto, TransactionPage, find_all_transactions}
use k_pos_be.Transactions.History.{HistoryEntry, get_transaction_history}
use k_pos_be.Api.Guard.{owner_only, owner_or_operator}

pub data SalesCall : Type 0 where
  get_sales : QueryTransactionsDto → SalesCall
  get_sale : String → SalesCall
  get_sale_history : String → SalesCall
  patch_void : String → String → SalesCall
  post_resolve : String → ResolveConflictDto → SalesCall
  post_correct : String → CorrectTransactionDto → SalesCall

unfoldable pub sales_roles : SalesCall → Option (List String)
sales_roles (get_sales query) = owner_or_operator
sales_roles (get_sale id) = owner_or_operator
sales_roles (get_sale_history id) = owner_or_operator
sales_roles (patch_void id reason) = owner_or_operator
sales_roles (post_resolve id dto) = owner_only
sales_roles (post_correct id dto) = owner_only

abbrev pub SalesReply : SalesCall → Type 0
SalesReply (get_sales query) = TransactionPage
SalesReply (get_sale id) = FullTransaction
SalesReply (get_sale_history id) = Option (List HistoryEntry)
SalesReply (patch_void id reason) = Transaction
SalesReply (post_resolve id dto) = Transaction
SalesReply (post_correct id dto) = TransactionCorrection

module _ (prisma : Prisma) (fuel : ℕ) where
  unfoldable pub answer_sales : (call : SalesCall) → JwtPayload → Action (SalesReply call)
  answer_sales (get_sales query) user = find_all_transactions prisma user query
  answer_sales (get_sale id) user = find_one prisma user id
  answer_sales (get_sale_history id) user = get_transaction_history prisma fuel user id
  answer_sales (patch_void id reason) user = void_transaction prisma user id reason
  answer_sales (post_resolve id dto) user = resolve_conflict prisma user id dto
  answer_sales (post_correct id dto) user = correct_transaction prisma user id dto
