-- ===== src/Api/Reads.antt =====
-- The calls that only read.
use k_pos_be.Common.{ℕ, zero, suc, String, Bool, Option, none, some, List}
use k_pos_be.Schema.{Db, PaymentStatus, TransactionCorrection}
use k_pos_be.User.{JwtPayload}
use k_pos_be.Prisma.{Prisma}
use k_pos_be.Prisma.Action.{Action}
use k_pos_be.Prisma.Keeps.{Keeps, Keeps-bind, Keeps-pure, keeps_rules}
use k_pos_be.Prisma.Kept.{IsKept, IsKept-preorder}
use k_pos_be.Transactions.{FullTransaction, find_one, find_full, check_own}
use k_pos_be.Transactions.Listing.{QueryTransactionsDto, find_all_transactions}
use k_pos_be.Transactions.History.{
  HistoryEntry, find_root, climb_on, find_with_id, follow, follow_from, follow_root, on_from,
  next_id, get_transaction_history,
}
use k_pos_be.Products.Listing.{QueryProductsDto, find_all_products}
use k_pos_be.Reconciliations.Lists.{find_all_cases, get_payment_reconciliations}
use k_pos_be.Payments.{find_all_payments, find_one_payment}
use k_pos_be.Sync.FailedQueues.{get_failed_sync_queues}
use k_pos_be.Sync.Service.{get_status_by_offline_uuids}
use k_pos_be.Devices.{find_devices}
use k_pos_be.Users.Listing.{QueryUsersDto, find_all_users}
use k_pos_be.Merchants.{get_my_merchant, get_profile}
use k_pos_be.Health.{query_one, check_health}
use k_pos_be.Api.Batches.{get_sync_status}

-- the database is as it was, however the action ends
abbrev pub Reads : {A : Type 0} → Action A → Type 0
Reads m = Keeps (IsKept (λ (db : Db). db)) m

ruleset reading = (IsKept-preorder, keeps_rules)

module _ (prisma : Prisma) where
  pub find_all_transactions-Reads :
      (user : JwtPayload) (query : QueryTransactionsDto)
      → Reads (find_all_transactions prisma user query)
  unfolding find_all_transactions
  find_all_transactions-Reads user query = search reading

  check_own-Reads :
      (user : JwtPayload) (id : String) (o : Option FullTransaction)
      → Reads (check_own prisma user id o)
  unfolding check_own
  check_own-Reads user id none = search reading
  check_own-Reads user id (some t) = search reading

  pub find_one-Reads : (user : JwtPayload) (id : String) → Reads (find_one prisma user id)
  unfolding find_one find_full
  find_one-Reads user id = search (reading, check_own-Reads) depth 12

  find_root-Reads : (n : ℕ) (id : String) → Reads (find_root prisma n id)
  unfolding find_root
  find_root-Reads zero id = search reading
  find_root-Reads (suc n) id =
      Keeps-bind (IsKept-preorder _) _ _ (search reading) (climb (find_root-Reads n))
    where
      climb :
          ((j : String) → Reads (find_root prisma n j))
          → (o : Option TransactionCorrection) → Reads (climb_on prisma (find_root prisma n) id o)
      climb up none = Keeps-pure (IsKept-preorder _) (some id)
      climb up (some c) = up c.id_old_transaction

  on_from-Reads :
      (go : String → Action (Option (List HistoryEntry))) (o : Option String)
      → ((j : String) → Reads (go j))
      → Reads (on_from prisma go o)
  on_from-Reads go none k = search reading
  on_from-Reads go (some j) k = k j

  follow-Reads : (n : ℕ) (id : String) → Reads (follow prisma n id)
  unfolding follow find_with_id
  follow-Reads zero id = search reading
  follow-Reads (suc n) id =
      Keeps-bind (IsKept-preorder _) _ _ (search reading) (on (follow-Reads n))
    where
      on :
          ((j : String) → Reads (follow prisma n j))
          → (o : Option FullTransaction) → Reads (follow_from prisma (follow prisma n) id o)
      on k none = search reading
      on k (some t) = Keeps-bind (IsKept-preorder _) _ _ (search reading) λ next.
          Keeps-bind (IsKept-preorder _) _ _ (on_from-Reads (follow prisma n) (next_id next) k)
            λ rest. search reading

  follow_root-Reads : (n : ℕ) (o : Option String) → Reads (follow_root prisma n o)
  follow_root-Reads n none = search reading
  follow_root-Reads n (some root) = on_from-Reads (follow prisma n) _ (follow-Reads n)

  pub history-Reads :
      (n : ℕ) (user : JwtPayload) (id : String) → Reads (get_transaction_history prisma n user id)
  unfolding get_transaction_history
  history-Reads n user id =
      search (reading, find_one-Reads, find_root-Reads, follow_root-Reads) depth 12

  pub find_all_products-Reads :
      (contains : String → String → Bool) (user : JwtPayload) (query : QueryProductsDto)
      → Reads (find_all_products contains prisma user query)
  unfolding find_all_products
  find_all_products-Reads contains user query = search reading

  pub get_sync_status-Reads : (uuids : String) → Reads (get_sync_status prisma uuids)
  unfolding get_sync_status get_status_by_offline_uuids
  get_sync_status-Reads uuids = search reading depth 12

  pub failed-Reads : (user : JwtPayload) → Reads (get_failed_sync_queues prisma user)
  unfolding get_failed_sync_queues
  failed-Reads user = search reading

  pub cases-Reads : (user : JwtPayload) → Reads (find_all_cases prisma user)
  unfolding find_all_cases
  cases-Reads user = search reading

  pub payment_cases-Reads :
      (user : JwtPayload) (id : String) → Reads (get_payment_reconciliations prisma user id)
  unfolding get_payment_reconciliations
  payment_cases-Reads user id = search reading depth 12

  pub payments-Reads :
      (user : JwtPayload) (status : Option PaymentStatus)
      → Reads (find_all_payments prisma user status)
  unfolding find_all_payments
  payments-Reads user status = search reading

  pub payment-Reads : (user : JwtPayload) (id : String) → Reads (find_one_payment prisma user id)
  unfolding find_one_payment
  payment-Reads user id = search reading depth 12

  pub devices-Reads : (id : String) → Reads (find_devices prisma id)
  unfolding find_devices
  devices-Reads id = search reading

  pub users-Reads : (id : String) (query : QueryUsersDto) → Reads (find_all_users prisma id query)
  unfolding find_all_users
  users-Reads id query = search reading

  pub merchant-Reads : (id : String) → Reads (get_my_merchant prisma id)
  unfolding get_my_merchant
  merchant-Reads id = search reading

  pub profile-Reads : (id : String) → Reads (get_profile prisma id)
  unfolding get_profile
  profile-Reads id = search reading

  pub health-Reads : Reads (check_health prisma)
  unfolding check_health query_one
  health-Reads = search reading depth 12
