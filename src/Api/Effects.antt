-- ===== src/Api/Effects.antt =====
-- The methods of the services against the requests of System that the calls amount to.
use k_pos_be.Common.{ℕ, ◌≡◌, refl, ap, String, Bool, Bool-cases, inl, inr, Option, none, some}
use k_pos_be.Schema.{Db}
use k_pos_be.User.{JwtPayload}
use k_pos_be.Storage.{MulterFile}
use k_pos_be.Prisma.Action.{
  World, Action, Result, ok, err, pure, throw, throw_if, branch, ◌>>=◌, ◌>>◌, continue, try_catch,
  recover,
}
use k_pos_be.System.{
  Outside, Request, void_sale, resolve_sale, correct_sale, post_sync, open_case, dispute_payment,
  resolve_case, post_device, delete_device, run, serve, adjust_product,
}
use k_pos_be.Api.{
  GuardedCall, sales, catalogue, batches, cases, payments, devices, staff, profile, my_merchant,
  answer,
}
use k_pos_be.Api.Sales.{
  SalesCall, get_sales, get_sale, get_sale_history, patch_void, post_resolve, post_correct,
  answer_sales,
}
use k_pos_be.Api.Catalogue.{
  CatalogueCall, get_products, post_stock, is_refused, filter_file, answer_catalogue,
}
use k_pos_be.Api.Catalogue
use k_pos_be.Api.Batches.{SyncCall, get_status, get_failed_queues, answer_sync}
use k_pos_be.Api.Batches
use k_pos_be.Api.Disputes.{
  CaseCall, post_case, get_cases, post_resolution, get_payment_cases, PaymentCall, get_payments,
  get_payment, post_reconcile, answer_case, answer_payment,
}
use k_pos_be.Api.Office.{DeviceCall, get_devices, answer_device, StaffCall, get_users, answer_staff}
use k_pos_be.Api.Office
use k_pos_be.Api.Reads.{
  find_all_transactions-Reads, find_one-Reads, history-Reads, find_all_products-Reads,
  get_sync_status-Reads, failed-Reads, cases-Reads, payment_cases-Reads, payments-Reads,
  payment-Reads, devices-Reads, users-Reads, merchant-Reads, profile-Reads,
}

-- the request that a call makes, where it changes the state
unfoldable pub request_of : GuardedCall → JwtPayload → Option Request
request_of (sales (get_sales query)) user = none
request_of (sales (get_sale id)) user = none
request_of (sales (get_sale_history id)) user = none
request_of (sales (patch_void id reason)) user = some (void_sale user id reason)
request_of (sales (post_resolve id dto)) user = some (resolve_sale user id dto)
request_of (sales (post_correct id dto)) user = some (correct_sale user id dto)
request_of (catalogue (Catalogue.post_product dto file)) user =
    some (Request.post_product user dto file)
request_of (catalogue (get_products query)) user = none
request_of (catalogue (Catalogue.patch_product id dto file)) user =
    some (Request.patch_product user id dto file)
request_of (catalogue (Catalogue.delete_product id)) user = some (Request.delete_product user id)
request_of (catalogue (post_stock id dto)) user = some (adjust_product user id dto)
request_of (batches (Batches.post_sync id batch)) user = some (post_sync id batch)
request_of (batches (get_status uuids)) user = none
request_of (batches get_failed_queues) user = none
request_of (cases (post_case dto)) user = some (open_case user dto)
request_of (cases get_cases) user = none
request_of (cases (post_resolution id dto)) user = some (resolve_case id user dto)
request_of (cases (get_payment_cases id)) user = none
request_of (payments (get_payments status)) user = none
request_of (payments (get_payment id)) user = none
request_of (payments (post_reconcile id dto)) user = some (dispute_payment user id dto)
request_of (devices (Office.post_device name)) user =
    some (post_device user.id_merchant user.sub name)
request_of (devices get_devices) user = none
request_of (devices (Office.delete_device id)) user = some (delete_device id user.id_merchant)
request_of (staff (Office.post_user dto)) user = some (Request.post_user user.id_merchant dto)
request_of (staff (get_users query)) user = none
request_of (staff (Office.patch_user id active)) user =
    some (Request.patch_user id user.id_merchant active)
request_of profile user = none
request_of my_merchant user = none

-- handling a request leaves the world that its method leaves
pub settled :
    {A : Type 0} (m : Action A) (w : World)
    → (try_catch (m >> pure tt) pure (λ _. pure tt) w).1 ≡ (m w).1
unfolding try_catch ◌>>=◌ pure
settled {A} m w = go (m w)
  where
    go :
        (x : Result A × World)
        → (recover
            (continue x.0 (λ _. pure tt) x.1).0
            pure
            (λ _. pure tt)
            (continue x.0 (λ _. pure tt) x.1).1).1
          ≡ x.1
    go (ok a, v) = refl
    go (err e, v) = refl

module _ (outside : Outside) (contains : String → String → Bool) (fuel : ℕ) where
  open outside use {prisma, crypto, broker, supabase}

  -- What a method leaves of the database, against the request that it answers to.
  pub data HasEffect (o : Option Request) (v : World) (db' : Db) : Type 0 where
    untouched : db' ≡ v.db → HasEffect o v db'
    carried :
        (request : Request)
        → o ≡ some request
        → (serve outside request v).1.db ≡ db'
        → HasEffect o v db'

  filtered :
      {A : Type 0} (file : Option MulterFile) (m : Action A) (o : Option Request) (v : World)
      → HasEffect o v (m v).1.db
      → HasEffect o v ((filter_file file >> m) v).1.db
  unfolding filter_file throw_if branch throw pure ◌>>=◌
  filtered file m o v e = elim (Bool-cases (is_refused file)) [
    | inl h ↦ rw h (untouched refl)
    | inr h ↦ rw h e
  ]

  sales-HasEffect :
      (call : SalesCall) (user : JwtPayload) (v : World)
      → HasEffect (request_of (sales call) user) v (answer_sales prisma fuel call user v).1.db
  unfolding request_of answer_sales serve run
  sales-HasEffect (get_sales query) user v =
      untouched ((find_all_transactions-Reads prisma user query).at v)
  sales-HasEffect (get_sale id) user v = untouched ((find_one-Reads prisma user id).at v)
  sales-HasEffect (get_sale_history id) user v =
      untouched ((history-Reads prisma fuel user id).at v)
  sales-HasEffect (patch_void id reason) user v = carried _ refl (ap (λ x. x.db) (settled _ v))
  sales-HasEffect (post_resolve id dto) user v = carried _ refl (ap (λ x. x.db) (settled _ v))
  sales-HasEffect (post_correct id dto) user v = carried _ refl (ap (λ x. x.db) (settled _ v))

  catalogue-HasEffect :
      (call : CatalogueCall) (user : JwtPayload) (v : World)
      → HasEffect
          (request_of (catalogue call) user)
          v
          (answer_catalogue contains prisma supabase call user v).1.db
  unfolding request_of answer_catalogue serve run
  catalogue-HasEffect (Catalogue.post_product dto file) user v =
      filtered file _ _ v (carried _ refl (ap (λ x. x.db) (settled _ v)))
  catalogue-HasEffect (get_products query) user v =
      untouched ((find_all_products-Reads prisma contains user query).at v)
  catalogue-HasEffect (Catalogue.patch_product id dto file) user v =
      filtered file _ _ v (carried _ refl (ap (λ x. x.db) (settled _ v)))
  catalogue-HasEffect (Catalogue.delete_product id) user v =
      carried _ refl (ap (λ x. x.db) (settled _ v))
  catalogue-HasEffect (post_stock id dto) user v = carried _ refl (ap (λ x. x.db) (settled _ v))

  batches-HasEffect :
      (call : SyncCall) (user : JwtPayload) (v : World)
      → HasEffect
          (request_of (batches call) user)
          v
          (answer_sync prisma crypto broker call user v).1.db
  unfolding request_of answer_sync serve run
  batches-HasEffect (Batches.post_sync id batch) user v =
      carried _ refl (ap (λ x. x.db) (settled _ v))
  batches-HasEffect (get_status uuids) user v =
      untouched ((get_sync_status-Reads prisma uuids).at v)
  batches-HasEffect get_failed_queues user v = untouched ((failed-Reads prisma user).at v)

  cases-HasEffect :
      (call : CaseCall) (user : JwtPayload) (v : World)
      → HasEffect (request_of (cases call) user) v (answer_case prisma call user v).1.db
  unfolding request_of answer_case serve run
  cases-HasEffect (post_case dto) user v = carried _ refl (ap (λ x. x.db) (settled _ v))
  cases-HasEffect get_cases user v = untouched ((cases-Reads prisma user).at v)
  cases-HasEffect (post_resolution id dto) user v = carried _ refl (ap (λ x. x.db) (settled _ v))
  cases-HasEffect (get_payment_cases id) user v =
      untouched ((payment_cases-Reads prisma user id).at v)

  payments-HasEffect :
      (call : PaymentCall) (user : JwtPayload) (v : World)
      → HasEffect (request_of (payments call) user) v (answer_payment prisma call user v).1.db
  unfolding request_of answer_payment serve run
  payments-HasEffect (get_payments status) user v =
      untouched ((payments-Reads prisma user status).at v)
  payments-HasEffect (get_payment id) user v = untouched ((payment-Reads prisma user id).at v)
  payments-HasEffect (post_reconcile id dto) user v = carried _ refl (ap (λ x. x.db) (settled _ v))

  devices-HasEffect :
      (call : DeviceCall) (user : JwtPayload) (v : World)
      → HasEffect (request_of (devices call) user) v (answer_device prisma crypto call user v).1.db
  unfolding request_of answer_device serve run
  devices-HasEffect (Office.post_device name) user v = carried _ refl (ap (λ x. x.db) (settled _ v))
  devices-HasEffect get_devices user v = untouched ((devices-Reads prisma user.id_merchant).at v)
  devices-HasEffect (Office.delete_device id) user v = carried _ refl (ap (λ x. x.db) (settled _ v))

  staff-HasEffect :
      (call : StaffCall) (user : JwtPayload) (v : World)
      → HasEffect (request_of (staff call) user) v (answer_staff prisma crypto call user v).1.db
  unfolding request_of answer_staff serve run
  staff-HasEffect (Office.post_user dto) user v = carried _ refl (ap (λ x. x.db) (settled _ v))
  staff-HasEffect (get_users query) user v =
      untouched ((users-Reads prisma user.id_merchant query).at v)
  staff-HasEffect (Office.patch_user id active) user v =
      carried _ refl (ap (λ x. x.db) (settled _ v))

  -- what the method of any call leaves
  pub answer-HasEffect :
      (call : GuardedCall) (user : JwtPayload) (v : World)
      → HasEffect (request_of call user) v (answer outside contains fuel call user v).1.db
  unfolding request_of answer
  answer-HasEffect (sales call) user v = sales-HasEffect call user v
  answer-HasEffect (catalogue call) user v = catalogue-HasEffect call user v
  answer-HasEffect (batches call) user v = batches-HasEffect call user v
  answer-HasEffect (cases call) user v = cases-HasEffect call user v
  answer-HasEffect (payments call) user v = payments-HasEffect call user v
  answer-HasEffect (devices call) user v = devices-HasEffect call user v
  answer-HasEffect (staff call) user v = staff-HasEffect call user v
  answer-HasEffect profile user v = untouched ((profile-Reads prisma user.sub).at v)
  answer-HasEffect my_merchant user v = untouched ((merchant-Reads prisma user.id_merchant).at v)
