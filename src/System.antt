-- ===== src/System.antt =====
-- The backend as a whole: the requests and messages that change its state, one after another, each
-- handled to its end whatever it throws.
pub mod Asides
pub mod Revisions
pub mod Allowed
pub mod Worker
pub mod Inert
pub mod Sales
pub mod Catalogue
pub mod Office
pub mod Served
pub mod Books
pub mod Lasting
use k_pos_be.Common.{String, Bool, List, Option}
use k_pos_be.Schema.{SyncTransactionDto}
use k_pos_be.User.{JwtPayload}
use k_pos_be.Crypto.{Crypto}
use k_pos_be.Storage.{Supabase, MulterFile}
use k_pos_be.Prisma.{Prisma}
use k_pos_be.Prisma.Action.{Action, ⊤, pure, ◌>>=◌, ◌>>◌, try_catch, for_each}
use k_pos_be.Sync.Producer.{Broker}
use k_pos_be.Sync.Service.{sync_transactions}
use k_pos_be.Sync.Consumer.{DlqPayload, handle_sync_transaction_batch, consume_dlq}
use k_pos_be.Transactions.{
  ResolveConflictDto, CorrectTransactionDto, void_transaction, resolve_conflict,
}
use k_pos_be.Transactions.Correction.{correct_transaction}
use k_pos_be.Products.{
  CreateProductDto, UpdateProductDto, AdjustStockDto, create_product, update_product,
  remove_product, adjust_stock,
}
use k_pos_be.Reconciliations.{
  CreateReconciliationDto, ResolveReconciliationDto, create_reconciliation, reconcile_payment,
  resolve_reconciliation,
}
use k_pos_be.Devices.{create_device, pair_device, remove_device}
use k_pos_be.Auth.{RegisterDto, register, login, refresh, logout}
use k_pos_be.Users.{CreateUserDto, create_user, update_status}

-- the services outside the repository
pub record Outside : Type 1 where
  pub prisma : Prisma
  pub crypto : Crypto
  pub broker : Broker
  pub supabase : Supabase

-- The ends of the API that change the state, and the deliveries of the queues.
pub data Request : Type 0 where
  post_sync : String → List SyncTransactionDto → Request
  deliver_batch : List SyncTransactionDto → Request
  deliver_dead_letter : DlqPayload → Request
  void_sale : JwtPayload → String → String → Request
  resolve_sale : JwtPayload → String → ResolveConflictDto → Request
  correct_sale : JwtPayload → String → CorrectTransactionDto → Request
  post_product : JwtPayload → CreateProductDto → Option MulterFile → Request
  patch_product : JwtPayload → String → UpdateProductDto → Option MulterFile → Request
  delete_product : JwtPayload → String → Request
  adjust_product : JwtPayload → String → AdjustStockDto → Request
  open_case : JwtPayload → CreateReconciliationDto → Request
  dispute_payment : JwtPayload → String → CreateReconciliationDto → Request
  resolve_case : String → JwtPayload → ResolveReconciliationDto → Request
  post_device : String → String → String → Request
  pair_register : String → String → Request
  delete_device : String → String → Request
  sign_up : RegisterDto → Request
  sign_in : String → String → Request
  refresh_tokens_of : String → Request
  sign_out : String → Request
  post_user : String → CreateUserDto → Request
  patch_user : String → String → Bool → Request

module _ (outside : Outside) where
  open outside use {prisma, crypto, broker, supabase}

  unfoldable pub run : Request → Action ⊤
  run (post_sync id batch) = sync_transactions crypto prisma broker id batch >> pure tt
  run (deliver_batch batch) = handle_sync_transaction_batch prisma batch >> pure tt
  run (deliver_dead_letter payload) = consume_dlq prisma broker payload >> pure tt
  run (void_sale user id reason) = void_transaction prisma user id reason >> pure tt
  run (resolve_sale user id dto) = resolve_conflict prisma user id dto >> pure tt
  run (correct_sale user id dto) = correct_transaction prisma user id dto >> pure tt
  run (post_product user dto file) = create_product prisma supabase user dto file >> pure tt
  run (patch_product user id dto file) = update_product prisma supabase user id dto file >> pure tt
  run (delete_product user id) = remove_product prisma user id >> pure tt
  run (adjust_product user id dto) = adjust_stock prisma user id dto >> pure tt
  run (open_case user dto) = create_reconciliation prisma user dto >> pure tt
  run (dispute_payment user id dto) = reconcile_payment prisma user id dto >> pure tt
  run (resolve_case id user dto) = resolve_reconciliation prisma id user dto >> pure tt
  run (post_device merchant user name) = create_device prisma crypto merchant user name >> pure tt
  run (pair_register code hardware) = pair_device prisma crypto code hardware >> pure tt
  run (delete_device id merchant) = remove_device prisma id merchant >> pure tt
  run (sign_up dto) = register prisma crypto dto >> pure tt
  run (sign_in email password) = login prisma crypto email password >> pure tt
  run (refresh_tokens_of token) = refresh prisma crypto token >> pure tt
  run (sign_out token) = logout prisma token
  run (post_user merchant dto) = create_user prisma crypto merchant dto >> pure tt
  run (patch_user id merchant active) = update_status prisma id merchant active >> pure tt

  -- an exception becomes a response, and the next request is handled
  unfoldable pub serve : Request → Action ⊤
  serve request = try_catch (run request) pure (λ _. pure tt)

  unfoldable pub serve_all : List Request → Action ⊤
  serve_all requests = for_each requests serve
