-- ===== src/System/Served.antt =====
-- Every request, and every sequence of requests, under a relation that allows the writes.
use k_pos_be.Common.{List, String}
use k_pos_be.Schema.{Db, SyncTransactionDto}
use k_pos_be.Prisma.{Prisma}
use k_pos_be.Prisma.Keeps.{Keeps, Keeps-bind, Keeps-pure, Keeps-for_each, keeps_rules}
use k_pos_be.Crypto.{Crypto}
use k_pos_be.Sync.Producer.{Broker}
use k_pos_be.Sync.Service.{validate_batch, sync_transactions}
use k_pos_be.Sync.Consumer.{
  DlqPayload, not_array, array, handle_dead_letter, handle_dlq_message, consume_dlq,
}
use k_pos_be.System.{
  Outside, Request, post_sync, deliver_batch, deliver_dead_letter, void_sale, resolve_sale,
  correct_sale, post_product, patch_product, delete_product, adjust_product, open_case,
  dispute_payment, resolve_case, post_device, pair_register, delete_device, sign_up, sign_in,
  refresh_tokens_of, sign_out, post_user, patch_user, run, serve, serve_all,
}
use k_pos_be.System.Allowed.{Allows}
use k_pos_be.System.Inert.{Keeps-publish_batch, Keeps-publish_to_retry}
use k_pos_be.System.Worker.{terminal-Allowed, batch-Allowed}
use k_pos_be.System.Sales.{
  void-Allowed, resolve-Allowed, correct-Allowed, create_reconciliation-Allowed, reconcile-Allowed,
  resolve_case-Allowed,
}
use k_pos_be.System.Catalogue.{
  catalogue_of, create_product-Allowed, update_product-Allowed, remove_product-Allowed,
  adjust_stock-Allowed,
}
use k_pos_be.System.Office.{
  create_device-Allowed, pair_device-Allowed, remove_device-Allowed, register-Allowed,
  login-Allowed, refresh-Allowed, logout-Allowed, create_user-Allowed, update_status-Allowed,
}

module _ {prisma : Prisma} {R : Db → Db → Type 0} (allows : Allows prisma R) where
  open allows use {pre}

  sync-Allowed :
      (crypto : Crypto) (broker : Broker) (id : String) (batch : List SyncTransactionDto)
      → Keeps R (sync_transactions crypto prisma broker id batch)
  unfolding sync_transactions validate_batch
  sync-Allowed crypto broker id batch = search (pre, keeps_rules, Keeps-publish_batch) depth 12

  letter-Allowed :
      (broker : Broker) (dto : SyncTransactionDto) → Keeps R (handle_dead_letter prisma broker dto)
  unfolding handle_dead_letter
  letter-Allowed broker dto =
      search (pre, keeps_rules, Keeps-publish_to_retry, terminal-Allowed, allows)

  message-Allowed :
      (broker : Broker) (payload : DlqPayload) → Keeps R (handle_dlq_message prisma broker payload)
  unfolding handle_dlq_message
  message-Allowed broker not_array = search (pre, keeps_rules)
  message-Allowed broker (array ts) = search (pre, keeps_rules, letter-Allowed)

  consume-Allowed :
      (broker : Broker) (payload : DlqPayload) → Keeps R (consume_dlq prisma broker payload)
  unfolding consume_dlq
  consume-Allowed broker payload = search (pre, keeps_rules, message-Allowed)

ruleset requests = (
  catalogue_of, sync-Allowed, batch-Allowed, consume-Allowed, void-Allowed, resolve-Allowed,
  correct-Allowed, create_product-Allowed, update_product-Allowed, remove_product-Allowed,
  adjust_stock-Allowed, create_reconciliation-Allowed, reconcile-Allowed, resolve_case-Allowed,
  create_device-Allowed, pair_device-Allowed, remove_device-Allowed, register-Allowed,
  login-Allowed, refresh-Allowed, logout-Allowed, create_user-Allowed, update_status-Allowed,
)

module _ (outside : Outside) {R : Db → Db → Type 0} (allows : Allows outside.prisma R) where
  open allows use {pre}

  run-Allowed : (request : Request) → Keeps R (run outside request)
  unfolding run
  run-Allowed (post_sync id batch) = search (pre, Keeps-bind, Keeps-pure, allows, requests)
  run-Allowed (deliver_batch batch) = search (pre, Keeps-bind, Keeps-pure, allows, requests)
  run-Allowed (deliver_dead_letter payload) = search (pre, Keeps-bind, Keeps-pure, allows, requests)
  run-Allowed (void_sale user id reason) = search (pre, Keeps-bind, Keeps-pure, allows, requests)
  run-Allowed (resolve_sale user id dto) = search (pre, Keeps-bind, Keeps-pure, allows, requests)
  run-Allowed (correct_sale user id dto) = search (pre, Keeps-bind, Keeps-pure, allows, requests)
  run-Allowed (post_product user dto file) = search (pre, Keeps-bind, Keeps-pure, allows, requests)
  run-Allowed (patch_product user id dto file) =
      search (pre, Keeps-bind, Keeps-pure, allows, requests)
  run-Allowed (delete_product user id) = search (pre, Keeps-bind, Keeps-pure, allows, requests)
  run-Allowed (adjust_product user id dto) = search (pre, Keeps-bind, Keeps-pure, allows, requests)
  run-Allowed (open_case user dto) = search (pre, Keeps-bind, Keeps-pure, allows, requests)
  run-Allowed (dispute_payment user id dto) = search (pre, Keeps-bind, Keeps-pure, allows, requests)
  run-Allowed (resolve_case id user dto) = search (pre, Keeps-bind, Keeps-pure, allows, requests)
  run-Allowed (post_device merchant user name) =
      search (pre, Keeps-bind, Keeps-pure, allows, requests)
  run-Allowed (pair_register code hardware) = search (pre, Keeps-bind, Keeps-pure, allows, requests)
  run-Allowed (delete_device id merchant) = search (pre, Keeps-bind, Keeps-pure, allows, requests)
  run-Allowed (sign_up dto) = search (pre, Keeps-bind, Keeps-pure, allows, requests)
  run-Allowed (sign_in email password) = search (pre, Keeps-bind, Keeps-pure, allows, requests)
  run-Allowed (refresh_tokens_of token) = search (pre, Keeps-bind, Keeps-pure, allows, requests)
  run-Allowed (sign_out token) = search (pre, Keeps-bind, Keeps-pure, allows, requests)
  run-Allowed (post_user merchant dto) = search (pre, Keeps-bind, Keeps-pure, allows, requests)
  run-Allowed (patch_user id merchant active) =
      search (pre, Keeps-bind, Keeps-pure, allows, requests)

  serve-Allowed : (request : Request) → Keeps R (serve outside request)
  unfolding serve
  serve-Allowed request = search (pre, keeps_rules, run-Allowed)

  pub serve_all-Allowed : (requests : List Request) → Keeps R (serve_all outside requests)
  unfolding serve_all
  serve_all-Allowed requests = Keeps-for_each pre requests _ serve-Allowed
