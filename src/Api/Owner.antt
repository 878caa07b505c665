-- ===== src/Api/Owner.antt =====
-- What a caller without the role of the owner can change.
use mathlib.Core.List.{mem-cons, not-mem-nil}
use mathlib.Core.Bool.{Bool-set}
use mathlib.Core.Logic.Or
use k_pos_be.Common.{
  ℕ, ◌≡◌, ◌≢◌, sym, ◌∙◌, ap, subst, String, Bool, some, List, [], ◌∷◌, Mem, eq_iff,
}
use k_pos_be.Schema.{SyncTransactionDto}
use k_pos_be.User.{JwtPayload}
use k_pos_be.Prisma.Action.{World, Action, pure, ◌>>=◌}
use k_pos_be.Prisma.Keeps.{Keeps}
use k_pos_be.Sync.Service.{validate_batch, sync_transactions}
use k_pos_be.System.{Outside, Request, run, serve}
use k_pos_be.System.Inert.{Keeps-publish_batch}
use k_pos_be.System.Catalogue.{
  create_product-Allowed, update_product-Allowed, remove_product-Allowed, adjust_stock-Allowed,
}
use k_pos_be.Api.{
  GuardedCall, sales, catalogue, batches, cases, payments, devices, staff, profile, my_merchant,
  roles_for, dispatch,
}
use k_pos_be.Api.Sales.{
  sales_roles, get_sales, get_sale, get_sale_history, patch_void, post_resolve, post_correct,
}
use k_pos_be.Api.Catalogue.{catalogue_roles, get_products, post_stock}
use k_pos_be.Api.Catalogue
use k_pos_be.Api.Batches.{sync_roles, get_status, get_failed_queues}
use k_pos_be.Api.Batches
use k_pos_be.Api.Disputes.{
  case_roles, payment_roles, post_case, get_cases, post_resolution, get_payment_cases, get_payments,
  get_payment, post_reconcile,
}
use k_pos_be.Api.Admission.{Permits}
use k_pos_be.Api.Effects.{request_of}
use k_pos_be.Api.Refinement.{idle, served, dispatch-refines}
use k_pos_be.Api.Spares.{
  owners_part, Spares, spare_rules, catalogue-Spares, void-Spares, case-Spares,
}

not-owner : (role : String) → role ≢ "OWNER" → ¬ Mem role ("OWNER" ∷ [])
not-owner role other m = other (
    (eq_iff _ _).0
      (Or.elim (Bool-set _ _) (mem-cons.0 m) (λ e. (eq_iff _ _).1 e) (λ k. absurd (not-mem-nil k))))

asked :
    (outside : Outside) {r s : Request}
    → some s ≡ some r
    → Keeps Spares (run outside s)
    → Keeps Spares (run outside r)
asked outside {r} {s} e k = subst (λ (x : Request). Keeps Spares (run outside x)) (cc) k

module _ (outside : Outside) where
  open outside use {prisma, crypto, broker, supabase}

  serve-Spares :
      (request : Request)
      → Keeps Spares (run outside request)
      → Keeps Spares (serve outside request)
  unfolding serve
  serve-Spares request k = search spare_rules

  ran : {A : Type 0} (m : Action A) → Keeps Spares m → Keeps Spares (m >>= λ _. pure tt)
  ran m k = search spare_rules

  sync-Spares :
      (id : String) (batch : List SyncTransactionDto)
      → Keeps Spares (sync_transactions crypto prisma broker id batch)
  unfolding sync_transactions validate_batch
  sync-Spares id batch = search (spare_rules, Keeps-publish_batch) depth 12

  request-Spares :
      (call : GuardedCall) (user : JwtPayload) (request : Request)
      → user.role ≢ "OWNER"
      → Permits (roles_for call) user.role
      → request_of call user ≡ some request
      → Keeps Spares (run outside request)
  unfolding request_of roles_for sales_roles catalogue_roles sync_roles case_roles payment_roles run
  request-Spares (sales (get_sales query)) user r other may e = cc
  request-Spares (sales (get_sale id)) user r other may e = cc
  request-Spares (sales (get_sale_history id)) user r other may e = cc
  request-Spares (sales (patch_void id reason)) user r other may e =
      asked outside e (ran _ (void-Spares prisma user id reason))
  request-Spares (sales (post_resolve id dto)) user r other may e = absurd (not-owner _ other may)
  request-Spares (sales (post_correct id dto)) user r other may e = absurd (not-owner _ other may)
  request-Spares (catalogue (Catalogue.post_product dto file)) user r other may e =
      asked outside e
        (ran _ (create_product-Allowed (catalogue-Spares prisma) supabase user dto file))
  request-Spares (catalogue (get_products query)) user r other may e = cc
  request-Spares (catalogue (Catalogue.patch_product id dto file)) user r other may e =
      asked outside e
        (ran _ (update_product-Allowed (catalogue-Spares prisma) supabase user id dto file))
  request-Spares (catalogue (Catalogue.delete_product id)) user r other may e =
      asked outside e (ran _ (remove_product-Allowed (catalogue-Spares prisma) user id))
  request-Spares (catalogue (post_stock id dto)) user r other may e =
      asked outside e (ran _ (adjust_stock-Allowed (catalogue-Spares prisma) user id dto))
  request-Spares (batches (Batches.post_sync id batch)) user r other may e =
      asked outside e (ran _ (sync-Spares id batch))
  request-Spares (batches (get_status uuids)) user r other may e = cc
  request-Spares (batches get_failed_queues) user r other may e = cc
  request-Spares (cases (post_case dto)) user r other may e =
      asked outside e (ran _ (case-Spares prisma user dto))
  request-Spares (cases get_cases) user r other may e = cc
  request-Spares (cases (post_resolution id dto)) user r other may e =
      absurd (not-owner _ other may)
  request-Spares (cases (get_payment_cases id)) user r other may e = cc
  request-Spares (payments (get_payments status)) user r other may e = cc
  request-Spares (payments (get_payment id)) user r other may e = cc
  request-Spares (payments (post_reconcile id dto)) user r other may e =
      absurd (not-owner _ other may)
  request-Spares (devices call) user r other may e = absurd (not-owner _ other may)
  request-Spares (staff call) user r other may e = absurd (not-owner _ other may)
  request-Spares profile user r other may e = cc
  request-Spares my_merchant user r other may e = cc

  -- Whatever call that wants a token is made with a token whose role is not OWNER, and however it ends:
  -- the accounts, merchants and cash registers, the lines and payments of the sales, the corrections,
  -- the failed entries and the refresh tokens are as they were.
  pub dispatch-owner :
      (contains : String → String → Bool) (fuel : ℕ) (call : GuardedCall) (user : JwtPayload)
      (w : World)
      → user.role ≢ "OWNER"
      → owners_part (dispatch outside contains fuel call (some user) w).1.db ≡ owners_part w.db
  dispatch-owner contains fuel call user w other =
      elim (dispatch-refines outside contains fuel call (some user) w) [
        | idle same ↦ ap owners_part same
        | served who request v admitted asks same done ↦
            let mine : user ≡ who = cc (admitted.presented) in
            let kept = serve-Spares request (
              request-Spares call who request (λ e. other (ap (λ x. x.role) mine ∙ e))
                admitted.permitted asks) in
            ap owners_part (sym done) ∙ kept.at v ∙ ap owners_part same
      ]
