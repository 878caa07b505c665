-- ===== src/Reconciliations.antt =====
-- src/modules/reconciliations/reconciliations.service.ts and payments/payments.service.ts: disputes
-- about payments.
pub mod Settling
pub mod Resolving
pub mod Lists
use Prim.Native.String.{◌++◌}
use k_pos_be.Common.{String, not, ◌&&◌, Option, none, some, ◌==◌, is_some, or_else}
use k_pos_be.Schema.{
  Db, Transaction, Payment, Reconciliation, ReconciliationStatus, PaymentStatus, is_open, is_valid,
  is_voided, transactions, payments, reconciliations,
}
use k_pos_be.User.{JwtPayload}
use k_pos_be.Transactions.{by_id, with_id, mark_voided}
use k_pos_be.Prisma.{Prisma}
use k_pos_be.Prisma.Action.{
  Action, bad_request, forbidden, not_found, ⊤, pure, ◌>>=◌, ◌>>◌, throw_if, when, branch, or_throw,
  transaction, read, now, fresh_id, find_first, create, update,
}

-- src/modules/reconciliations/dto
pub record CreateReconciliationDto : Type 0 where
  pub id_transaction : String
  pub reason : String
  pub evidence : Option String

pub record ResolveReconciliationDto : Type 0 where
  pub resolution : String
  pub status : Option ReconciliationStatus

-- `include: { payment: { include: { transaction: true } } }`
pub record Case : Type 0 where
  pub row : Reconciliation
  pub payment : Payment
  pub transaction_row : Option Transaction

module _ (prisma : Prisma) where
  abbrev pub with_payment : Db → Option Transaction → Option (Transaction × Option Payment)
  with_payment db none = none
  with_payment db (some t) =
      some (t, prisma.find (λ p. p.id_transaction == t.id_transaction) db.payments)

  unfoldable pub find_with_payment : String → Action (Option (Transaction × Option Payment))
  find_with_payment id = read prisma λ db. with_payment db (prisma.find (by_id id) db.transactions)

  unfoldable pub open_reconciliation :
      String → String → String → Option String → Action Reconciliation
  open_reconciliation id_payment opened_by reason evidence = do
    id ← fresh_id prisma
    create prisma reconciliations (record {
      id_reconciliation = id;
      id_payment = id_payment;
      opened_by = opened_by;
      reason = reason;
      evidence_note = evidence;
      status = ReconciliationStatus.open_case;
      resolved_by = none;
      resolved_at = none;
      resolution_note = none;
    })

  -- `POST /reconciliations`
  unfoldable pub create_reconciliation :
      JwtPayload → CreateReconciliationDto → Action Reconciliation
  unfolding find_with_payment open_reconciliation
  create_reconciliation user dto = do
    found ← find_with_payment dto.id_transaction
    tx ← or_throw found (not_found "Transaction not found")
    throw_if (not (tx.0.id_merchant == user.id_merchant))
        (bad_request "Transaction does not belong to your merchant")
    payment ← or_throw tx.1 (bad_request "Transaction has no payment to reconcile")
    existing ← find_first prisma reconciliations (λ r. r.id_payment == payment.id_payment)
    throw_if (is_some existing) (bad_request "Transaction payment is already under reconciliation")
    open_reconciliation payment.id_payment user.sub dto.reason dto.evidence

  -- `POST /payments/:id/reconcile`
  unfoldable pub reconcile_payment :
      JwtPayload → String → CreateReconciliationDto → Action Reconciliation
  unfolding open_reconciliation
  reconcile_payment user payment_id dto = do
    found ← find_first prisma payments (λ p. p.id_payment == payment_id)
    payment ← or_throw found (not_found "Payment not found")
    throw_if (not (payment.id_merchant == user.id_merchant)) (forbidden "Access denied")
    existing ←
        find_first prisma reconciliations (λ r. r.id_payment == payment_id && is_open r.status)
    throw_if (is_some existing) (bad_request "Payment already has an open reconciliation case")
    open_reconciliation payment_id user.sub dto.reason dto.evidence

  abbrev with_case : Db → Reconciliation → Option Payment → Option Case
  with_case db r none = none
  with_case db r (some p) = some (record {
    row = r;
    payment = p;
    transaction_row = prisma.find (with_id p.id_transaction) db.transactions;
  })

  abbrev case_of : Db → Option Reconciliation → Option Case
  case_of db none = none
  case_of db (some r) = with_case db r (prisma.find (λ p. p.id_payment == r.id_payment) db.payments)

  unfoldable pub find_case : String → Action (Option Case)
  find_case id =
      read prisma λ db. case_of db (prisma.find (λ r. r.id_reconciliation == id) db.reconciliations)

  unfoldable pub close_case :
      String → JwtPayload → String → ReconciliationStatus → Action Reconciliation
  close_case id user resolution status = do
    at ← now prisma
    update prisma reconciliations (λ r. r.id_reconciliation == id)
        (λ r. record r {
          resolution_note = some resolution;
          status = status;
          resolved_by = some user.sub;
          resolved_at = some at;
        })

  unfoldable pub void_linked : String → JwtPayload → Option Transaction → Action ⊤
  void_linked id user none = pure tt
  void_linked id user (some t) = when (not (is_voided t.status)) (
      now prisma >>= λ at.
      update prisma transactions (with_id t.id_transaction) (
        mark_voided at user.sub (
          "Payment reconciled as INVALID. Recon ID: "
          ++ (id ++ ". Goods already delivered — stock unchanged.")))
      >> pure tt)

  unfoldable pub invalidate : String → JwtPayload → String → Case → Action Reconciliation
  unfolding close_case void_linked
  invalidate id user resolution c = do
    updated ← close_case id user resolution ReconciliationStatus.resolved_invalid
    update prisma payments (λ p. p.id_payment == c.row.id_payment)
        (λ p. record p { status = PaymentStatus.failed })
    void_linked id user c.transaction_row
    pure updated

  -- `PATCH /reconciliations/:id/resolve`
  unfoldable pub resolve_reconciliation :
      String → JwtPayload → ResolveReconciliationDto → Action Reconciliation
  unfolding find_case invalidate
  resolve_reconciliation id user dto = do
    found ← find_case id
    c ← or_throw found (not_found "Reconciliation record not found")
    throw_if (not (c.payment.id_merchant == user.id_merchant))
        (bad_request "Not authorized to resolve this record")
    throw_if (not (is_open c.row.status)) (bad_request "Reconciliation is already resolved")
    branch (is_valid (or_else dto.status ReconciliationStatus.resolved_valid))
        (close_case id user dto.resolution ReconciliationStatus.resolved_valid)
        (transaction (invalidate id user dto.resolution c))
