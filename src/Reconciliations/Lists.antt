-- ===== src/Reconciliations/Lists.antt =====
-- src/modules/reconciliations/reconciliations.service.ts, `findAll` and `getPaymentReconciliations`.
use Prim.Native.String.{◌++◌}
use k_pos_be.Common.{String, Bool, false, Option, none, some, List, any, not, ◌&&◌, ◌==◌}
use k_pos_be.Schema.{Db, Payment, Reconciliation, Transaction}
use k_pos_be.User.{JwtPayload}
use k_pos_be.Prisma.{Prisma}
use k_pos_be.Prisma.Action.{Action, not_found, pure, ◌>>=◌, ◌>>◌, throw_if, or_throw, read}
use k_pos_be.Transactions.{with_id}

-- the cases of one payment
pub record PaymentCases : Type 0 where
  pub payment_id : String
  pub transaction_id : String
  pub history : List Reconciliation

-- `where: { payment: { id_merchant } }`
abbrev pub is_paid_to : String → Db → Reconciliation → Bool
is_paid_to merchant db r =
    any (λ p. p.id_payment == r.id_payment && p.id_merchant == merchant) db.payments

module _ (prisma : Prisma) where
  unfoldable pub case_rows : JwtPayload → Db → List Reconciliation
  case_rows user db =
      prisma.order_by "created_at"
        (prisma.find_many (is_paid_to user.id_merchant db) db.reconciliations)

  unfoldable pub find_all_cases : JwtPayload → Action (List Reconciliation)
  find_all_cases user = read prisma (case_rows user)

  -- `include: { transaction: true }`
  abbrev pub with_sale : Db → Option Payment → Option (Payment × Option Transaction)
  with_sale db none = none
  with_sale db (some p) = some (p, prisma.find (with_id p.id_transaction) db.transactions)

  -- `payment.transaction?.id_merchant === user.id_merchant`
  abbrev pub is_sold_by : JwtPayload → Option Transaction → Bool
  is_sold_by user none = false
  is_sold_by user (some t) = t.id_merchant == user.id_merchant

  unfoldable pub get_payment_reconciliations : JwtPayload → String → Action PaymentCases
  get_payment_reconciliations user id_payment = do
    let refusal = not_found ("Payment with ID " ++ (id_payment ++ " not found or unauthorized"))
    found ←
        read prisma (λ db. with_sale db (prisma.find (λ p. p.id_payment == id_payment) db.payments))
    payment ← or_throw found refusal
    throw_if (not (is_sold_by user payment.1)) refusal
    history ← read prisma (λ db.
        prisma.order_by "created_at"
          (prisma.find_many (λ r. r.id_payment == id_payment) db.reconciliations))
    pure (record {
      payment_id = id_payment;
      transaction_id = payment.0.id_transaction;
      history = history;
    })
