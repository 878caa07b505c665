-- ===== src/Payments.antt =====
-- src/modules/payments/payments.service.ts, `findAll` and `findOne`.
use k_pos_be.Common.{String, Option, none, some, List, map, not, ◌&&◌, ◌==◌}
use k_pos_be.Schema.{Db, Payment, PaymentStatus, Transaction, Reconciliation, same_payment_status}
use k_pos_be.User.{JwtPayload}
use k_pos_be.Prisma.{Prisma}
use k_pos_be.Prisma.Action.{
  Action, forbidden, not_found, pure, ◌>>=◌, ◌>>◌, throw_if, or_throw, read,
}
use k_pos_be.Transactions.{with_id}
use k_pos_be.Transactions.Listing.{where_given}

-- a payment with the relations that the service includes
pub record FullPayment : Type 0 where
  pub row : Payment
  pub transaction_row : Option Transaction
  pub cases : List Reconciliation

module _ (prisma : Prisma) where
  abbrev pub full_payment : Db → Payment → FullPayment
  full_payment db p = record {
    row = p;
    transaction_row = prisma.find (with_id p.id_transaction) db.transactions;
    cases = prisma.find_many (λ r. r.id_payment == p.id_payment) db.reconciliations;
  }

  unfoldable pub payment_rows : JwtPayload → Option PaymentStatus → Db → List FullPayment
  payment_rows user status db = map (full_payment db) (
      prisma.order_by "created_at" (
        prisma.find_many
          (λ p.
            p.id_merchant == user.id_merchant && where_given status (same_payment_status p.status))
          db.payments))

  unfoldable pub find_all_payments : JwtPayload → Option PaymentStatus → Action (List FullPayment)
  find_all_payments user status = read prisma (payment_rows user status)

  abbrev pub payment_with_relations : Db → Option Payment → Option FullPayment
  payment_with_relations db none = none
  payment_with_relations db (some p) = some (full_payment db p)

  unfoldable pub find_one_payment : JwtPayload → String → Action FullPayment
  find_one_payment user id = do
    found ←
        read prisma
          (λ db. payment_with_relations db (prisma.find (λ p. p.id_payment == id) db.payments))
    payment ← or_throw found (not_found "Payment not found")
    throw_if (not (payment.row.id_merchant == user.id_merchant)) (forbidden "Access denied")
    pure payment
