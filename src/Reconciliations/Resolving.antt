-- ===== src/Reconciliations/Resolving.antt =====
-- What resolving a dispute leaves behind.
use k_pos_be.Common.{
  not-false, ◌≡◌, refl, String, true, Option, none, some, ◌∙◌, ap, subst, eq_iff, or_else, Bool,
  false, Mem, ◌==◌,
}
use k_pos_be.Schema.{
  Db, Payment, Transaction, Reconciliation, ReconciliationStatus, is_open, is_valid,
}
use k_pos_be.User.{JwtPayload}
use k_pos_be.Prisma.{Prisma}
use k_pos_be.Prisma.Action.{World, ok}
use k_pos_be.Prisma.Inversion.{bind-ok, read-ok}
use k_pos_be.Prisma.Keeps.{Keeps, Keeps-Yields}
use k_pos_be.Prisma.Steps.{throw_if-ok, or_throw-ok}
use k_pos_be.Inventory.Ledger.{IsUnmoved}
use k_pos_be.Inventory.Elsewhere.{unmoved_rules}
use k_pos_be.Transactions.{with_id}
use k_pos_be.Reconciliations.Settling.{IsSettledCase, settle-IsSettledCase}
use k_pos_be.Reconciliations.{
  Case, ResolveReconciliationDto, close_case, void_linked, invalidate, resolve_reconciliation,
  find_case, case_of, with_case,
}

-- the status that is asked for
abbrev pub verdict : ResolveReconciliationDto → Bool
verdict dto = is_valid (or_else dto.status ReconciliationStatus.resolved_valid)

abbrev pub status_of_verdict : Bool → ReconciliationStatus
status_of_verdict true = ReconciliationStatus.resolved_valid
status_of_verdict false = ReconciliationStatus.resolved_invalid

-- An open case with the id, about a payment of the caller's merchant.
pub record IsOpenCase (id : String) (user : JwtPayload) (c : Case) (db : Db) : Type 0 where
  pub listed : Mem c.row db.reconciliations
  pub named : c.row.id_reconciliation ≡ id
  pub paid : Mem c.payment db.payments
  pub about : c.payment.id_payment ≡ c.row.id_payment
  pub own : c.payment.id_merchant ≡ user.id_merchant
  pub undecided : is_open c.row.status ≡ true

-- the sale of the payment, where there is one
abbrev pub IsLinked : Prisma → Case → Db → Type 0
IsLinked prisma c db =
    c.transaction_row ≡ prisma.find (with_id c.payment.id_transaction) db.transactions

module _ (prisma : Prisma) (id : String) (user : JwtPayload) where
  settle-status :
      (note : String) (c : Case) (b : Bool) (r : Reconciliation) (db db' : Db)
      → IsSettledCase prisma id user b note c r db db'
      → r.status ≡ status_of_verdict b
  settle-status note c true r db db' h = ap (λ x. x.status) h.1.value
  settle-status note c false r db db' h = ap (λ x. x.status) h.closed.1.value

  module _ (p : String) where
    linked-IsUnmoved : (o : Option Transaction) → Keeps (IsUnmoved p) (void_linked prisma id user o)
    unfolding void_linked
    linked-IsUnmoved none = search unmoved_rules
    linked-IsUnmoved (some t) = search unmoved_rules depth 12

    resolve-IsUnmoved :
        (dto : ResolveReconciliationDto)
        → Keeps (IsUnmoved p) (resolve_reconciliation prisma id user dto)
    unfolding resolve_reconciliation find_case close_case invalidate
    resolve-IsUnmoved dto = search (unmoved_rules, linked-IsUnmoved) depth 20

  payment-found :
      (db : Db) (row : Reconciliation) (o : Option Payment) (c : Case)
      → with_case prisma db row o ≡ some c
      → (row ≡ c.row) × (o ≡ some c.payment) × IsLinked prisma c db
  payment-found db row none c e = cc
  payment-found db row (some payment) c e =
      let same : case_with db row payment ≡ c = cc in
      subst (λ x. (row ≡ x.row) × (some payment ≡ some x.payment) × IsLinked prisma x db) same
        (refl, refl, refl)
    where
      case_with : Db → Reconciliation → Payment → Case
      case_with db row payment = record {
        row = row;
        payment = payment;
        transaction_row = prisma.find (with_id payment.id_transaction) db.transactions;
      }

  case-found :
      (db : Db) (o : Option Reconciliation) (c : Case)
      → case_of prisma db o ≡ some c
      → (o ≡ some c.row)
        × (prisma.find (λ p. p.id_payment == c.row.id_payment) db.payments ≡ some c.payment)
        × IsLinked prisma c db
  case-found db none c e = cc
  case-found db (some row) c e =
      let (same, payment, linked) = payment-found db row _ c e in
      (
        ap some same,
        subst (λ x. prisma.find (λ p. p.id_payment == x.id_payment) db.payments ≡ some c.payment)
            same payment,
        linked,
      )

  -- Where `resolve` returns, an open case of the caller's merchant with the id was found, and one with
  -- the id is closed by the caller with the note, and returned: as RESOLVED_VALID where that or no
  -- status was asked for, and otherwise as RESOLVED_INVALID. As valid, nothing else has changed. As
  -- invalid, the payment of the case is FAILED and its sale, if there is one that was not voided when it
  -- was found, is VOIDED by the caller, and nothing else has changed. Neither the stock of any product
  -- nor the sum of its audit trail has moved.
  pub resolve_reconciliation_lem :
      (p : String) (dto : ResolveReconciliationDto) (w w' : World) (r : Reconciliation)
      → resolve_reconciliation prisma id user dto w ≡ (ok r, w')
      → (c : Case) × IsOpenCase id user c w.db
        × IsLinked prisma c w.db
        × (r.status ≡ status_of_verdict (verdict dto))
        × IsSettledCase prisma id user (verdict dto) dto.resolution c r w.db w'.db
        × IsUnmoved p w.db w'.db
  unfolding resolve_reconciliation find_case
  resolve_reconciliation_lem p dto w w' r h =
      let (o, v, found, h1) = bind-ok _ _ w h in
      let (e, same) = read-ok prisma _ w v o found in
      let (c, v1, e1, h2) = bind-ok _ _ v h1 in
      let (is, same₁) = or_throw-ok o _ v v1 c e1 in
      let (_, v2, e2, h3) = bind-ok _ _ v1 h2 in
      let (own, same₂) = throw_if-ok _ _ v1 v2 e2 in
      let (_, v3, e3, h4) = bind-ok _ _ v2 h3 in
      let (undecided, same₃) = throw_if-ok _ _ v2 v3 e3 in
      let (row, payment, linked) = case-found w.db _ c (e ∙ is) in
      let (named, listed) = prisma.find-some _ _ c.row row in
      let (about, paid) = prisma.find-some _ _ c.payment payment in
      let start : v3.db ≡ w.db = ap (λ x. x.db) (same₃ ∙ (same₂ ∙ same₁)) ∙ same in
      let settled =
        subst (λ x. IsSettledCase prisma id user (verdict dto) dto.resolution c r x w'.db) start
          (settle-IsSettledCase prisma id user dto.resolution c (verdict dto) v3 w' r h4) in
      (
        c,
        record {
          listed = listed;
          named = (eq_iff _ _).0 named;
          paid = paid;
          about = (eq_iff _ _).0 about;
          own = (eq_iff _ _).0 (not-false own);
          undecided = not-false undecided;
        },
        linked,
        settle-status dto.resolution c (verdict dto) r w.db w'.db settled,
        settled,
        (Keeps-Yields (resolve-IsUnmoved p dto)).at w r w' h,
      )
