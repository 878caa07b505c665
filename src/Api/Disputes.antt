-- ===== src/Api/Disputes.antt =====
-- src/modules/reconciliations/reconciliations.controller.ts and
-- src/modules/payments/payments.controller.ts.
use k_pos_be.Common.{String, Option, List}
use k_pos_be.Schema.{PaymentStatus, Reconciliation}
use k_pos_be.User.{JwtPayload}
use k_pos_be.Prisma.{Prisma}
use k_pos_be.Prisma.Action.{Action}
use k_pos_be.Reconciliations.{
  CreateReconciliationDto, ResolveReconciliationDto, create_reconciliation, reconcile_payment,
  resolve_reconciliation,
}
use k_pos_be.Reconciliations.Lists.{PaymentCases, find_all_cases, get_payment_reconciliations}
use k_pos_be.Payments.{FullPayment, find_all_payments, find_one_payment}
use k_pos_be.Api.Guard.{owner_only, owner_or_operator}

pub data CaseCall : Type 0 where
  post_case : CreateReconciliationDto → CaseCall
  get_cases : CaseCall
  post_resolution : String → ResolveReconciliationDto → CaseCall
  get_payment_cases : String → CaseCall

unfoldable pub case_roles : CaseCall → Option (List String)
case_roles (post_case dto) = owner_or_operator
case_roles get_cases = owner_only
case_roles (post_resolution id dto) = owner_only
case_roles (get_payment_cases id_payment) = owner_or_operator

abbrev pub CaseReply : CaseCall → Type 0
CaseReply (post_case dto) = Reconciliation
CaseReply get_cases = List Reconciliation
CaseReply (post_resolution id dto) = Reconciliation
CaseReply (get_payment_cases id_payment) = PaymentCases

pub data PaymentCall : Type 0 where
  get_payments : Option PaymentStatus → PaymentCall
  get_payment : String → PaymentCall
  post_reconcile : String → CreateReconciliationDto → PaymentCall

unfoldable pub payment_roles : PaymentCall → Option (List String)
payment_roles (get_payments status) = owner_only
payment_roles (get_payment id) = owner_only
payment_roles (post_reconcile id dto) = owner_only

abbrev pub PaymentReply : PaymentCall → Type 0
PaymentReply (get_payments status) = List FullPayment
PaymentReply (get_payment id) = FullPayment
PaymentReply (post_reconcile id dto) = Reconciliation

module _ (prisma : Prisma) where
  unfoldable pub answer_case : (call : CaseCall) → JwtPayload → Action (CaseReply call)
  answer_case (post_case dto) user = create_reconciliation prisma user dto
  answer_case get_cases user = find_all_cases prisma user
  answer_case (post_resolution id dto) user = resolve_reconciliation prisma id user dto
  answer_case (get_payment_cases id_payment) user =
      get_payment_reconciliations prisma user id_payment

  unfoldable pub answer_payment : (call : PaymentCall) → JwtPayload → Action (PaymentReply call)
  answer_payment (get_payments status) user = find_all_payments prisma user status
  answer_payment (get_payment id) user = find_one_payment prisma user id
  answer_payment (post_reconcile id dto) user = reconcile_payment prisma user id dto
