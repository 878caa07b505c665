-- ===== src/System/Sales.antt =====
-- The operations on stored sales and on disputes under a relation that allows their writes.
use k_pos_be.Common.{Option, none, some, String, refl}
use k_pos_be.Schema.{Db, Transaction, Payment}
use k_pos_be.User.{JwtPayload}
use k_pos_be.Prisma.{Prisma}
use k_pos_be.Prisma.Keeps.{
  Keeps, Keeps-bind, Keeps-when, Keeps-pure, Yields, Keeps-Yields, Yields-bind, Yields-for_each,
  Keeps-transaction, keeps_rules,
}
use k_pos_be.Transactions.{
  FullTransaction, ConflictAction, confirm, void, ResolveConflictDto, CorrectTransactionDto,
  find_full, check_own, find_one, void_transaction, force_resolve_inventory, mark_as_confirmed,
  resolve_by, resolve_conflict,
}
use k_pos_be.Transactions.Correction.{
  revert_old_stock, create_new_transaction, create_corrected_detail,
  create_details_and_deduct_stock, clone_of, clone_payment, mark_old_as_voided_and_bridge,
  correct_body, correct_transaction,
}
use k_pos_be.Reconciliations.{
  CreateReconciliationDto, ResolveReconciliationDto, find_with_payment, open_reconciliation,
  create_reconciliation, reconcile_payment, close_case, void_linked, invalidate, find_case,
  resolve_reconciliation,
}
use k_pos_be.System.Asides.{asides}
use k_pos_be.System.Revisions.{voided-IsRevised, confirms, voids, settles}
use k_pos_be.System.Allowed.{Allows, Aside-create, Aside-update}

module _ {prisma : Prisma} {R : Db → Db → Type 0} (allows : Allows prisma R) where
  open allows use {pre, adjusts, sells, revises}

  own-Allowed :
      (user : JwtPayload) (id : String) (o : Option FullTransaction)
      → Keeps R (check_own prisma user id o)
  unfolding check_own
  own-Allowed user id none = search (pre, keeps_rules)
  own-Allowed user id (some t) = search (pre, keeps_rules)

  find_one-Allowed : (user : JwtPayload) (id : String) → Keeps R (find_one prisma user id)
  unfolding find_one find_full
  find_one-Allowed user id = search (pre, keeps_rules, own-Allowed)

  pub void-Allowed :
      (user : JwtPayload) (id reason : String) → Keeps R (void_transaction prisma user id reason)
  unfolding void_transaction
  void-Allowed user id reason = Keeps-bind pre _ _ (find_one-Allowed user id) λ t.
      Keeps-bind pre _ _ (search (pre, keeps_rules)) λ _.
        Keeps-bind pre _ _ (search (pre, keeps_rules)) λ _.
          Keeps-bind pre _ _ (search (pre, keeps_rules)) λ at. revises _ _ (voided-IsRevised _ _ _)

  confirmed-Allowed : (id : String) → Keeps R (mark_as_confirmed prisma id)
  unfolding mark_as_confirmed
  confirmed-Allowed id = Keeps-bind pre _ _ (search (pre, keeps_rules)) λ at. revises _ _ λ t.
      record {
        content = refl;
        status_moved = confirms t.status;
        sync_moved = settles t.sync_status;
      }

  resolve_by-Allowed :
      (action : ConflictAction) (user : JwtPayload) (t : FullTransaction) (notes : Option String)
      → Keeps R (resolve_by prisma action user t notes)
  unfolding resolve_by force_resolve_inventory
  resolve_by-Allowed confirm user t notes = Keeps-transaction pre _ (
      Yields-bind pre _ _ (Yields-for_each pre t.details _ (λ d. adjusts _))
        λ _. Keeps-Yields (confirmed-Allowed _))
  resolve_by-Allowed void user t notes = Keeps-bind pre _ _ (search (pre, keeps_rules)) λ at.
      revises _ _ λ t. record {
        content = refl;
        status_moved = voids t.status;
        sync_moved = settles t.sync_status;
      }

  pub resolve-Allowed :
      (user : JwtPayload) (id : String) (dto : ResolveConflictDto)
      → Keeps R (resolve_conflict prisma user id dto)
  unfolding resolve_conflict
  resolve-Allowed user id dto =
      search (pre, keeps_rules, find_one-Allowed, resolve_by-Allowed) depth 12

  new-Allowed :
      (tx : Transaction) (dto : CorrectTransactionDto)
      → Keeps R (create_new_transaction prisma tx dto)
  unfolding create_new_transaction
  new-Allowed tx dto = search (pre, keeps_rules, sells) depth 12

  clone-Allowed :
      (tx : Transaction) (id : String) (dto : CorrectTransactionDto) (o : Option Payment)
      → Keeps R (clone_of prisma tx id dto o)
  unfolding clone_of
  clone-Allowed tx id dto none = search (pre, keeps_rules)
  clone-Allowed tx id dto (some payment) =
      search (pre, keeps_rules, allows, Aside-create, asides) depth 12

  bridge-Allowed :
      (old new by reason : String)
      → Keeps R (mark_old_as_voided_and_bridge prisma old new by reason)
  unfolding mark_old_as_voided_and_bridge
  bridge-Allowed old new by reason = Keeps-bind pre _ _ (search (pre, keeps_rules)) λ at.
      Keeps-bind pre _ _ (revises _ _ (voided-IsRevised _ _ _))
        λ _. search (pre, keeps_rules, allows, Aside-create, asides) depth 12

  lines-Allowed :
      (tx : Transaction) (dto : CorrectTransactionDto) (by : String)
      → Yields R (create_details_and_deduct_stock prisma tx dto by)
  unfolding create_details_and_deduct_stock create_corrected_detail
  lines-Allowed tx dto by =
      Yields-bind pre _ _
        (Keeps-Yields (search (pre, keeps_rules, allows, Aside-create, asides) depth 12))
        λ _. Yields-for_each pre dto.items _ (λ item. adjusts _)

  pub correct-Allowed :
      (user : JwtPayload) (id : String) (dto : CorrectTransactionDto)
      → Keeps R (correct_transaction prisma user id dto)
  unfolding correct_transaction correct_body revert_old_stock clone_payment
  correct-Allowed user id dto = Keeps-bind pre _ _ (find_one-Allowed user id) λ t.
      Keeps-bind pre _ _ (search (pre, keeps_rules)) λ _. Keeps-transaction pre _ (
        Yields-bind pre _ _ (Yields-for_each pre t.details _ (λ d. adjusts _)) λ _.
          Yields-bind pre _ _ (Keeps-Yields (new-Allowed t.row dto)) λ tx.
            Yields-bind pre _ _ (lines-Allowed tx dto user.sub)
              λ _. Keeps-Yields (search (pre, keeps_rules, clone-Allowed, bridge-Allowed)))

  open-Allowed :
      (id by reason : String) (evidence : Option String)
      → Keeps R (open_reconciliation prisma id by reason evidence)
  unfolding open_reconciliation
  open-Allowed id by reason evidence =
      search (pre, keeps_rules, allows, Aside-create, asides) depth 12

  pub create_reconciliation-Allowed :
      (user : JwtPayload) (dto : CreateReconciliationDto)
      → Keeps R (create_reconciliation prisma user dto)
  unfolding create_reconciliation find_with_payment
  create_reconciliation-Allowed user dto = search (pre, keeps_rules, open-Allowed) depth 14

  pub reconcile-Allowed :
      (user : JwtPayload) (id : String) (dto : CreateReconciliationDto)
      → Keeps R (reconcile_payment prisma user id dto)
  unfolding reconcile_payment
  reconcile-Allowed user id dto = search (pre, keeps_rules, open-Allowed) depth 14

  linked-Allowed :
      (id : String) (user : JwtPayload) (o : Option Transaction)
      → Keeps R (void_linked prisma id user o)
  unfolding void_linked
  linked-Allowed id user none = search (pre, keeps_rules)
  linked-Allowed id user (some t) = Keeps-when pre _ _ (
      Keeps-bind pre _ _ (search (pre, keeps_rules))
        λ at. Keeps-bind pre _ _ (revises _ _ (voided-IsRevised _ _ _)) λ _. Keeps-pure pre tt)

  pub resolve_case-Allowed :
      (id : String) (user : JwtPayload) (dto : ResolveReconciliationDto)
      → Keeps R (resolve_reconciliation prisma id user dto)
  unfolding resolve_reconciliation find_case close_case invalidate
  resolve_case-Allowed id user dto =
      search (pre, keeps_rules, linked-Allowed, allows, Aside-update, asides) depth 20
