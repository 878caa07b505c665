-- ===== src/Tests/Calls.antt =====
-- Calls of the HTTP interface, by the owner of the shop and by a clerk.
use mathlib.Core.List.{mem-cons, not-mem-nil}
use mathlib.Core.Bool.{Bool-set}
use mathlib.Core.Logic.Or
use k_pos_be.Common.{◌≡◌, ◌≢◌, ap, ◌∙◌, String, Bool, false, none, some, eq_iff}
use k_pos_be.User.{JwtPayload}
use k_pos_be.Prisma.Action.{World, ok}
use k_pos_be.Api.{GuardedCall, sales, roles_for, dispatch}
use k_pos_be.Api.Sales.{patch_void, post_resolve, sales_roles}
use k_pos_be.Transactions.{ConflictAction}
use k_pos_be.Schema.{TransactionStatus, SyncStatus}
use k_pos_be.Api.Admission.{IsAdmitted}
use k_pos_be.Api.Access.{dispatch-refused}
use k_pos_be.Api.Refinement.{IsStep, dispatch-refines}
use k_pos_be.Api.Spares.{owners_part}
use k_pos_be.Api.Owner.{dispatch-owner}
use k_pos_be.Tests.Fixture.{caller, shop_with, stored}
use k_pos_be.Tests.Backend.{outside}

abbrev clerk : JwtPayload
clerk = record caller { role = "OPERATOR" }

abbrev sold : World
sold = shop_with TransactionStatus.pending SyncStatus.synced

abbrev conflict : World
conflict = shop_with TransactionStatus.pending SyncStatus.sync_conflict

abbrev nothing_contained : String → String → Bool
nothing_contained s t = false

abbrev void_call : GuardedCall
void_call = sales (patch_void "t1" "mistake")

abbrev resolve_call : GuardedCall
resolve_call = sales (post_resolve "t1" (record { action = ConflictAction.void; notes = none }))

dispatch-refines_example :
    IsStep outside nothing_contained 3 void_call
      (some caller)
      sold.db
      (dispatch outside nothing_contained 3 void_call (some caller) sold).1.db
dispatch-refines_example = dispatch-refines outside nothing_contained 3 void_call (some caller) sold

no_operator : clerk.role ≢ "OWNER"
no_operator e = absurd (let clash = (eq_iff "OPERATOR" "OWNER").1 e in cc)

dispatch-owner_example :
    owners_part (dispatch outside nothing_contained 3 void_call (some clerk) sold).1.db
    ≡ owners_part sold.db
dispatch-owner_example = dispatch-owner outside nothing_contained 3 void_call clerk sold no_operator

not_for_clerks :
    (user : JwtPayload) → ¬ IsAdmitted (roles_for resolve_call) (some clerk) user conflict.db
unfolding roles_for sales_roles
not_for_clerks user admitted =
    let mine : clerk ≡ user = cc (admitted.presented) in
    let is_owner : user.role ≡ "OWNER" = (eq_iff _ _).0 (
      Or.elim (Bool-set _ _) (mem-cons.0 admitted.permitted) (λ e. (eq_iff _ _).1 e)
        (λ k. absurd (not-mem-nil k))) in
    no_operator (ap (λ x. x.role) mine ∙ is_owner)

dispatch-refused_example :
    ((dispatch outside nothing_contained 3 resolve_call (some clerk) conflict).0
      ≢ ok (stored TransactionStatus.voided SyncStatus.synced))
    × ((dispatch outside nothing_contained 3 resolve_call (some clerk) conflict).1.db ≡ conflict.db)
dispatch-refused_example =
    dispatch-refused outside nothing_contained 3 resolve_call (some clerk) conflict
      (stored TransactionStatus.voided SyncStatus.synced) not_for_clerks
