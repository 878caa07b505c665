-- ===== src/Api.antt =====
-- The HTTP interface: every call of the controllers behind its guards. The rate limit and the checks
-- of class-validator stand before it.
pub mod Guard
pub mod Sales
pub mod Catalogue
pub mod Batches
pub mod Disputes
pub mod Office
pub mod Admission
pub mod Access
pub mod Reads
pub mod Effects
pub mod Refinement
pub mod Spares
pub mod Owner
pub mod Responses
use k_pos_be.Common.{ℕ, String, Bool, Option, none, List}
use k_pos_be.Schema.{Merchant}
use k_pos_be.User.{JwtPayload}
use k_pos_be.Users.Listing.{UserView}
use k_pos_be.Merchants.{get_my_merchant, get_profile}
use k_pos_be.Prisma.Action.{Action, ◌>>=◌}
use k_pos_be.System.{Outside}
use Guard.{guard, owner_only}
use Sales.{SalesCall, SalesReply, sales_roles, answer_sales}
use Catalogue.{CatalogueCall, CatalogueReply, catalogue_roles, answer_catalogue}
use Batches.{SyncCall, SyncReply, sync_roles, answer_sync}
use Disputes.{
  CaseCall, CaseReply, case_roles, answer_case, PaymentCall, PaymentReply, payment_roles,
  answer_payment,
}
use Office.{
  DeviceCall, DeviceReply, answer_device, StaffCall, StaffReply, answer_staff, PublicCall,
  PublicReply, answer_public,
}

-- the calls that want a token
pub data GuardedCall : Type 0 where
  sales : SalesCall → GuardedCall
  catalogue : CatalogueCall → GuardedCall
  batches : SyncCall → GuardedCall
  cases : CaseCall → GuardedCall
  payments : PaymentCall → GuardedCall
  devices : DeviceCall → GuardedCall
  staff : StaffCall → GuardedCall
  profile : GuardedCall
  my_merchant : GuardedCall

unfoldable pub roles_for : GuardedCall → Option (List String)
unfolding sales_roles catalogue_roles sync_roles case_roles payment_roles
roles_for (sales call) = sales_roles call
roles_for (catalogue call) = catalogue_roles call
roles_for (batches call) = sync_roles call
roles_for (cases call) = case_roles call
roles_for (payments call) = payment_roles call
roles_for (devices call) = owner_only
roles_for (staff call) = owner_only
roles_for profile = none
roles_for my_merchant = none

abbrev pub Reply : GuardedCall → Type 0
Reply (sales call) = SalesReply call
Reply (catalogue call) = CatalogueReply call
Reply (batches call) = SyncReply call
Reply (cases call) = CaseReply call
Reply (payments call) = PaymentReply call
Reply (devices call) = DeviceReply call
Reply (staff call) = StaffReply call
Reply profile = UserView
Reply my_merchant = Merchant

module _ (outside : Outside) (contains : String → String → Bool) (fuel : ℕ) where
  open outside use {prisma, crypto, broker, supabase}

  unfoldable pub answer : (call : GuardedCall) → JwtPayload → Action (Reply call)
  answer (sales call) user = answer_sales prisma fuel call user
  answer (catalogue call) user = answer_catalogue contains prisma supabase call user
  answer (batches call) user = answer_sync prisma crypto broker call user
  answer (cases call) user = answer_case prisma call user
  answer (payments call) user = answer_payment prisma call user
  answer (devices call) user = answer_device prisma crypto call user
  answer (staff call) user = answer_staff prisma crypto call user
  answer profile user = get_profile prisma user.sub
  answer my_merchant user = get_my_merchant prisma user.id_merchant

  unfoldable pub dispatch : (call : GuardedCall) → Option JwtPayload → Action (Reply call)
  dispatch call token = guard prisma (roles_for call) token >>= answer call
