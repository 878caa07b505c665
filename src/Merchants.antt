-- ===== src/Merchants.antt =====
-- src/modules/merchants/merchants.service.ts, and src/modules/auth/auth.service.ts, `getProfile`.
use k_pos_be.Common.{String, ◌==◌}
use k_pos_be.Schema.{Merchant, merchants, users}
use k_pos_be.Users.Listing.{UserView, view}
use k_pos_be.Prisma.{Prisma}
use k_pos_be.Prisma.Action.{Action, not_found, missing_row, pure, ◌>>=◌, or_throw, find_first}

module _ (prisma : Prisma) where
  unfoldable pub get_my_merchant : String → Action Merchant
  get_my_merchant id_merchant = do
    found ← find_first prisma merchants (λ m. m.id_merchant == id_merchant)
    or_throw found (not_found "Merchant not found")

  -- `findUniqueOrThrow`, which rejects with P2025
  unfoldable pub get_profile : String → Action UserView
  get_profile id_user = do
    found ← find_first prisma users (λ u. u.id_user == id_user)
    user ← or_throw found (missing_row prisma)
    pure (view user)
