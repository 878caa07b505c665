-- ===== src/Api/Guard.antt =====
-- The guards in front of a controller: `JwtAuthGuard`, then `RolesGuard`. The payload is that of the
-- bearer token, where there is one whose signature and expiry passport accepts.
use k_pos_be.Common.{String, Option, some, List, [], ◌∷◌}
use k_pos_be.User.{JwtPayload}
use k_pos_be.Prisma.{Prisma}
use k_pos_be.Prisma.Action.{Action, unauthorized, pure, lift, ◌>>=◌, ◌>>◌, or_throw}
use k_pos_be.Auth.{validate, can_activate}

abbrev pub owner_only : Option (List String)
owner_only = some ("OWNER" ∷ [])

abbrev pub owner_or_operator : Option (List String)
owner_or_operator = some ("OWNER" ∷ "OPERATOR" ∷ [])

abbrev pub owner_or_entry : Option (List String)
owner_or_entry = some ("OWNER" ∷ "ENTRY" ∷ [])

-- `none` where no `@Roles` stands: any valid token will do
unfoldable pub guard : Prisma → Option (List String) → Option JwtPayload → Action JwtPayload
guard prisma required token = do
  payload ← or_throw token (unauthorized "Unauthorized")
  user ← validate prisma payload
  lift (can_activate required (some user))
  pure user
