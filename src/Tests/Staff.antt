-- ===== src/Tests/Staff.antt =====
-- The list of the active owners of the shop.
use k_pos_be.Common.{true, some, Mem}
use k_pos_be.Schema.{User, UserRole}
use k_pos_be.Prisma.Memory.{client}
use k_pos_be.Users.Listing.{
  QueryUsersDto, UserView, view, list_users, IsStaff, IsShown, list_users_lem,
}
use k_pos_be.Tests.Fixture.{shop}

abbrev owners : QueryUsersDto
owners = record { role = some UserRole.owner; is_active = some true }

list_users_lem_example :
    ((u : User)
      → Mem u shop.users
      → IsStaff client "shop" owners u
      → Mem (view u) (list_users client "shop" owners shop))
    × ((v : UserView)
        → Mem v (list_users client "shop" owners shop)
        → IsShown client "shop" owners shop v)
list_users_lem_example = list_users_lem client "shop" owners shop
