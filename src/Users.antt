-- ===== src/Users.antt =====
-- src/modules/users/users.service.ts: the staff of a merchant.
pub mod Listing
use k_pos_be.Common.{String, Bool, true, not, some, ◌==◌, is_some}
use k_pos_be.Schema.{User, UserRole, users, same_key}
use k_pos_be.Crypto.{Crypto}
use k_pos_be.Prisma.{Prisma}
use k_pos_be.Prisma.Action.{
  Action, conflict, forbidden, not_found, ◌>>=◌, ◌>>◌, throw_if, or_throw, now, fresh_id,
  find_first, create, update,
}

pub record CreateUserDto : Type 0 where
  pub full_name : String
  pub email : String
  pub password : String
  pub role : UserRole

module _ (prisma : Prisma) where
  unfoldable pub create_user : Crypto → String → CreateUserDto → Action User
  create_user crypto owner_merchant_id dto = do
    existing ← find_first prisma users (λ u. u.email == dto.email)
    throw_if (is_some existing) (conflict "Email already registered")
    salt ← now prisma
    id_user ← fresh_id prisma
    create prisma users (record {
      id_user = id_user;
      full_name = dto.full_name;
      email = dto.email;
      password = crypto.bcrypt_hash salt dto.password;
      role = dto.role;
      id_merchant = some owner_merchant_id;
      is_active = true;
    })

  unfoldable pub update_status : String → String → Bool → Action User
  update_status target_user_id owner_merchant_id is_active = do
    found ← find_first prisma users (λ u. u.id_user == target_user_id)
    target ← or_throw found (not_found "User not found")
    throw_if (not (same_key target.id_merchant (some owner_merchant_id)))
        (forbidden "You do not have permission to modify this user")
    update prisma users (λ u. u.id_user == target_user_id) (λ u. record u { is_active = is_active })
