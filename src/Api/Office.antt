-- ===== src/Api/Office.antt =====
-- src/modules/devices/devices.controller.ts, src/modules/users/users.controller.ts,
-- src/modules/merchants/merchants.controller.ts, src/modules/auth/auth.controller.ts and
-- src/modules/health/health.controller.ts. A refresh token comes and goes as a cookie.
use k_pos_be.Common.{String, Bool, Option, none, some, List, is_empty}
use k_pos_be.Schema.{Device, User}
use k_pos_be.User.{JwtPayload}
use k_pos_be.Crypto.{Crypto}
use k_pos_be.Prisma.{Prisma}
use k_pos_be.Prisma.Action.{Action, ⊤, unauthorized, pure, throw, branch}
use k_pos_be.Devices.{create_device, pair_device, find_devices, remove_device}
use k_pos_be.Users.{CreateUserDto, create_user, update_status}
use k_pos_be.Users.Listing.{QueryUsersDto, UserView, find_all_users}
use k_pos_be.Auth.{RegisterDto, Tokens, register, login, refresh, logout}
use k_pos_be.Health.{HealthReport, check_health}

-- the calls of the devices' controller that want a token
pub data DeviceCall : Type 0 where
  post_device : String → DeviceCall
  get_devices : DeviceCall
  delete_device : String → DeviceCall

abbrev pub DeviceReply : DeviceCall → Type 0
DeviceReply (post_device name) = Device
DeviceReply get_devices = List Device
DeviceReply (delete_device id) = Device

pub data StaffCall : Type 0 where
  post_user : CreateUserDto → StaffCall
  get_users : QueryUsersDto → StaffCall
  patch_user : String → Bool → StaffCall

abbrev pub StaffReply : StaffCall → Type 0
StaffReply (post_user dto) = User
StaffReply (get_users query) = List UserView
StaffReply (patch_user id active) = User

-- the calls that want no token
pub data PublicCall : Type 0 where
  post_register : RegisterDto → PublicCall
  post_login : String → String → PublicCall
  post_refresh : Option String → PublicCall
  post_logout : Option String → PublicCall
  post_pair : String → String → PublicCall
  get_health : PublicCall

abbrev pub PublicReply : PublicCall → Type 0
PublicReply (post_register dto) = User
PublicReply (post_login email password) = Tokens
PublicReply (post_refresh cookie) = Tokens
PublicReply (post_logout cookie) = ⊤
PublicReply (post_pair code hardware) = Device
PublicReply get_health = HealthReport

module _ (prisma : Prisma) (crypto : Crypto) where
  unfoldable pub answer_device : (call : DeviceCall) → JwtPayload → Action (DeviceReply call)
  answer_device (post_device name) user = create_device prisma crypto user.id_merchant user.sub name
  answer_device get_devices user = find_devices prisma user.id_merchant
  answer_device (delete_device id) user = remove_device prisma id user.id_merchant

  unfoldable pub answer_staff : (call : StaffCall) → JwtPayload → Action (StaffReply call)
  answer_staff (post_user dto) user = create_user prisma crypto user.id_merchant dto
  answer_staff (get_users query) user = find_all_users prisma user.id_merchant query
  answer_staff (patch_user id active) user = update_status prisma id user.id_merchant active

  -- `if (!refreshToken) throw`
  unfoldable pub refresh_cookie : Option String → Action Tokens
  refresh_cookie none = throw (unauthorized "Missing refresh token cookie")
  refresh_cookie (some token) =
      branch (is_empty token) (throw (unauthorized "Missing refresh token cookie"))
        (refresh prisma crypto token)

  -- `if (refreshToken) await logout`
  unfoldable pub logout_cookie : Option String → Action ⊤
  logout_cookie none = pure tt
  logout_cookie (some token) = branch (is_empty token) (pure tt) (logout prisma token)

  unfoldable pub answer_public : (call : PublicCall) → Action (PublicReply call)
  answer_public (post_register dto) = register prisma crypto dto
  answer_public (post_login email password) = login prisma crypto email password
  answer_public (post_refresh cookie) = refresh_cookie cookie
  answer_public (post_logout cookie) = logout_cookie cookie
  answer_public (post_pair code hardware) = pair_device prisma crypto code hardware
  answer_public get_health = check_health prisma
