-- ===== src/Auth.antt =====
-- src/modules/auth: registration, login and refresh tokens, and the JWT strategy; and
-- src/common/guards/roles.guard.ts.
pub mod Rotation
pub mod Leaving
use k_pos_be.Common.{
  ℕ, ◌+◌, String, Bool, true, false, not, Option, none, some, List, [], ◌∷◌, ◌==◌, any, is_some,
  ltb, if◌then◌else◌,
}
use k_pos_be.Schema.{Db, User, UserRole, RefreshToken, users, merchants, refresh_tokens}
use k_pos_be.User.{JwtPayload}
use k_pos_be.Crypto.{Crypto, TokenPayload}
use k_pos_be.Prisma.{Prisma}
use k_pos_be.Prisma.Action.{
  Action, Result, ok, err, unauthorized, forbidden, conflict, ⊤, pure, ◌>>=◌, ◌>>◌, throw_if,
  or_throw, transaction, call, read, now, fresh_id, find_first, create, delete,
}

pub record RegisterDto : Type 0 where
  pub merchant_name : String
  pub full_name : String
  pub email : String
  pub password : String

pub record Tokens : Type 0 where
  pub access_token : String
  pub refresh_token : String

-- seven days, in milliseconds
abbrev pub refresh_lifetime : ℕ
refresh_lifetime = 604800000

abbrev pub payload_of : User → TokenPayload
payload_of u = record {
  sub = u.id_user;
  email = u.email;
  role = u.role;
  id_merchant = u.id_merchant;
}

module _ (prisma : Prisma) where
  unfoldable pub register_body : RegisterDto → String → Action User
  register_body dto hashed = do
    id_merchant ← fresh_id prisma
    merchant ←
        create prisma merchants (record { id_merchant = id_merchant; name = dto.merchant_name })
    id_user ← fresh_id prisma
    create prisma users (record {
      id_user = id_user;
      full_name = dto.full_name;
      email = dto.email;
      password = hashed;
      role = UserRole.owner;
      id_merchant = some merchant.id_merchant;
      is_active = true;
    })

  unfoldable pub register : Crypto → RegisterDto → Action User
  unfolding register_body
  register crypto dto = do
    existing ← find_first prisma users (λ u. u.email == dto.email)
    throw_if (is_some existing) (conflict "Email already registered")
    salt ← now prisma
    transaction (register_body dto (crypto.bcrypt_hash salt dto.password))

  -- a new refresh token of a user, valid for seven days
  unfoldable pub issue_refresh_token : Crypto → String → Action String
  issue_refresh_token crypto id_user = do
    draw ← now prisma
    at ← now prisma
    id ← fresh_id prisma
    create prisma refresh_tokens (record {
      id = id;
      id_user = id_user;
      token = crypto.random_token draw;
      expires_at = at + refresh_lifetime;
    })
    pure (crypto.random_token draw)

  unfoldable pub login : Crypto → String → String → Action Tokens
  unfolding issue_refresh_token
  login crypto email password = do
    found ← find_first prisma users (λ u. u.email == email)
    user ← or_throw found (unauthorized "Invalid credentials")
    throw_if (not user.is_active) (unauthorized "Invalid credentials")
    throw_if (not (crypto.bcrypt_compare password user.password))
        (unauthorized "Invalid credentials")
    at ← now prisma
    refresh_token ← issue_refresh_token crypto user.id_user
    pure (record { access_token = crypto.sign at (payload_of user); refresh_token = refresh_token })

  abbrev pub with_user : RefreshToken → Option User → Option (RefreshToken × User)
  with_user r none = none
  with_user r (some u) = some (r, u)

  -- `include: { user: true }`
  abbrev pub token_user : Db → Option RefreshToken → Option (RefreshToken × User)
  token_user db none = none
  token_user db (some r) = with_user r (prisma.find (λ u. u.id_user == r.id_user) db.users)

  unfoldable pub find_token : String → Action (Option (RefreshToken × User))
  find_token token =
      read prisma λ db. token_user db (prisma.find (λ r. r.token == token) db.refresh_tokens)

  unfoldable pub refresh : Crypto → String → Action Tokens
  unfolding find_token issue_refresh_token
  refresh crypto token = do
    found ← find_token token
    record_of ← or_throw found (unauthorized "Invalid or expired refresh token")
    at ← now prisma
    throw_if (ltb record_of.0.expires_at at) (unauthorized "Invalid or expired refresh token")
    throw_if (not record_of.1.is_active) (unauthorized "User is not active")
    signed_at ← now prisma
    delete prisma refresh_tokens (λ r. r.id == record_of.0.id)
    refresh_token ← issue_refresh_token crypto record_of.1.id_user
    pure (record {
      access_token = crypto.sign signed_at (payload_of record_of.1);
      refresh_token = refresh_token;
    })

  -- `deleteMany`: every row with the token goes, none is no error
  unfoldable pub logout : String → Action ⊤
  logout token = call prisma λ db. ok (
    tt,
    record db { refresh_tokens = prisma.find_many (λ r. not (r.token == token)) db.refresh_tokens },
  )

  -- `JwtStrategy.validate`
  unfoldable pub validate : JwtPayload → Action JwtPayload
  validate payload = do
    found ← find_first prisma users (λ u. u.id_user == payload.sub)
    user ← or_throw found (unauthorized "User is inactive or deleted")
    throw_if (not user.is_active) (unauthorized "User is inactive or deleted")
    pure payload

-- `RolesGuard.canActivate`: the roles of the decorator, if there is one, and the user of the request
-- `!requiredRoles || requiredRoles.length === 0`
abbrev pub is_unrestricted : Option (List String) → Bool
is_unrestricted none = true
is_unrestricted (some []) = true
is_unrestricted (some (r ∷ rs)) = false

abbrev pub roles_of : Option (List String) → List String
roles_of none = []
roles_of (some rs) = rs

abbrev pub has_role : List String → Option JwtPayload → Bool
has_role roles none = false
has_role roles (some user) = any (λ r. r == user.role) roles

unfoldable pub can_activate : Option (List String) → Option JwtPayload → Result Bool
can_activate required user =
    if is_unrestricted required
    then ok true
    else if not (has_role (roles_of required) user)
    then err (forbidden "You do not have permission to access this resource")
    else ok true
