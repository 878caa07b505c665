-- ===== src/System/Office.antt =====
-- Devices, accounts and staff under a relation that allows their writes.
use k_pos_be.Common.{String, ◌≡◌, Bool, Bool-cases, inl, inr, subst, not, ◌==◌}
use k_pos_be.Schema.{Db, refresh_tokens}
use k_pos_be.Crypto.{Crypto}
use k_pos_be.Prisma.{Prisma}
use k_pos_be.Prisma.Action.{
  Error, bad_request, unauthorized, forbidden, not_found, conflict, service_unavailable, internal,
  unhealthy, sync_exception, database,
}
use k_pos_be.Prisma.Keeps.{Keeps, Keeps-call, keeps_rules}
use k_pos_be.Devices.{conflict_on_hardware, create_device, pair_device, remove_device}
use k_pos_be.Auth.{
  RegisterDto, register_body, register, issue_refresh_token, login, find_token, refresh, logout,
}
use k_pos_be.Users.{CreateUserDto, create_user, update_status}
use k_pos_be.System.Asides.{asides, refresh_tokens-IsAside}
use k_pos_be.System.Allowed.{Allows, Aside-create, Aside-update, Aside-delete}

module _ {prisma : Prisma} {R : Db → Db → Type 0} (allows : Allows prisma R) where
  open allows use {pre, adjusts, stocks}

  hardware-Allowed : {A : Type 0} (e : Error) → Keeps R (conflict_on_hardware {A = A} e)
  hardware-Allowed (database e) = elim (Bool-cases (e.code == "P2002")) [
    | inl h ↦ rw h (search (pre, keeps_rules))
    | inr h ↦ rw h (search (pre, keeps_rules))
  ]
  hardware-Allowed (bad_request m) = search (pre, keeps_rules)
  hardware-Allowed (unauthorized m) = search (pre, keeps_rules)
  hardware-Allowed (forbidden m) = search (pre, keeps_rules)
  hardware-Allowed (not_found m) = search (pre, keeps_rules)
  hardware-Allowed (conflict m) = search (pre, keeps_rules)
  hardware-Allowed (service_unavailable m) = search (pre, keeps_rules)
  hardware-Allowed (internal m) = search (pre, keeps_rules)
  hardware-Allowed (unhealthy m) = search (pre, keeps_rules)
  hardware-Allowed (sync_exception c m) = search (pre, keeps_rules)

  pub create_device-Allowed :
      (crypto : Crypto) (merchant user name : String)
      → Keeps R (create_device prisma crypto merchant user name)
  unfolding create_device
  create_device-Allowed crypto merchant user name =
      search (pre, keeps_rules, allows, Aside-create, asides) depth 12

  pub pair_device-Allowed :
      (crypto : Crypto) (code hardware : String) → Keeps R (pair_device prisma crypto code hardware)
  unfolding pair_device
  pair_device-Allowed crypto code hardware =
      search (pre, keeps_rules, hardware-Allowed, allows, Aside-update, asides) depth 12

  pub remove_device-Allowed : (id merchant : String) → Keeps R (remove_device prisma id merchant)
  unfolding remove_device
  remove_device-Allowed id merchant =
      search (pre, keeps_rules, allows, Aside-update, asides) depth 12

  pub register-Allowed :
      (crypto : Crypto) (dto : RegisterDto) → Keeps R (register prisma crypto dto)
  unfolding register register_body
  register-Allowed crypto dto = search (pre, keeps_rules, allows, Aside-create, asides) depth 14

  issue-Allowed : (crypto : Crypto) (id : String) → Keeps R (issue_refresh_token prisma crypto id)
  unfolding issue_refresh_token
  issue-Allowed crypto id = search (pre, keeps_rules, allows, Aside-create, asides) depth 12

  pub login-Allowed :
      (crypto : Crypto) (email password : String) → Keeps R (login prisma crypto email password)
  unfolding login
  login-Allowed crypto email password = search (pre, keeps_rules, issue-Allowed) depth 14

  pub refresh-Allowed : (crypto : Crypto) (token : String) → Keeps R (refresh prisma crypto token)
  unfolding refresh find_token
  refresh-Allowed crypto token =
      search (pre, keeps_rules, issue-Allowed, allows, Aside-delete, asides) depth 16

  pub logout-Allowed : (token : String) → Keeps R (logout prisma token)
  unfolding logout
  logout-Allowed token = Keeps-call pre prisma _ λ db a db' e.
      let same : refresh_tokens.with_rows
            (prisma.find_many (λ r. not (r.token == token)) db.refresh_tokens) db
          ≡ db' =
        cc in
      subst (λ x. R db x) same (allows.aside refresh_tokens refresh_tokens-IsAside _ db)

  pub create_user-Allowed :
      (crypto : Crypto) (merchant : String) (dto : CreateUserDto)
      → Keeps R (create_user prisma crypto merchant dto)
  unfolding create_user
  create_user-Allowed crypto merchant dto =
      search (pre, keeps_rules, allows, Aside-create, asides) depth 14

  pub update_status-Allowed :
      (id merchant : String) (active : Bool) → Keeps R (update_status prisma id merchant active)
  unfolding update_status
  update_status-Allowed id merchant active =
      search (pre, keeps_rules, allows, Aside-update, asides) depth 12
