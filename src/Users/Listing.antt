-- ===== src/Users/Listing.antt =====
-- src/modules/users/users.service.ts, `findAll`, and dto/query-users.dto.ts.
use mathlib.Core.List.{exists_of_mem-map, mem-map_of_mem}
use mathlib.Core.Logic.{∥∥₁_map}
use k_pos_be.Common.{
  arith, ap, refl, ◌∙◌, eq_iff, eq_refl, String, Bool, true, false, not, ◌&&◌, ◌≡◌, Option, none,
  some, List, Mem, map,
}
use k_pos_be.Schema.{Db, User, UserRole, same_role, same_role_iff, same_key}
use k_pos_be.Prisma.Queries.{ordered-fits, ordered-Mem, fits-ordered}
use k_pos_be.Prisma.{Prisma}
use k_pos_be.Prisma.Action.{Action, read}

pub record QueryUsersDto : Type 0 where
  pub role : Option UserRole
  pub is_active : Option Bool

-- the columns that `select` names: no password
pub record UserView : Type 0 where
  pub id_user : String
  pub full_name : String
  pub email : String
  pub role : UserRole
  pub id_merchant : Option String
  pub is_active : Bool

abbrev pub view : User → UserView
view u = record {
  id_user = u.id_user;
  full_name = u.full_name;
  email = u.email;
  role = u.role;
  id_merchant = u.id_merchant;
  is_active = u.is_active;
}

-- `query.role !== undefined && { role: query.role }`
abbrev pub fits_role : Option UserRole → UserRole → Bool
fits_role none role = true
fits_role (some wanted) role = same_role role wanted

abbrev pub fits_status : Option Bool → Bool → Bool
fits_status none active = true
fits_status (some true) active = active
fits_status (some false) active = not active

unfoldable pub in_staff : String → QueryUsersDto → UserView → Bool
in_staff id_merchant query u =
    same_key u.id_merchant (some id_merchant)
    && fits_role query.role u.role
    && fits_status query.is_active u.is_active

key-same : (o : Option String) (s : String) → same_key o (some s) ≡ true → o ≡ some s
key-same none s h = cc
key-same (some t) s h = ap some ((eq_iff _ _).0 h)

role-fits :
    (wanted : Option UserRole) (role : UserRole)
    → ((r : UserRole) → wanted ≡ some r → role ≡ r)
    → fits_role wanted role ≡ true
role-fits none role h = refl
role-fits (some r) role h = (same_role_iff role r).1 (h r refl)

fits-role :
    (wanted : Option UserRole) (role : UserRole)
    → fits_role wanted role ≡ true
    → (r : UserRole) → wanted ≡ some r
    → role ≡ r
fits-role none role h r e = cc
fits-role (some s) role h r e = let same : s ≡ r = cc in (same_role_iff role s).0 h ∙ same

status-fits :
    (wanted : Option Bool) (active : Bool)
    → ((b : Bool) → wanted ≡ some b → active ≡ b)
    → fits_status wanted active ≡ true
status-fits none active h = refl
status-fits (some true) active h = h true refl
status-fits (some false) active h = rw (h false refl) refl

fits-status :
    (wanted : Option Bool) (active : Bool)
    → fits_status wanted active ≡ true
    → (b : Bool) → wanted ≡ some b
    → active ≡ b
fits-status none active h b e = cc
fits-status (some true) active h b e = cc
fits-status (some false) true h b e = cc
fits-status (some false) false h b e = cc

module _ (prisma : Prisma) (id_merchant : String) (query : QueryUsersDto) where
  unfoldable pub list_users : Db → List UserView
  list_users db = map view (
      prisma.order_by "created_at"
        (prisma.find_many (λ u. in_staff id_merchant query (view u)) db.users))

  unfoldable pub find_all_users : Action (List UserView)
  find_all_users = read prisma list_users

  -- A user of the merchant, with the role and the status that are asked for, where any is.
  pub record IsStaff (u : User) : Type 0 where
    pub own : u.id_merchant ≡ some id_merchant
    pub with_role : (role : UserRole) → query.role ≡ some role → u.role ≡ role
    pub with_status : (active : Bool) → query.is_active ≡ some active → u.is_active ≡ active

  IsStaff-in_staff : (u : User) → IsStaff u → in_staff id_merchant query (view u) ≡ true
  unfolding in_staff
  IsStaff-in_staff u is =
      rw
        (
          is.own,
          eq_refl id_merchant,
          role-fits query.role u.role is.with_role,
          status-fits query.is_active u.is_active is.with_status,
        )
        refl

  in_staff-IsStaff : (u : User) → in_staff id_merchant query (view u) ≡ true → IsStaff u
  unfolding in_staff
  in_staff-IsStaff u h = record {
    own = key-same u.id_merchant id_merchant (ground arith);
    with_role = fits-role query.role u.role (ground arith);
    with_status = fits-status query.is_active u.is_active (ground arith);
  }

  listed-Mem : (db : Db) (u : User) → Mem u db.users → IsStaff u → Mem (view u) (list_users db)
  unfolding list_users
  listed-Mem db u m is =
      mem-map_of_mem view (fits-ordered prisma "created_at" _ db.users u m (IsStaff-in_staff u is))

  -- the user of whom an entry of the list is the view
  abbrev pub IsShown : Db → UserView → Type 0
  IsShown db v = ∥ ((u : User) × Mem u db.users × IsStaff u × (view u ≡ v)) ∥₁

  fits-listed : (db : Db) (v : UserView) → Mem v (list_users db) → IsShown db v
  unfolding list_users
  fits-listed db v m = ∥∥₁_map (exists_of_mem-map m) λ s. (
    s.0,
    ordered-Mem prisma "created_at" _ db.users s.0 s.1,
    in_staff-IsStaff s.0 (ordered-fits prisma "created_at" _ db.users s.0 s.1),
    s.2,
  )

  -- The list of the staff shows every stored user of the merchant who has the role and the status that
  -- are asked for, where any is, and every entry of it is the view of such a user.
  pub list_users_lem :
      (db : Db)
      → ((u : User) → Mem u db.users → IsStaff u → Mem (view u) (list_users db))
        × ((v : UserView) → Mem v (list_users db) → IsShown db v)
  list_users_lem db = (listed-Mem db, fits-listed db)
