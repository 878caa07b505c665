-- ===== src/Api/Admission.antt =====
-- Whom the guards let through, and what a refusal leaves behind.
use mathlib.Core.List.{mem-cons_self, mem-cons_of_mem}
use k_pos_be.Common.{
  ◌≡◌, ◌∙◌, ap, sym, subst, String, Bool, true, Option, none, some, List, [], ◌∷◌, Mem, any, ◌==◌,
  eq_iff, Bool-cases, inl, inr, not-false,
}
use k_pos_be.Schema.{Db, User}
use k_pos_be.User.{JwtPayload}
use k_pos_be.Prisma.{Prisma}
use k_pos_be.Prisma.Action.{World, Result, ok, lift, find_first}
use k_pos_be.Prisma.Inversion.{bind-ok, read-ok}
use k_pos_be.Prisma.Steps.{or_throw-ok, throw_if-ok, pure-ok}
use k_pos_be.Prisma.Keeps.{Keeps, keeps_rules}
use k_pos_be.Prisma.Kept.{IsKept, IsKept-preorder}
use k_pos_be.Auth.{validate, can_activate}
use k_pos_be.Api.Guard.{guard}
use k_pos_be.Api.{answer}

-- The roles of a call, if it names any, have this one.
abbrev pub Permits : Option (List String) → String → Type 0
Permits none role = Unit
Permits (some []) role = Unit
Permits (some (r ∷ rs)) role = Mem role (r ∷ rs)

-- The user who presented the token is one of the roles, and has an account that is active.
pub record IsAdmitted (required : Option (List String)) (token : Option JwtPayload)
    (user : JwtPayload) (db : Db) : Type 0 where
  pub presented : token ≡ some user
  pub account : User
  pub stored : Mem account db.users
  pub named : account.id_user ≡ user.sub
  pub active : account.is_active ≡ true
  pub permitted : Permits required user.role

any-role : (role : String) (rs : List String) → any (λ r. r == role) rs ≡ true → Mem role rs
any-role role [] h = cc
any-role role (r ∷ rs) h = elim (Bool-cases (r == role)) [
  | inl e ↦ subst (λ x. Mem role (x ∷ rs)) (sym ((eq_iff _ _).0 e)) mem-cons_self
  | inr e ↦ mem-cons_of_mem r (any-role role rs (rw e at h))
]

can_activate-ok :
    (required : Option (List String)) (user : JwtPayload) (b : Bool)
    → can_activate required (some user) ≡ ok b
    → Permits required user.role
unfolding can_activate
can_activate-ok none user b h = tt
can_activate-ok (some []) user b h = tt
can_activate-ok (some (r ∷ rs)) user b h = elim (Bool-cases (any (λ x. x == user.role) (r ∷ rs))) [
  | inl e ↦ any-role user.role (r ∷ rs) e
  | inr e ↦ absurd (let clash = rw e at h in cc)
]

module _ (prisma : Prisma) where
  validate-ok :
      (payload user : JwtPayload) (w w' : World)
      → validate prisma payload w ≡ (ok user, w')
      → (u : User) × Mem u w.db.users
        × (u.id_user ≡ payload.sub)
        × (u.is_active ≡ true)
        × (payload ≡ user)
        × (w'.db ≡ w.db)
  unfolding validate find_first
  validate-ok payload user w w' h =
      let (o, a, e₁, h₁) = bind-ok _ _ w h in
      let (found, same₁) = read-ok prisma _ w a o e₁ in
      let (u, b, e₂, h₂) = bind-ok _ _ a h₁ in
      let (some_row, same₂) = or_throw-ok _ _ a b u e₂ in
      let (_, c, e₃, h₃) = bind-ok _ _ b h₂ in
      let (active, same₃) = throw_if-ok _ _ b c e₃ in
      let (answer, end) = pure-ok payload user c w' h₃ in
      let (named, listed) = prisma.find-some _ _ u (found ∙ some_row) in
      (
        u,
        listed,
        (eq_iff _ _).0 named,
        not-false active,
        answer,
        ap (λ x. x.db) (sym end) ∙ ap (λ x. x.db) same₃ ∙ ap (λ x. x.db) same₂ ∙ same₁,
      )

  lift-ok :
      {A : Type 0} (r : Result A) (a : A) (w w' : World)
      → lift r w ≡ (ok a, w')
      → (r ≡ ok a) × (w' ≡ w)
  unfolding lift
  lift-ok r a w w' h = (ap (λ x. x.0) h, sym (ap (λ x. x.1) h))

  -- What the guards have established when they let a call through.
  pub guard-IsAdmitted :
      (required : Option (List String)) (token : Option JwtPayload) (user : JwtPayload)
      (w w' : World)
      → guard prisma required token w ≡ (ok user, w')
      → IsAdmitted required token user w.db × (w'.db ≡ w.db)
  unfolding guard
  guard-IsAdmitted required token user w w' h =
      let (payload, a, e₁, h₁) = bind-ok _ _ w h in
      let (presented, same₁) = or_throw-ok _ _ w a payload e₁ in
      let (who, b, e₂, h₂) = bind-ok _ _ a h₁ in
      let (account, stored, named, active, own, same₂) = validate-ok payload who a b e₂ in
      let (may, c, e₃, h₃) = bind-ok _ _ b h₂ in
      let (allowed, same₃) = lift-ok _ may b c e₃ in
      let (answer, end) = pure-ok who user c w' h₃ in
      let same : a.db ≡ w.db = ap (λ x. x.db) same₁ in
      let mine : payload ≡ user = own ∙ answer in
      (
        record {
          presented = presented ∙ ap some mine;
          account = account;
          stored = subst (λ (x : Db). Mem account x.users) same stored;
          named = named ∙ ap (λ x. x.sub) mine;
          active = active;
          permitted =
              subst (λ (x : JwtPayload). Permits required x.role) answer
                (can_activate-ok required who may allowed);
        },
        ap (λ x. x.db) (sym end) ∙ ap (λ x. x.db) same₃ ∙ same₂ ∙ same,
      )

  -- The guards only read.
  pub guard-Keeps :
      (required : Option (List String)) (token : Option JwtPayload)
      → Keeps (IsKept (λ (db : Db). db)) (guard prisma required token)
  unfolding guard validate
  guard-Keeps required token = search (IsKept-preorder, keeps_rules) depth 12
