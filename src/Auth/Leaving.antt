-- ===== src/Auth/Leaving.antt =====
-- What ends the access of a user: a logout, and a change of status by the owner.
use mathlib.Core.List.Perm
use mathlib.Core.List.{mem-cons}
use mathlib.Core.Logic.Or
use k_pos_be.Common.{
  ◌≡◌, ◌≢◌, ◌≤◌, refl, ◌∙◌, ap, sym, String, true, false, not, not-false, ◌∷◌, Mem, Perm, ◌==◌,
  eq_iff, arith, subst, Bool-cases, inl, inr,
}
use k_pos_be.Schema.{Db, User, RefreshToken, users}
use k_pos_be.User.{JwtPayload}
use k_pos_be.Crypto.{Crypto}
use k_pos_be.Paging.Members.{select-fits, mem-select}
use k_pos_be.Prisma.{Prisma}
use k_pos_be.Prisma.Action.{World, ok, pure, find_first}
use k_pos_be.Prisma.Inversion.{bind-ok, read-ok}
use k_pos_be.Prisma.Steps.{call-ok, or_throw-ok, throw_if-ok, update-ok}
use k_pos_be.Prisma.Counts.{count_by, count_by-cons, count_by-perm, none-fits}
use k_pos_be.Auth.{Tokens, refresh, logout, validate}
use k_pos_be.Auth.Rotation.{refresh-listed}
use k_pos_be.Users.{update_status}

module _ (prisma : Prisma) where
  logout-ok :
      (token : String) (w w' : World)
      → logout prisma token w ≡ (ok tt, w')
      → w'.db.refresh_tokens ≡ prisma.find_many (λ r. not (r.token == token)) w.db.refresh_tokens
  unfolding logout
  logout-ok token w w' h =
      let e = call-ok prisma _ w w' tt h in
      let done : record w.db {
        refresh_tokens = prisma.find_many (λ r. not (r.token == token)) w.db.refresh_tokens;
      }
          ≡ w'.db =
        ground arith in
      sym (ap (λ (x : Db). x.refresh_tokens) done)

  -- Where `logout` returns, a refresh with its token does not return, and every row with another token
  -- is still stored.
  pub logout-ends :
      (crypto : Crypto) (token : String) (w w' : World)
      → logout prisma token w ≡ (ok tt, w')
      → ((again : Tokens) → (refresh prisma crypto token w').0 ≢ ok again)
        × ((r : RefreshToken)
            → Mem r w.db.refresh_tokens
            → r.token ≢ token
            → Mem r w'.db.refresh_tokens)
  logout-ends crypto token w w' h =
      let rest = logout-ok token w w' h in
      let other = λ (r : RefreshToken). not (r.token == token) in
      (
        λ again e.
            let end = (refresh prisma crypto token w').1 in
            let (row, listed, named) =
              refresh-listed prisma crypto token again w' end (ap (λ x. (x, end)) e) in
            let kept = subst (λ l. Mem row l) rest listed in
            let fits =
              select-fits other w.db.refresh_tokens row
                ((Perm.mem_iff (prisma.find_many-perm other w.db.refresh_tokens)).0 kept) in
            absurd (let clash = rw named at fits in cc),
        λ r m differs.
            subst (λ l. Mem r l) (sym rest)
              ((Perm.mem_iff (prisma.find_many-perm other w.db.refresh_tokens)).1 (
                mem-select other w.db.refresh_tokens r m (elim (Bool-cases (r.token == token)) [
                  | inl e ↦ absurd (differs ((eq_iff _ _).0 e))
                  | inr e ↦ rw e refl
                ]))),
      )

  -- who a payload is accepted for
  accepted :
      (payload user : JwtPayload) (w w' : World)
      → validate prisma payload w ≡ (ok user, w')
      → (u : User) × Mem u w.db.users × (u.id_user ≡ payload.sub) × (u.is_active ≡ true)
  unfolding validate find_first pure
  accepted payload user w w' h =
      let (o, a, e₁, h₁) = bind-ok _ _ w h in
      let (found, same₁) = read-ok prisma _ w a o e₁ in
      let (u, b, e₂, h₂) = bind-ok _ _ a h₁ in
      let (some_row, same₂) = or_throw-ok _ _ a b u e₂ in
      let (_, c, e₃, h₃) = bind-ok _ _ b h₂ in
      let (active, same₃) = throw_if-ok _ _ b c e₃ in
      let (named, listed) = prisma.find-some _ _ u (found ∙ some_row) in
      (u, listed, (eq_iff _ _).0 named, not-false active)

  -- Where `updateStatus` returns and made a user inactive, and no two users share an id, no token of that
  -- user is accepted any more, whatever its payload says.
  pub update_status-ends :
      (target merchant : String) (changed : User) (payload user : JwtPayload) (w w' : World)
      → ((i : String) → count_by (λ u. u.id_user == i) w.db.users ≤ 1)
      → update_status prisma target merchant false w ≡ (ok changed, w')
      → payload.sub ≡ target
      → (validate prisma payload w').0 ≢ ok user
  unfolding update_status find_first
  update_status-ends target merchant changed payload user w w' keys h mine e =
      let (o, a, e₁, h₁) = bind-ok _ _ w h in
      let (_, same₁) = read-ok prisma _ w a o e₁ in
      let (t, b, e₂, h₂) = bind-ok _ _ a h₁ in
      let (_, same₂) = or_throw-ok _ _ a b t e₂ in
      let (_, c, e₃, h₃) = bind-ok _ _ b h₂ in
      let (_, same₃) = throw_if-ok _ _ b c e₃ in
      let same : c.db ≡ w.db = ap (λ x. x.db) same₃ ∙ ap (λ x. x.db) same₂ ∙ same₁ in
      let done = update-ok prisma users _ _ c w' changed h₃ in
      let is_target = λ (u : User). u.id_user == target in
      let before : Perm w.db.users (done.row ∷ done.rest) =
        subst (λ (x : Db). Perm x.users (done.row ∷ done.rest)) same done.before in
      let after : Perm w'.db.users (record done.row { is_active = false } ∷ done.rest) =
        subst (λ (x : Db). Perm x.users (record done.row { is_active = false } ∷ done.rest))
          (sym done.written) done.after in
      let end = (validate prisma payload w').1 in
      let (u, listed, named, active) = accepted payload user w' end (ap (λ x. (x, end)) e) in
      Or.elim (λ x y. absurd x) (mem-cons.0 ((Perm.mem_iff after).0 listed))
        (λ k. let clash = rw k at active in cc)
        (λ k. absurd (
          let most = keys target in
          let counted = count_by-perm is_target before in
          let first = count_by-cons is_target done.row done.rest in
          let fits : is_target done.row ≡ true = done.fits in
          let more = none-fits is_target u done.rest k ((eq_iff _ _).1 (named ∙ mine)) in
          ground arith))
