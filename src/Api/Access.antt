-- ===== src/Api/Access.antt =====
-- A call behind its guards: when it is answered, and when it is refused.
use k_pos_be.Common.{ℕ, ◌≡◌, ◌≢◌, refl, ◌∙◌, ap, sym, String, Bool, Option}
use k_pos_be.User.{JwtPayload}
use k_pos_be.Prisma.Action.{World, Result, ok, err, Error, ◌>>=◌, continue}
use k_pos_be.System.{Outside}
use k_pos_be.Api.{GuardedCall, roles_for, Reply, answer, dispatch}
use k_pos_be.Api.Guard.{guard}
use k_pos_be.Api.Admission.{IsAdmitted, guard-IsAdmitted, guard-Keeps}

module _ (outside : Outside) (contains : String → String → Bool) (fuel : ℕ) (call : GuardedCall)
    (token : Option JwtPayload) where
  -- The two ways a call goes: the guards throw, or the method of the service runs.
  pub data IsDispatched (w : World) (x : Result (Reply call) × World) : Type 0 where
    refused : (e : Error) → x.0 ≡ err e → x.1.db ≡ w.db → IsDispatched w x
    answered :
        (user : JwtPayload) (v : World)
        → IsAdmitted (roles_for call) token user w.db
        → v.db ≡ w.db
        → answer outside contains fuel call user v ≡ x
        → IsDispatched w x

  pub dispatch-IsDispatched :
      (w : World) → IsDispatched w (dispatch outside contains fuel call token w)
  unfolding dispatch ◌>>=◌
  dispatch-IsDispatched w = go (guard outside.prisma (roles_for call) token w) refl
    where
      go :
          (g : Result JwtPayload × World)
          → guard outside.prisma (roles_for call) token w ≡ g
          → IsDispatched w (continue g.0 (answer outside contains fuel call) g.1)
      go (ok user, v) e =
          let (admitted, same) =
            guard-IsAdmitted outside.prisma (roles_for call) token user w v e in
          answered user v admitted same refl
      go (err f, v) e = refused f refl (
          ap (λ (x : Result JwtPayload × World). x.1.db) (sym e)
          ∙ (guard-Keeps outside.prisma (roles_for call) token).at w)

  -- A call for which no one is admitted, be it that no valid token is presented, that the account of
  -- its user is gone or not active, or that the user's role is none of the roles of the call, gets no
  -- answer, and the database is as it was.
  pub dispatch-refused :
      (w : World) (r : Reply call)
      → ((user : JwtPayload) → ¬ IsAdmitted (roles_for call) token user w.db)
      → ((dispatch outside contains fuel call token w).0 ≢ ok r)
        × ((dispatch outside contains fuel call token w).1.db ≡ w.db)
  dispatch-refused w r nobody = elim (dispatch-IsDispatched w) [
    | refused e thrown same ↦ ((λ q. let clash = sym thrown ∙ q in cc), same)
    | answered user v admitted same answer ↦ absurd (nobody user admitted)
  ]
