-- ===== src/Api/Refinement.antt =====
-- The HTTP interface against the machine of the requests in System: what a call does to the database is
-- nothing, or what one request does that its user may make.
use k_pos_be.Common.{ℕ, ◌≡◌, sym, ◌∙◌, ap, String, Bool, Option, some}
use k_pos_be.Schema.{Db}
use k_pos_be.User.{JwtPayload}
use k_pos_be.Prisma.Action.{World, Result}
use k_pos_be.System.{Outside, Request, serve}
use k_pos_be.Api.{GuardedCall, roles_for, Reply, dispatch}
use k_pos_be.Api.Admission.{IsAdmitted}
use k_pos_be.Api.Access.{refused, answered, dispatch-IsDispatched}
use k_pos_be.Api.Effects.{request_of, untouched, carried, answer-HasEffect}

module _ (outside : Outside) (contains : String → String → Bool) (fuel : ℕ) where
  -- A step of the machine of the requests, made for a call and a token.
  pub data IsStep (call : GuardedCall) (token : Option JwtPayload) (db db' : Db) : Type 0 where
    idle : db' ≡ db → IsStep call token db db'
    served :
        (user : JwtPayload) (request : Request) (v : World)
        → IsAdmitted (roles_for call) token user db
        → request_of call user ≡ some request
        → v.db ≡ db
        → (serve outside request v).1.db ≡ db'
        → IsStep call token db db'

  -- Whatever call is made with whatever token, and however it ends, the database is as it was, or it is
  -- what the machine of the requests makes of it with the request of the call, for a user whom the
  -- guards admit.
  pub dispatch-refines :
      (call : GuardedCall) (token : Option JwtPayload) (w : World)
      → IsStep call token w.db (dispatch outside contains fuel call token w).1.db
  dispatch-refines call token w = elim (dispatch-IsDispatched outside contains fuel call token w) [
    | refused e thrown same ↦ idle same
    | answered user v admitted same sent ↦
        let end = ap (λ (x : Result (Reply call) × World). x.1.db) sent in
        elim (answer-HasEffect outside contains fuel call user v) [
          | untouched kept ↦ idle (sym end ∙ kept ∙ same)
          | carried request asked done ↦ served user request v admitted asked same (done ∙ end)
        ]
  ]
