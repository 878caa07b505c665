-- ===== src/Auth/Rotation.antt =====
-- The rotation of refresh tokens.
use mathlib.Core.List.Perm
use mathlib.Core.List.{mem-cons}
use mathlib.Core.Logic.Or
use k_pos_be.Common.{
  ◌+◌, ◌≤◌, ◌≡◌, ◌≢◌, refl, ◌∙◌, ap, sym, String, Bool, true, Option, none, some, List, [], ◌∷◌,
  Mem, Perm, ◌==◌, eq_iff, arith, subst, eq_refl, not-false,
}
use k_pos_be.Schema.{Db, User, RefreshToken, refresh_tokens}
use k_pos_be.Crypto.{Crypto}
use k_pos_be.Prisma.{Prisma}
use k_pos_be.Prisma.Action.{World, ok, pure, fresh_id, create, delete}
use k_pos_be.Prisma.Inversion.{bind-ok, read-ok, create_in-db, delete_in-rows}
use k_pos_be.Prisma.Steps.{pure-ok, throw_if-ok, or_throw-ok, now-ok, call-ok}
use k_pos_be.Prisma.Counts.{count_by, count_by-cons, count_by-perm, lone, none-fits}
use k_pos_be.Auth.{
  Tokens, refresh, find_token, token_user, with_user, issue_refresh_token, refresh_lifetime,
}

-- one row at most has each id, and one at most each token
pub record HasKeys (db : Db) : Type 0 where
  pub ids : (i : String) → count_by (λ r. r.id == i) db.refresh_tokens ≤ 1
  pub tokens : (t : String) → count_by (λ r. r.token == t) db.refresh_tokens ≤ 1

-- What a refresh has done: the token was that of a user who is active, its row is replaced by one of
-- the same user, and nothing else has changed.
pub record IsRotated (token : String) (tokens : Tokens) (db db' : Db) : Type 0 where
  pub row : RefreshToken
  pub owner : User
  pub others : List RefreshToken
  pub fresh : RefreshToken
  pub named : row.token ≡ token
  pub owned : owner.id_user ≡ row.id_user
  pub stored : Mem owner db.users
  pub active : owner.is_active ≡ true
  pub before : Perm db.refresh_tokens (row ∷ others)
  pub after : Perm db'.refresh_tokens (fresh ∷ others)
  pub handed_out : fresh.token ≡ tokens.refresh_token
  pub same_owner : fresh.id_user ≡ owner.id_user
  pub rest_kept : record db' { refresh_tokens = [] } ≡ record db { refresh_tokens = [] }

module _ (prisma : Prisma) where
  with_user-some :
      (s r : RefreshToken) (o : Option User) (u : User)
      → with_user prisma s o ≡ some (r, u)
      → (s ≡ r) × (o ≡ some u)
  with_user-some s r none u e = cc
  with_user-some s r (some v) u e =
      let pairs : ◌≡◌ {A = RefreshToken × User} (s, v) (r, u) = cc in
      (ap (λ x. x.0) pairs, ap (λ x. some x.1) pairs)

  token_user-some :
      (db : Db) (o : Option RefreshToken) (r : RefreshToken) (u : User)
      → token_user prisma db o ≡ some (r, u)
      → (o ≡ some r) × (prisma.find (λ x. x.id_user == r.id_user) db.users ≡ some u)
  token_user-some db none r u e = cc
  token_user-some db (some s) r u e =
      let (same, found) = with_user-some s r _ u e in
      (
        ap some same,
        subst (λ y. prisma.find (λ x. x.id_user == y.id_user) db.users ≡ some u) same found,
      )

  module _ (crypto : Crypto) where
    -- What the issue of a token has done.
    issue-ok :
        (id_user token : String) (w w' : World)
        → issue_refresh_token prisma crypto id_user w ≡ (ok token, w')
        → (fresh : RefreshToken) × (fresh.token ≡ token)
          × (fresh.id_user ≡ id_user)
          × (w'.db ≡ record w.db { refresh_tokens = prisma.insert fresh w.db.refresh_tokens })
    unfolding issue_refresh_token create pure fresh_id
    issue-ok id_user token w w' h =
        let (draw, a, e₁, h₁) = bind-ok _ _ w h in
        let (at, b, e₂, h₂) = bind-ok _ _ a h₁ in
        let (id, c, e₃, h₃) = bind-ok _ _ b h₂ in
        let (made, d, e₄, h₄) = bind-ok _ _ c h₃ in
        let row : RefreshToken = record {
          id = id;
          id_user = id_user;
          token = crypto.random_token draw;
          expires_at = at + refresh_lifetime;
        } in
        let same : c.db ≡ w.db =
          ap (λ x. x.1.db) (sym e₃) ∙ now-ok prisma a b at e₂ ∙ now-ok prisma w a draw e₁ in
        let done =
          create_in-db prisma refresh_tokens row c.db made d.db (call-ok prisma _ c d made e₄) in
        let last : d ≡ w' = ap (λ x. x.1) h₄ in
        let ends : d.db ≡ w'.db = ap (λ x. x.db) last in
        (
          row,
          cc,
          refl,
          sym ends
              ∙ sym done
              ∙ ap (λ (db : Db). record db { refresh_tokens = prisma.insert row db.refresh_tokens })
                  same,
        )

    delete-ok :
        (q : RefreshToken → Bool) (w w' : World)
        → delete prisma refresh_tokens q w ≡ (ok tt, w')
        → (gone : RefreshToken) × (others : List RefreshToken) × (q gone ≡ true)
          × Perm w.db.refresh_tokens (gone ∷ others)
          × (w'.db ≡ record w.db { refresh_tokens = others })
    unfolding delete
    delete-ok q w w' h =
        let (rows, e, same) =
          delete_in-rows prisma refresh_tokens q w.db w'.db (call-ok prisma _ w w' tt h) in
        let (gone, fits, perm) = prisma.delete-some q w.db.refresh_tokens rows e in
        (gone, rows, fits, perm, sym same)

    -- A refresh that returned has been a rotation, where no two rows share an id or a token.
    pub refresh-IsRotated :
        (token : String) (tokens : Tokens) (w w' : World)
        → HasKeys w.db
        → refresh prisma crypto token w ≡ (ok tokens, w')
        → IsRotated token tokens w.db w'.db
    unfolding refresh find_token
    refresh-IsRotated token tokens w w' keys h =
        let (o, a, e₁, h₁) = bind-ok _ _ w h in
        let (found, same₁) = read-ok prisma _ w a o e₁ in
        let ((row, owner), b, e₂, h₂) = bind-ok _ _ a h₁ in
        let (some_row, same₂) = or_throw-ok _ _ a b (row, owner) e₂ in
        let (at, c, e₃, h₃) = bind-ok _ _ b h₂ in
        let (_, d, e₄, h₄) = bind-ok _ _ c h₃ in
        let (fresh_enough, same₄) = throw_if-ok _ _ c d e₄ in
        let (_, f, e₅, h₅) = bind-ok _ _ d h₄ in
        let (active, same₅) = throw_if-ok _ _ d f e₅ in
        let (signed_at, g, e₆, h₆) = bind-ok _ _ f h₅ in
        let (_, i, e₇, h₇) = bind-ok _ _ g h₆ in
        let (gone, others, same_id, perm, same₇) = delete-ok _ g i e₇ in
        let (made, j, e₈, h₈) = bind-ok _ _ i h₇ in
        let (fresh, value, own, same₈) = issue-ok owner.id_user made i j e₈ in
        let (is, who) = token_user-some w.db _ row owner (found ∙ some_row) in
        let (named, listed) = prisma.find-some _ _ row is in
        let (owns, stored) = prisma.find-some _ _ owner who in
        let same : g.db ≡ w.db =
          now-ok prisma f g signed_at e₆
          ∙ ap (λ x. x.db) same₅
          ∙ ap (λ x. x.db) same₄
          ∙ now-ok prisma b c at e₃
          ∙ ap (λ x. x.db) same₂
          ∙ same₁ in
        let table : Perm w.db.refresh_tokens (gone ∷ others) =
          subst (λ (x : Db). Perm x.refresh_tokens (gone ∷ others)) same perm in
        let is_row = λ (q : RefreshToken → Bool).
          lone (λ r. r.id == row.id) q row gone _ others table (keys.ids row.id) same_id
            (eq_refl row.id) listed in
        let (answer, end) = pure-ok _ tokens j w' h₈ in
        let written : w'.db ≡ record w.db { refresh_tokens = prisma.insert fresh others } =
          ap (λ x. x.db) (sym end)
          ∙ same₈
          ∙ ap (λ (x : Db). record x { refresh_tokens = prisma.insert fresh x.refresh_tokens })
              same₇
          ∙ ap (λ (x : Db). record x { refresh_tokens = prisma.insert fresh others }) same in
        record {
          row = gone;
          owner = owner;
          others = others;
          fresh = fresh;
          named = (eq_iff _ _).0 (is_row (λ r. r.token == token) named);
          owned = (eq_iff _ _).0 (is_row (λ r. owner.id_user == r.id_user) owns);
          stored = stored;
          active = not-false active;
          before = table;
          after =
              subst (λ (x : Db). Perm x.refresh_tokens (fresh ∷ others)) (sym written)
                (prisma.insert-perm fresh others);
          handed_out = value ∙ ap (λ (t : Tokens). t.refresh_token) answer;
          same_owner = own;
          rest_kept = ap (λ (x : Db). record x { refresh_tokens = [] }) written;
        }

    pub refresh-listed :
        (token : String) (tokens : Tokens) (w w' : World)
        → refresh prisma crypto token w ≡ (ok tokens, w')
        → (row : RefreshToken) × Mem row w.db.refresh_tokens × ((row.token == token) ≡ true)
    unfolding refresh find_token
    refresh-listed token tokens w w' h =
        let (o, a, e₁, h₁) = bind-ok _ _ w h in
        let (found, same₁) = read-ok prisma _ w a o e₁ in
        let ((row, owner), b, e₂, h₂) = bind-ok _ _ a h₁ in
        let (some_row, same₂) = or_throw-ok _ _ a b (row, owner) e₂ in
        let (is, who) = token_user-some w.db _ row owner (found ∙ some_row) in
        let (named, listed) = prisma.find-some _ _ row is in (row, listed, named)

    -- A refresh token is good once: where no two rows share an id or a token, and the token handed out
    -- is a new one, a second refresh with the token of a refresh that returned does not return.
    pub refresh-once :
        (token : String) (tokens again : Tokens) (w w' : World)
        → HasKeys w.db
        → refresh prisma crypto token w ≡ (ok tokens, w')
        → tokens.refresh_token ≢ token
        → (refresh prisma crypto token w').0 ≢ ok again
    refresh-once token tokens again w w' keys h new e =
        let end = (refresh prisma crypto token w').1 in
        let rotated = refresh-IsRotated token tokens w w' keys h in
        let (row, listed, named) = refresh-listed token again w' end (ap (λ x. (x, end)) e) in
        let p = λ (r : RefreshToken). r.token == token in
        Or.elim (λ x y. absurd x) (mem-cons.0 ((Perm.mem_iff rotated.after).0 listed))
          (λ k. new (sym rotated.handed_out ∙ ap (λ r. r.token) (sym k) ∙ (eq_iff _ _).0 named))
          (λ k. absurd (
            let most = keys.tokens token in
            let same = count_by-perm p rotated.before in
            let first = count_by-cons p rotated.row rotated.others in
            let fits : p rotated.row ≡ true = (eq_iff _ _).1 rotated.named in
            let more = none-fits p row rotated.others k named in ground arith))
