-- ===== src/Transactions/History/Ends.antt =====
-- Both loops of the history end where the corrections form no cycle.
use k_pos_be.Common.{
  Bool, true, false, ℕ, zero, suc, ◌+◌, ◌≤◌, ◌<◌, ◌≡◌, ◌≢◌, refl, ◌∙◌, ap, sym, String, Option,
  none, some, List, Mem, ◌==◌, eq_iff, arith, is_empty, if◌then◌else◌, subst,
}
use k_pos_be.Schema.{Db, TransactionCorrection, corrections}
use k_pos_be.User.{JwtPayload}
use k_pos_be.Prisma.{Prisma}
use k_pos_be.Prisma.Action.{World, Action, ok, pure, ◌>>=◌, find_first}
use k_pos_be.Prisma.Keeps.{IsPreorder, Keeps, Keeps-pure, Keeps-bind, Keeps-find_first}
use k_pos_be.Prisma.Inversion.{bind-ok, read-ok}
use k_pos_be.Transactions.{FullTransaction}
use k_pos_be.Transactions.Lookup.{find_one-ok}
use k_pos_be.Transactions.History.{
  HistoryEntry, find_root, climb_on, follow_from, follow, next_id, on_from, prepend, follow_root,
  get_transaction_history, find_with_id,
}

-- A rank of the sales, up to a bound, that every correction raises: the corrections form no cycle.
pub record IsRanked (rank : String → ℕ) (bound : ℕ) (db : Db) : Type 0 where
  pub rises :
      (c : TransactionCorrection)
      → Mem c db.corrections
      → rank c.id_old_transaction < rank c.id_new_transaction
  pub bounded : (id : String) → rank id ≤ bound

module _ (prisma : Prisma) (rank : String → ℕ) (bound : ℕ) where
  root-ends :
      (n : ℕ) (id : String) (w w' : World)
      → IsRanked rank bound w.db
      → rank id < n
      → find_root prisma n id w ≢ (ok none, w')
  unfolding find_root find_first pure
  root-ends zero id w w' ranked enough h = absurd (omega arith)
  root-ends (suc n) id w w' ranked enough h =
      let (o, v, found, rest) = bind-ok _ _ w h in
      let (e, same) = read-ok prisma _ w v o found in go o v e same (λ j. root-ends n j v w') rest
    where
      go :
          (o : Option TransactionCorrection) (v : World)
          → prisma.find (λ c. c.id_new_transaction == id) w.db.corrections ≡ o
          → v.db ≡ w.db
          → ((j : String)
              → IsRanked rank bound v.db
              → rank j < n
              → find_root prisma n j v ≢ (ok none, w'))
          → climb_on prisma (find_root prisma n) id o v ≡ (ok none, w')
          → ⊥
      go none v e same ih q = cc
      go (some c) v e same ih q =
          let (fits, listed) = prisma.find-some _ _ c e in
          let named : c.id_new_transaction ≡ id = (eq_iff _ _).0 fits in
          let up = ranked.rises c listed in
          let level : rank c.id_new_transaction ≡ rank id = ap rank named in
          ih c.id_old_transaction (subst (λ x. IsRanked rank bound x) (sym same) ranked)
            (omega arith) q

  -- a sale on the way down, where the way on ends
  on_from-ends :
      (go : String → Action (Option (List HistoryEntry))) (b : Bool) (id : String) (u u' : World)
      → (go id u ≢ (ok none, u'))
      → on_from prisma go (if b then none else some id) u ≢ (ok none, u')
  unfolding pure
  on_from-ends go true id u u' on q = cc
  on_from-ends go false id u u' on q = on q

  prepend-ends :
      (m : Action (Option (List HistoryEntry))) (entry : HistoryEntry) (u w' : World)
      → (m >>= λ rest. pure (prepend entry rest)) u ≡ (ok none, w')
      → m u ≡ (ok none, w')
  unfolding pure
  prepend-ends m entry u w' q =
      let (rest, u', found, made) = bind-ok m _ u q in go rest u' found made
    where
      go :
          (rest : Option (List HistoryEntry)) (u' : World)
          → m u ≡ (ok rest, u')
          → pure (prepend entry rest) u' ≡ (ok none, w')
          → m u ≡ (ok none, w')
      go none u' found made = cc
      go (some entries) u' found made = cc

  follow-ends :
      (n : ℕ) (id : String) (w w' : World)
      → IsRanked rank bound w.db
      → bound < rank id + n
      → follow prisma n id w ≢ (ok none, w')
  unfolding follow find_with_id find_first pure
  follow-ends zero id w w' ranked enough h = let most = ranked.bounded id in absurd (omega arith)
  follow-ends (suc n) id w w' ranked enough h =
      let (o, v, found, rest) = bind-ok _ _ w h in
      let (e, same) = read-ok prisma _ w v o found in
      start o v same (λ j u. follow-ends n j u w') rest
    where
      next :
          (o : Option TransactionCorrection) (u : World)
          → prisma.find (λ c. c.id_old_transaction == id) w.db.corrections ≡ o
          → ((j : String) → bound < rank j + n → follow prisma n j u ≢ (ok none, w'))
          → on_from prisma (follow prisma n) (next_id o) u ≢ (ok none, w')
      next none u e on q = cc
      next (some c) u e on q =
          let (fits, listed) = prisma.find-some _ _ c e in
          let up = ranked.rises c listed in
          let level : rank c.id_old_transaction ≡ rank id = ap rank ((eq_iff _ _).0 fits) in
          on_from-ends (follow prisma n) (is_empty c.id_new_transaction) c.id_new_transaction u w'
            (on c.id_new_transaction (omega arith)) q

      start :
          (o : Option FullTransaction) (v : World)
          → v.db ≡ w.db
          → ((j : String) (u : World)
              → IsRanked rank bound u.db
              → bound < rank j + n
              → follow prisma n j u ≢ (ok none, w'))
          → follow_from prisma (follow prisma n) id o v ≡ (ok none, w')
          → ⊥
      start none v same on q = cc
      start (some tx) v same on q =
          let (o, u, found, rest) = bind-ok _ _ v q in
          let (e, also) = read-ok prisma _ v u o found in
          let kept = subst (λ x. IsRanked rank bound x) (sym (also ∙ same)) ranked in
          next o u
            (ap (λ db. prisma.find (λ c. c.id_old_transaction == id) db.corrections) (sym same) ∙ e)
            (λ j. on j u kept) (prepend-ends _ _ u w' rest)

  quiet : IsPreorder (λ a b. b ≡ a)
  quiet = record { reflexive = λ db. refl; transitive = λ a b c p q. q ∙ p }

  find_root-Keeps : (n : ℕ) (id : String) → Keeps (λ a b. b ≡ a) (find_root prisma n id)
  unfolding find_root
  find_root-Keeps zero id = Keeps-pure quiet none
  find_root-Keeps (suc n) id =
      Keeps-bind quiet _ _ (Keeps-find_first quiet prisma corrections _) (go (find_root-Keeps n))
    where
      go :
          ((j : String) → Keeps (λ a b. b ≡ a) (find_root prisma n j))
          → (o : Option TransactionCorrection)
          → Keeps (λ a b. b ≡ a) (climb_on prisma (find_root prisma n) id o)
      go up none = Keeps-pure quiet (some id)
      go up (some c) = up c.id_old_transaction

  ends :
      (user : JwtPayload) (id : String) (w w' : World)
      → IsRanked rank bound w.db
      → get_transaction_history prisma (suc bound) user id w ≢ (ok none, w')
  unfolding get_transaction_history pure
  ends user id w w' ranked h =
      let (initial, v, found, rest) = bind-ok _ _ w h in
      let same = (find_one-ok prisma user id w v initial found).1 in
      let (o, u, climbed, down) = bind-ok _ _ v rest in
      let also = (find_root-Keeps (suc bound) initial.row.id_transaction).at v in
      let kept : u.db ≡ w.db = ap (λ x. x.1.db) (sym climbed) ∙ also ∙ same in
      go o v u same kept initial.row.id_transaction climbed down
    where
      go :
          (o : Option String) (v u : World)
          → v.db ≡ w.db
          → u.db ≡ w.db
          → (j : String) → find_root prisma (suc bound) j v ≡ (ok o, u)
          → follow_root prisma (suc bound) o u ≡ (ok none, w')
          → ⊥
      go none v u same kept j climbed down =
          let most = ranked.bounded j in
          root-ends (suc bound) j v u (subst (λ x. IsRanked rank bound x) (sym same) ranked)
            (omega arith) climbed
      go (some root) v u same kept j climbed down =
          on_from-ends (follow prisma (suc bound)) (is_empty root) root u w'
            (follow-ends (suc bound) root u w'
              (subst (λ x. IsRanked rank bound x) (sym kept) ranked) (omega arith))
            down

  -- Where a rank up to a bound rises along every correction, so that the corrections form no cycle, fuel
  -- for one step more than that bound is enough for both loops of the history of a sale.
  pub history-ends :
      (user : JwtPayload) (id : String) (w : World)
      → IsRanked rank bound w.db
      → (get_transaction_history prisma (suc bound) user id w).0 ≢ ok none
  history-ends user id w ranked e =
      let r = get_transaction_history prisma (suc bound) user id w in
      ends user id w r.1 ranked (ap (λ x. (x, r.1)) e)
