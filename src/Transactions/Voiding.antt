-- ===== src/Transactions/Voiding.antt =====
-- What voiding a sale leaves behind.
use k_pos_be.Common.{ℕ, ◌≡◌, String, true, arith, ◌∙◌, ap, subst}
use k_pos_be.Schema.{Transaction, is_pending, transactions}
use k_pos_be.User.{JwtPayload}
use k_pos_be.Prisma.{Prisma}
use k_pos_be.Prisma.Action.{World, ok}
use k_pos_be.Prisma.Inversion.{bind-ok}
use k_pos_be.Prisma.Steps.{throw_if-ok, now-ok, update-ok, IsUpdated}
use k_pos_be.Transactions.{FullTransaction, with_id, mark_voided, void_transaction}
use k_pos_be.Transactions.Lookup.{IsFound, find_one-ok}

module _ (prisma : Prisma) (user : JwtPayload) (id : String) where
  -- Where `voidTransaction` returns, a PENDING sale of the caller's merchant was found, and all
  -- that changed is its row, now VOIDED by the caller for the reason given.
  pub void_transaction_lem :
      (reason : String) (w w' : World) (r : Transaction)
      → void_transaction prisma user id reason w ≡ (ok r, w')
      → (t : FullTransaction) × (at : ℕ) × IsFound prisma user id t w.db
        × (is_pending t.row.status ≡ true)
        × IsUpdated prisma transactions
            (with_id t.row.id_transaction)
            (mark_voided at user.sub reason)
            r
            w.db
            w'.db
  unfolding void_transaction
  void_transaction_lem reason w w' r h =
      let (t, v, found, h1) = bind-ok _ _ w h in
      let (is, same) = find_one-ok prisma user id w v t found in
      let (_, v1, e1, h2) = bind-ok _ _ v h1 in
      let (_, v2, e2, h3) = bind-ok _ _ v1 h2 in
      let (at, v3, e3, h4) = bind-ok _ _ v2 h3 in
      let (_, w1) = throw_if-ok _ _ v v1 e1 in
      let (pending, w2) = throw_if-ok _ _ v1 v2 e2 in
      let still : v3.db ≡ w.db = now-ok prisma v2 v3 at e3 ∙ ap (λ x. x.db) (w2 ∙ w1) ∙ same in
      (
        t,
        at,
        is,
        ground arith,
        subst
            (λ x.
              IsUpdated prisma transactions (with_id t.row.id_transaction)
                (mark_voided at user.sub reason) r x w'.db)
            still (update-ok prisma transactions _ _ v3 w' r h4),
      )
