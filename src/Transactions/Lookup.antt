-- ===== src/Transactions/Lookup.antt =====
-- What `findOne` and the operations on a single sale return and leave behind.
use Prim.Native.String.{◌++◌}
use k_pos_be.Common.{
  ◌≡◌, refl, String, Bool, true, false, not, Option, none, some, Mem, arith, eq_iff, ◌∙◌, ap, subst,
  ◌==◌,
}
use k_pos_be.Schema.{Db, Transaction}
use k_pos_be.User.{JwtPayload}
use k_pos_be.Prisma.{Prisma}
use k_pos_be.Prisma.Action.{World, ok, pure, throw, branch, not_found}
use k_pos_be.Prisma.Inversion.{bind-ok, read-ok}
use k_pos_be.Transactions.{
  FullTransaction, by_id, with_relations, find_full, check_own, find_one, is_own,
}

module _ (prisma : Prisma) (user : JwtPayload) (id : String) where
  -- A sale of the caller's merchant, with the id or offline uuid that was asked for.
  pub record IsFound (t : FullTransaction) (db : Db) : Type 0 where
    pub found : prisma.find (by_id id) db.transactions ≡ some t.row
    pub listed : Mem t.row db.transactions
    pub fits : by_id id t.row ≡ true
    pub own : t.row.id_merchant ≡ user.id_merchant
    pub details :
        t.details ≡ prisma.find_many (λ d. d.id_transaction == t.row.id_transaction) db.details

  abbrev full_of : Db → Transaction → FullTransaction
  full_of db t = record {
    row = t;
    details = prisma.find_many (λ d. d.id_transaction == t.id_transaction) db.details;
    payment = prisma.find (λ p. p.id_transaction == t.id_transaction) db.payments;
  }

  full-row :
      (db : Db) (o : Option Transaction) (t : FullTransaction)
      → with_relations prisma db o ≡ some t
      → (o ≡ some t.row)
        × (t.details ≡ prisma.find_many (λ d. d.id_transaction == t.row.id_transaction) db.details)
  full-row db none t e = cc
  full-row db (some r) t e =
      let same : full_of db r ≡ t = cc in
      subst
        (λ x.
          (some r ≡ some x.row)
          × (x.details
              ≡ prisma.find_many (λ d. d.id_transaction == x.row.id_transaction) db.details))
        same (refl, refl)

  own-ok :
      (b : Bool) (s t : FullTransaction) (w w' : World)
      → branch
          (not b)
          (throw (not_found ("Transaction with ID " ++ (id ++ " not found"))))
          (pure s)
          w
        ≡ (ok t, w')
      → (b ≡ true) × (s ≡ t) × (w' ≡ w)
  unfolding branch pure throw
  own-ok true s t w w' h = (refl, ground arith, cc)
  own-ok false s t w w' h = cc

  check_own-ok :
      (o : Option FullTransaction) (t : FullTransaction) (w w' : World)
      → check_own prisma user id o w ≡ (ok t, w')
      → (o ≡ some t) × (t.row.id_merchant ≡ user.id_merchant) × (w' ≡ w)
  unfolding check_own throw
  check_own-ok none t w w' h = cc
  check_own-ok (some s) t w w' h =
      let (own, same, world) = own-ok (is_own user s) s t w w' h in
      let merchant : s.row.id_merchant ≡ user.id_merchant = (eq_iff _ _).0 own in
      (ap some same, subst (λ x. x.row.id_merchant ≡ user.id_merchant) same merchant, world)

  -- Where `findOne` returns, it has found such a sale and changed nothing.
  pub find_one-ok :
      (w w' : World) (t : FullTransaction)
      → find_one prisma user id w ≡ (ok t, w')
      → IsFound t w.db × (w'.db ≡ w.db)
  unfolding find_one find_full
  find_one-ok w w' t h =
      let (o, v, found, rest) = bind-ok _ _ w h in
      let (e, same) = read-ok prisma _ w v o found in
      let (is, own, world) = check_own-ok o t v w' rest in
      let (row, details) = full-row w.db _ t (e ∙ is) in
      let (fits, listed) = prisma.find-some _ _ t.row row in
      (
        record { found = row; listed = listed; fits = fits; own = own; details = details },
        ap (λ x. x.db) world ∙ same,
      )
