-- ===== src/Tenant.antt =====
-- What the lists and the single rows that a caller is shown have to do with the caller's merchant.
use mathlib.Core.List.{exists_of_mem-map, mem-cons_self, mem-cons_of_mem}
use k_pos_be.Common.{
  ◌≡◌, refl, ◌∙◌, ap, sym, subst, String, Bool, true, false, Option, none, some, List, [], ◌∷◌, Mem,
  any, ◌&&◌, eq_iff, ∥∥₁_elim, Bool-cases, inl, inr, not-false,
}
use k_pos_be.Schema.{Db, Payment, PaymentStatus, Reconciliation, Device, SyncQueue}
use k_pos_be.User.{JwtPayload}
use mathlib.Core.Bool.{Bool-set}
use k_pos_be.Prisma.{Prisma}
use k_pos_be.Prisma.Action.{World, ok}
use k_pos_be.Prisma.Queries.{ordered-fits}
use k_pos_be.Prisma.Inversion.{bind-ok, read-ok}
use k_pos_be.Prisma.Steps.{or_throw-ok, throw_if-ok, pure-ok}
use k_pos_be.Payments.{FullPayment, payment_rows, payment_with_relations, find_one_payment}
use k_pos_be.Reconciliations.Lists.{case_rows}
use k_pos_be.Sync.FailedQueues.{is_failed_entry, failed_rows}

and-true : (a b : Bool) → (a && b) ≡ true → (a ≡ true) × (b ≡ true)
and-true true b h = (refl, h)
and-true false b h = cc

-- an item that fits, and that makes `any` true
any-item :
    {A : Type 0} (p : A → Bool) (xs : List A) → any p xs ≡ true → (x : A) × Mem x xs × (p x ≡ true)
any-item p [] h = cc
any-item p (x ∷ xs) h = elim (Bool-cases (p x)) [
  | inl e ↦ (x, mem-cons_self, e)
  | inr e ↦ let (y, m, f) = any-item p xs (rw e at h) in (y, mem-cons_of_mem x m, f)
]

-- a payment to the merchant that the case is about
abbrev pub IsAbout : String → Db → Reconciliation → Type 0
IsAbout merchant db r =
    (p : Payment) × Mem p db.payments × (p.id_payment ≡ r.id_payment) × (p.id_merchant ≡ merchant)

-- a register of the merchant that the entry came from
abbrev pub IsSentBy : String → Db → SyncQueue → Type 0
IsSentBy merchant db q =
    (d : Device) × Mem d db.devices × (d.id_device ≡ q.id_device) × (d.id_merchant ≡ merchant)

module _ (prisma : Prisma) (user : JwtPayload) (db : Db) where
  payments-own :
      (status : Option PaymentStatus) (f : FullPayment)
      → Mem f (payment_rows prisma user status db)
      → f.row.id_merchant ≡ user.id_merchant
  unfolding payment_rows
  payments-own status f m = (eq_iff _ _).0 (
      ∥∥₁_elim (exists_of_mem-map m) (Bool-set _ _) λ s.
        let fits = ordered-fits prisma "created_at" _ db.payments s.0 s.1 in
        rw (← s.2) (and-true _ _ fits).0)

  cases-own :
      (r : Reconciliation) → Mem r (case_rows prisma user db) → IsAbout user.id_merchant db r
  unfolding case_rows
  cases-own r m =
      let (p, listed, fits) =
        any-item _ db.payments (ordered-fits prisma "created_at" _ db.reconciliations r m) in
      let (same, own) = and-true _ _ fits in (p, listed, (eq_iff _ _).0 same, (eq_iff _ _).0 own)

  entries-own :
      (q : SyncQueue) → Mem q (failed_rows prisma user db) → IsSentBy user.id_merchant db q
  unfolding failed_rows is_failed_entry
  entries-own q m =
      let fits = ordered-fits prisma "updated_at" _ db.sync_queue q m in
      let (d, listed, both) = any-item _ db.devices (and-true _ _ fits).1 in
      let (same, own) = and-true _ _ both in (d, listed, (eq_iff _ _).0 same, (eq_iff _ _).0 own)

  -- The lists of payments, of cases and of failed queue entries show the caller payments to the
  -- caller's merchant, cases about such payments, and entries of that merchant's registers, no others.
  pub lists-own :
      (status : Option PaymentStatus)
      → ((f : FullPayment)
          → Mem f (payment_rows prisma user status db)
          → f.row.id_merchant ≡ user.id_merchant)
        × ((r : Reconciliation) → Mem r (case_rows prisma user db) → IsAbout user.id_merchant db r)
        × ((q : SyncQueue) → Mem q (failed_rows prisma user db) → IsSentBy user.id_merchant db q)
  lists-own status = (payments-own status, cases-own, entries-own)

module _ (prisma : Prisma) (user : JwtPayload) (id : String) where
  payment-row :
      (db : Db) (o : Option Payment) (f : FullPayment)
      → payment_with_relations prisma db o ≡ some f
      → o ≡ some f.row
  payment-row db none f e = cc
  payment-row db (some p) f e = ap some (ap (λ (x : Option FullPayment). row_of x) e)
    where
      row_of : Option FullPayment → Payment
      row_of none = p
      row_of (some g) = g.row

  -- A payment that `findOne` returns is stored, has the id that was asked for, and was paid to the
  -- caller's merchant; the database is as it was.
  pub find_one_payment_lem :
      (w w' : World) (f : FullPayment)
      → find_one_payment prisma user id w ≡ (ok f, w')
      → Mem f.row w.db.payments
        × (f.row.id_payment ≡ id)
        × (f.row.id_merchant ≡ user.id_merchant)
        × (w'.db ≡ w.db)
  unfolding find_one_payment
  find_one_payment_lem w w' f h =
      let (o, a, e₁, h₁) = bind-ok _ _ w h in
      let (found, same₁) = read-ok prisma _ w a o e₁ in
      let (g, b, e₂, h₂) = bind-ok _ _ a h₁ in
      let (some_row, same₂) = or_throw-ok _ _ a b g e₂ in
      let (_, c, e₃, h₃) = bind-ok _ _ b h₂ in
      let (own, same₃) = throw_if-ok _ _ b c e₃ in
      let (answer, end) = pure-ok g f c w' h₃ in
      let (named, listed) = prisma.find-some _ _ g.row (payment-row w.db _ g (found ∙ some_row)) in
      let same : w'.db ≡ w.db =
        ap (λ x. x.db) (sym end) ∙ ap (λ x. x.db) same₃ ∙ ap (λ x. x.db) same₂ ∙ same₁ in
      subst
        (λ (x : FullPayment).
          Mem x.row w.db.payments
          × (x.row.id_payment ≡ id)
          × (x.row.id_merchant ≡ user.id_merchant)
          × (w'.db ≡ w.db))
        answer (listed, (eq_iff _ _).0 named, (eq_iff _ _).0 (not-false own), same)
