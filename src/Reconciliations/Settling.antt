-- ===== src/Reconciliations/Settling.antt =====
-- The rows that resolving a dispute writes.
use Prim.Native.String.{◌++◌}
use k_pos_be.Common.{
  ℕ, String, Bool, not, true, false, ◌≡◌, refl, Option, none, some, arith, subst, ◌==◌, ◌⊎◌, inl,
  inr,
}
use k_pos_be.Schema.{
  Db, Table, Payment, Transaction, Reconciliation, ReconciliationStatus, PaymentStatus, is_voided,
  reconciliations, payments, transactions,
}
use k_pos_be.User.{JwtPayload}
use k_pos_be.Prisma.{Prisma}
use k_pos_be.Prisma.Action.{World, ok, branch, transaction, pure, when, now, update, ◌>>=◌, ◌>>◌}
use k_pos_be.Prisma.Inversion.{bind-ok}
use k_pos_be.Prisma.Steps.{pure-ok, now-ok, update-ok, transaction-ok, IsUpdated}
use k_pos_be.Transactions.{with_id, mark_voided}
use k_pos_be.Reconciliations.{Case, close_case, void_linked, invalidate}

module _ (prisma : Prisma) (id : String) (user : JwtPayload) where
  -- The case with the id is closed with the note, by the caller, and is what is returned.
  abbrev pub IsClosed : String → ReconciliationStatus → Reconciliation → Db → Db → Type 0
  IsClosed note status r db db' =
      (at : ℕ) × IsUpdated prisma reconciliations (λ c. c.id_reconciliation == id)
        (λ c. record c {
          resolution_note = some note;
          status = status;
          resolved_by = some user.sub;
          resolved_at = some at;
        })
        r db db'

  -- The sale, if there is one that is not voided, is voided by the caller; nothing else changes.
  abbrev pub IsLinkVoided : Option Transaction → Db → Db → Type 0
  IsLinkVoided none db db' = db' ≡ db
  IsLinkVoided (some t) db db' =
      ((is_voided t.status ≡ true) × (db' ≡ db))
      ⊎ ((is_voided t.status ≡ false)
          × (at : ℕ) × (s : Transaction) × IsUpdated prisma transactions (with_id t.id_transaction)
              (mark_voided at user.sub (
                "Payment reconciled as INVALID. Recon ID: "
                ++ (id ++ ". Goods already delivered — stock unchanged.")))
              s db db')

  -- The case is closed as invalid, then its payment is failed, then its sale is voided.
  pub record IsInvalidated (note : String) (c : Case) (r : Reconciliation) (db db' : Db)
      : Type 0 where
    pub first : Db
    pub second : Db
    pub payment : Payment
    pub closed : IsClosed note ReconciliationStatus.resolved_invalid r db first
    pub failed :
        IsUpdated prisma payments
          (λ p. p.id_payment == c.row.id_payment)
          (λ p. record p { status = PaymentStatus.failed })
          payment
          first
          second
    pub voided : IsLinkVoided c.transaction_row second db'

  abbrev pub IsSettledCase : Bool → String → Case → Reconciliation → Db → Db → Type 0
  IsSettledCase true note c r db db' = IsClosed note ReconciliationStatus.resolved_valid r db db'
  IsSettledCase false note c r db db' = IsInvalidated note c r db db'

  from-start :
      {R : Type 0} {t : Table R} {q : R → Bool} {f : R → R} {r : R} {a b c : Db}
      → a ≡ b
      → IsUpdated prisma t q f r a c
      → IsUpdated prisma t q f r b c
  from-start {R} {t} {q} {f} {r} {a} {b} {c} e u = subst (λ x. IsUpdated prisma t q f r x c) e u

  close-IsClosed :
      (note : String) (s : ReconciliationStatus) (w w' : World) (r : Reconciliation)
      → close_case prisma id user note s w ≡ (ok r, w')
      → IsClosed note s r w.db w'.db
  unfolding close_case
  close-IsClosed note s w w' r h =
      let (at, v, e, h1) = bind-ok _ _ w h in
      (at, from-start (now-ok prisma w v at e) (update-ok prisma reconciliations _ _ v w' r h1))

  linked-IsLinkVoided :
      (o : Option Transaction) (w w' : World)
      → void_linked prisma id user o w ≡ (ok tt, w')
      → IsLinkVoided o w.db w'.db
  unfolding void_linked when branch pure
  linked-IsLinkVoided none w w' h = ground arith
  linked-IsLinkVoided (some t) w w' h = go (is_voided t.status) refl h
    where
      marked : ℕ → Transaction → Transaction
      marked at = mark_voided at user.sub (
          "Payment reconciled as INVALID. Recon ID: "
          ++ (id ++ ". Goods already delivered — stock unchanged."))

      go :
          (b : Bool)
          → is_voided t.status ≡ b
          → when
              (not b)
              (now prisma >>= λ at.
                update prisma transactions (with_id t.id_transaction) (marked at) >> pure tt)
              w
            ≡ (ok tt, w')
          → IsLinkVoided (some t) w.db w'.db
      go true e h = inl (e, ground arith)
      go false e h =
          let (at, v, e1, h1) = bind-ok _ _ w h in
          let (s, v1, e2, h2) = bind-ok _ _ v h1 in
          let (_, last) = pure-ok tt tt v1 w' h2 in
          inr (
            e,
            at,
            s,
            from-start (now-ok prisma w v at e1) (
                update-ok prisma transactions (with_id t.id_transaction) (marked at) v w' s
                  (rw (← last) e2)),
          )

  invalidate-IsInvalidated :
      (note : String) (c : Case) (w w' : World) (r : Reconciliation)
      → invalidate prisma id user note c w ≡ (ok r, w')
      → IsInvalidated note c r w.db w'.db
  unfolding invalidate pure
  invalidate-IsInvalidated note c w w' r h =
      let (u, v, e, h1) = bind-ok _ _ w h in
      let (p, v1, e1, h2) = bind-ok _ _ v h1 in
      let (_, v2, e2, h3) = bind-ok _ _ v1 h2 in
      let same : u ≡ r = ground arith in
      let last : v2 ≡ w' = ground arith in
      record {
        first = v.db;
        second = v1.db;
        payment = p;
        closed = close-IsClosed note _ w v r (rw (← same) e);
        failed = update-ok prisma payments _ _ v v1 p e1;
        voided = linked-IsLinkVoided c.transaction_row v1 w' (rw (← last) e2);
      }

  pub settle-IsSettledCase :
      (note : String) (c : Case) (b : Bool) (w w' : World) (r : Reconciliation)
      → branch b
          (close_case prisma id user note ReconciliationStatus.resolved_valid)
          (transaction (invalidate prisma id user note c))
          w
        ≡ (ok r, w')
      → IsSettledCase b note c r w.db w'.db
  unfolding branch
  settle-IsSettledCase note c true w w' r h = close-IsClosed note _ w w' r h
  settle-IsSettledCase note c false w w' r h =
      invalidate-IsInvalidated note c w w' r (transaction-ok _ w w' r h)
