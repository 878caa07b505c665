-- ===== src/Transactions/Conflicts.antt =====
-- What resolving a synchronisation conflict leaves behind.
use Prim.Native.String.{◌++◌}
use k_pos_be.Common.{
  ℕ, ◌≡◌, String, true, Option, some, arith, ◌∙◌, ap, subst, List, ◌∷◌, Perm, eq_iff, or_else, trim,
}
use k_pos_be.Common.Int.{ℤ, neg}
use k_pos_be.Schema.{
  Db, Transaction, DetailTransaction, TransactionStatus, SyncStatus, is_conflict, transactions,
}
use k_pos_be.User.{JwtPayload}
use k_pos_be.Prisma.{Prisma}
use k_pos_be.Prisma.Action.{World, ok}
use k_pos_be.Prisma.Inversion.{bind-ok}
use k_pos_be.Prisma.Keeps.{Keeps, Yields, Keeps-Yields, Yields-transaction}
use k_pos_be.Prisma.Steps.{throw_if-ok, now-ok, update-ok, transaction-ok, IsUpdated}
use k_pos_be.Prisma.Kept.{IsKept, sales, kept_rules}
use k_pos_be.Inventory.{adjust_inventory_and_history}
use k_pos_be.Inventory.Ledger.{IsUnmoved, Moved, Yields-before}
use k_pos_be.Inventory.Elsewhere.{unmoved_rules}
use k_pos_be.Inventory.Each.{total_share, for_each-Moved}
use k_pos_be.Transactions.{
  FullTransaction, ConflictAction, confirm, void, ResolveConflictDto, mark_as_confirmed, with_id,
  force_resolve_inventory, forced_sale, resolve_by, resolve_conflict,
}
use k_pos_be.Transactions.Lookup.{IsFound, find_one-ok}

-- what the lines of a sale take from a product
abbrev pub withdrawn : String → List DetailTransaction → ℤ
withdrawn p = total_share p (λ d. d.id_product) (λ d. neg d.quantity)

-- The row that is returned, and the stock: CONFIRM takes the goods of the sale from the stock,
-- VOID leaves it.
abbrev pub IsResolved : ConflictAction → String → FullTransaction → Transaction → Db → Db → Type 0
IsResolved confirm p t r db db' =
    (r.status ≡ TransactionStatus.confirmed)
    × (r.sync_status ≡ SyncStatus.synced)
    × Moved p (withdrawn p t.details) db db'
IsResolved void p t r db db' =
    (r.status ≡ TransactionStatus.voided) × (r.sync_status ≡ SyncStatus.synced) × IsUnmoved p db db'

-- the row that the action makes of a sale, at an instant
abbrev pub settled_row : ConflictAction → ℕ → JwtPayload → Option String → Transaction → Transaction
settled_row confirm at user notes t = record t {
  status = TransactionStatus.confirmed;
  sync_status = SyncStatus.synced;
  confirmed_at = some at;
}
settled_row void at user notes t = record t {
  status = TransactionStatus.voided;
  sync_status = SyncStatus.synced;
  voided_at = some at;
  voided_by = some user.sub;
  void_reason = some (trim ("Conflict resolved by OWNER (voided). " ++ or_else notes ""));
}

module _ (prisma : Prisma) (user : JwtPayload) where
  -- Among the sales, the one with the id of the sale found is the settled row, which is what is
  -- returned, and every other is as it was.
  pub record IsSettledSale (action : ConflictAction) (notes : Option String) (t : FullTransaction)
      (r : Transaction) (db db' : Db) : Type 0 where
    pub at : ℕ
    pub old : Transaction
    pub others : List Transaction
    pub named : old.id_transaction ≡ t.row.id_transaction
    pub returned : r ≡ settled_row action at user notes old
    pub before : Perm db.transactions (old ∷ others)
    pub after : Perm db'.transactions (r ∷ others)

  settled-of :
      (action : ConflictAction) (notes : Option String) (t : FullTransaction) (at : ℕ)
      (r : Transaction) (db mid db' : Db)
      → mid.transactions ≡ db.transactions
      → IsUpdated prisma transactions
          (with_id t.row.id_transaction)
          (settled_row action at user notes)
          r
          mid
          db'
      → IsSettledSale action notes t r db db'
  settled-of action notes t at r db mid db' same u = record {
    at = at;
    old = u.row;
    others = u.rest;
    named = (eq_iff _ _).0 u.fits;
    returned = u.value;
    before = subst (λ ts. Perm ts (u.row ∷ u.rest)) same u.before;
    after = rw (u.written, u.value) u.after;
  }

  force-IsKept :
      (t : FullTransaction) (by : String) (notes : Option String)
      → Keeps (IsKept sales) (force_resolve_inventory prisma t by notes)
  unfolding force_resolve_inventory adjust_inventory_and_history
  force-IsKept t by notes = search kept_rules depth 14

  resolve_by-IsSettledSale :
      (action : ConflictAction) (t : FullTransaction) (notes : Option String) (w w' : World)
      (r : Transaction)
      → resolve_by prisma action user t notes w ≡ (ok r, w')
      → IsSettledSale action notes t r w.db w'.db
  unfolding resolve_by mark_as_confirmed
  resolve_by-IsSettledSale confirm t notes w w' r h =
      let (_, v, e, h1) = bind-ok _ _ w (transaction-ok _ w w' r h) in
      let (at, v1, e1, h2) = bind-ok _ _ v h1 in
      let kept = (Keeps-Yields (force-IsKept t user.sub notes)).at w _ v e in
      let still : v1.db ≡ v.db = now-ok prisma v v1 at e1 in
      settled-of confirm notes t at r w.db v1.db w'.db
        (ap (λ (x : Db). x.transactions) still ∙ kept)
        (update-ok prisma transactions _ _ v1 w' r h2)
  resolve_by-IsSettledSale void t notes w w' r h =
      let (at, v, e, h1) = bind-ok _ _ w h in
      settled-of void notes t at r w.db v.db w'.db
        (ap (λ (x : Db). x.transactions) (now-ok prisma w v at e))
        (update-ok prisma transactions _ _ v w' r h1)

  mark_as_confirmed-ok :
      (id : String) (w w' : World) (r : Transaction)
      → mark_as_confirmed prisma id w ≡ (ok r, w')
      → (r.status ≡ TransactionStatus.confirmed) × (r.sync_status ≡ SyncStatus.synced)
  unfolding mark_as_confirmed
  mark_as_confirmed-ok id w w' r h =
      let (at, v, e, h1) = bind-ok _ _ w h in
      let u = update-ok prisma transactions _ _ v w' r h1 in
      (ap (λ x. x.status) u.value, ap (λ x. x.sync_status) u.value)

  module _ (p : String) (t : FullTransaction) (notes : Option String) where
    confirm-Moved :
        Yields (Moved p (withdrawn p t.details)) (resolve_by prisma confirm user t notes)
    unfolding resolve_by force_resolve_inventory mark_as_confirmed
    confirm-Moved = Yields-transaction (
        Yields-before p _ _ _ _
          (for_each-Moved p prisma (forced_sale prisma t.row user.sub notes) t.details)
          (λ _. Keeps-Yields (search unmoved_rules depth 12)))

    void-IsUnmoved : Yields (IsUnmoved p) (resolve_by prisma void user t notes)
    unfolding resolve_by
    void-IsUnmoved = Keeps-Yields (search unmoved_rules depth 12)

    resolve_by-IsResolved :
        (action : ConflictAction) (w w' : World) (r : Transaction)
        → resolve_by prisma action user t notes w ≡ (ok r, w')
        → IsResolved action p t r w.db w'.db
    unfolding resolve_by
    resolve_by-IsResolved confirm w w' r h =
        let (_, v, e, h1) = bind-ok _ _ w (transaction-ok _ w w' r h) in
        let (status, sync) = mark_as_confirmed-ok t.row.id_transaction v w' r h1 in
        (status, sync, confirm-Moved.at w r w' h)
    resolve_by-IsResolved void w w' r h =
        let (at, v, e, h1) = bind-ok _ _ w h in
        let u = update-ok prisma transactions _ _ v w' r h1 in
        (ap (λ x. x.status) u.value, ap (λ x. x.sync_status) u.value, void-IsUnmoved.at w r w' h)

  -- Where `resolveConflict` returns, a sale of the caller's merchant in SYNC_CONFLICT was found. Of the
  -- stored sales one with its id is replaced by the row returned, which is that row, SYNCED and
  -- CONFIRMED, or SYNCED and VOIDED by the caller with the notes in the reason; the other sales are as
  -- they were. For every product, CONFIRM moves stock and audit trail by minus what the lines of the
  -- sale found sell, and VOID moves neither.
  pub resolve_conflict_lem :
      (p id : String) (dto : ResolveConflictDto) (w w' : World) (r : Transaction)
      → resolve_conflict prisma user id dto w ≡ (ok r, w')
      → (t : FullTransaction) × IsFound prisma user id t w.db
        × (is_conflict t.row.sync_status ≡ true)
        × IsResolved dto.action p t r w.db w'.db
        × IsSettledSale dto.action dto.notes t r w.db w'.db
  unfolding resolve_conflict
  resolve_conflict_lem p id dto w w' r h =
      let (t, v, found, h1) = bind-ok _ _ w h in
      let (is, same) = find_one-ok prisma user id w v t found in
      let (_, v1, e1, h2) = bind-ok _ _ v h1 in
      let (conflict, w1) = throw_if-ok _ _ v v1 e1 in
      (
        t,
        is,
        ground arith,
        subst (λ x. IsResolved dto.action p t r x w'.db) (ap (λ x. x.db) w1 ∙ same)
            (resolve_by-IsResolved p t dto.notes dto.action v1 w' r h2),
        subst (λ x. IsSettledSale dto.action dto.notes t r x w'.db) (ap (λ x. x.db) w1 ∙ same)
            (resolve_by-IsSettledSale dto.action t dto.notes v1 w' r h2),
      )
