-- ===== src/Transactions/Corrected.antt =====
-- What correcting a sale leaves behind.
use k_pos_be.Common.{◌≡◌, String, true, Option, none, some, arith, ◌∙◌, ap, subst, List}
use k_pos_be.Common.Int.{ℤ, neg, pos, ◌+ℤ◌, int_laws}
use k_pos_be.Schema.{DetailTransaction, Payment, Transaction, TransactionCorrection, is_confirmed}
use k_pos_be.User.{JwtPayload}
use k_pos_be.Prisma.{Prisma}
use k_pos_be.Prisma.Action.{World, ok}
use k_pos_be.Prisma.Inversion.{bind-ok}
use k_pos_be.Prisma.Keeps.{Keeps, Yields, Keeps-Yields, Yields-then, Yields-transaction}
use k_pos_be.Prisma.Steps.{throw_if-ok}
use k_pos_be.Inventory.Ledger.{IsUnmoved, Moved, Yields-before, Yields-after}
use k_pos_be.Inventory.Elsewhere.{unmoved_rules}
use k_pos_be.Inventory.Each.{total_share, for_each-Moved}
use k_pos_be.Transactions.{FullTransaction, CorrectItemDto, CorrectTransactionDto}
use k_pos_be.Transactions.Correction.{
  reverted, revert_old_stock, create_new_transaction, corrected, create_details_and_deduct_stock,
  create_corrected_detail, clone_of, clone_payment, mark_old_as_voided_and_bridge, correct_body,
  correct_transaction,
}
use k_pos_be.Transactions.Lookup.{IsFound, find_one-ok}

-- what comes back with the old lines
abbrev pub returned : String → List DetailTransaction → ℤ
returned p = total_share p (λ d. d.id_product) (λ d. pos d.quantity)

-- what goes with the new lines
abbrev pub resold : String → List CorrectItemDto → ℤ
resold p = total_share p (λ d. d.id_product) (λ d. neg d.quantity)

module _ (prisma : Prisma) (p : String) where
  clone-IsUnmoved :
      (tx : Transaction) (id : String) (dto : CorrectTransactionDto) (o : Option Payment)
      → Keeps (IsUnmoved p) (clone_of prisma tx id dto o)
  unfolding clone_of
  clone-IsUnmoved tx id dto none = search unmoved_rules
  clone-IsUnmoved tx id dto (some payment) = search unmoved_rules depth 12

  new-IsUnmoved :
      (tx : Transaction) (dto : CorrectTransactionDto)
      → Keeps (IsUnmoved p) (create_new_transaction prisma tx dto)
  unfolding create_new_transaction
  new-IsUnmoved tx dto = search unmoved_rules depth 12

  bridge-IsUnmoved :
      (old new by reason : String)
      → Keeps (IsUnmoved p) (mark_old_as_voided_and_bridge prisma old new by reason)
  unfolding mark_old_as_voided_and_bridge
  bridge-IsUnmoved old new by reason = search unmoved_rules depth 12

  lines-Moved :
      (tx : Transaction) (dto : CorrectTransactionDto) (by : String)
      → Yields (Moved p (resold p dto.items)) (create_details_and_deduct_stock prisma tx dto by)
  unfolding create_details_and_deduct_stock create_corrected_detail
  lines-Moved tx dto by =
      Yields-after p _ _ _ _ (Keeps-Yields (search unmoved_rules depth 12))
        λ _. for_each-Moved p prisma (corrected prisma tx by dto.reason) dto.items

  module _ (user : JwtPayload) (t : FullTransaction) (dto : CorrectTransactionDto) where
    body-Moved :
        Yields
          (Moved p (returned p t.details +ℤ resold p dto.items))
          (correct_body prisma user t dto)
    unfolding correct_body revert_old_stock clone_payment
    body-Moved =
        Yields-then (λ a b c h k. (rw (k.0, h.0) (omega int_laws), rw (k.1, h.1) (omega int_laws)))
          _ _ (for_each-Moved p prisma (reverted prisma t.row user.sub dto.reason) t.details)
          λ _. Yields-after p _ _ _ _ (Keeps-Yields (new-IsUnmoved t.row dto)) λ tx.
            Yields-before p _ _ _ _ (lines-Moved tx dto user.sub)
              λ _. Keeps-Yields (search (unmoved_rules, clone-IsUnmoved, bridge-IsUnmoved) depth 12)

  -- Where `correctTransaction` returns, a CONFIRMED sale of the caller's merchant was found, and the
  -- stock of every product and its audit trail have moved by what the old lines bring back less what
  -- the new lines sell.
  pub correct_transaction_lem :
      (user : JwtPayload) (id : String) (dto : CorrectTransactionDto) (w w' : World)
      (c : TransactionCorrection)
      → correct_transaction prisma user id dto w ≡ (ok c, w')
      → (t : FullTransaction) × IsFound prisma user id t w.db
        × (is_confirmed t.row.status ≡ true)
        × Moved p (returned p t.details +ℤ resold p dto.items) w.db w'.db
  unfolding correct_transaction
  correct_transaction_lem user id dto w w' c h =
      let (t, v, found, h1) = bind-ok _ _ w h in
      let (is, same) = find_one-ok prisma user id w v t found in
      let (_, v1, e1, h2) = bind-ok _ _ v h1 in
      let (confirmed, w1) = throw_if-ok _ _ v v1 e1 in
      (
        t,
        is,
        ground arith,
        subst (λ x. Moved p (returned p t.details +ℤ resold p dto.items) x w'.db)
            (ap (λ x. x.db) w1 ∙ same) ((Yields-transaction (body-Moved user t dto)).at v1 c w' h2),
      )
