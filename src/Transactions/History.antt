-- ===== src/Transactions/History.antt =====
-- src/modules/transactions/transactions.service.ts, `getTransactionHistory`: up the corrections to the
-- first sale, then down them to the last. Both loops run on fuel, and `none` says that it ran out.
pub mod Ends
use k_pos_be.Common.{
  ℕ, zero, suc, String, Option, none, some, List, [], ◌∷◌, ◌==◌, is_empty, if◌then◌else◌,
}
use k_pos_be.Schema.{Db, Transaction, TransactionCorrection, corrections}
use k_pos_be.User.{JwtPayload}
use k_pos_be.Prisma.{Prisma}
use k_pos_be.Prisma.Action.{Action, pure, ◌>>=◌, find_first, read}
use k_pos_be.Transactions.{FullTransaction, with_id, with_relations, find_one}

-- `correction_metadata`
pub record CorrectionMetadata : Type 0 where
  pub reason : String
  pub corrected_at : ℕ
  pub corrected_by : String

pub record HistoryEntry : Type 0 where
  pub transaction_row : FullTransaction
  pub correction_metadata : Option CorrectionMetadata

abbrev pub metadata_of : Option TransactionCorrection → Option CorrectionMetadata
metadata_of none = none
metadata_of (some c) =
    some (record { reason = c.reason; corrected_at = c.created_at; corrected_by = c.corrected_by })

-- `nextCorrection ? nextCorrection.id_new_transaction : null`, for `while (currentId)`
abbrev pub next_id : Option TransactionCorrection → Option String
next_id none = none
next_id (some c) = if is_empty c.id_new_transaction then none else some c.id_new_transaction

abbrev pub prepend : HistoryEntry → Option (List HistoryEntry) → Option (List HistoryEntry)
prepend entry none = none
prepend entry (some entries) = some (entry ∷ entries)

module _ (prisma : Prisma) where
  abbrev pub climb_on :
      (String → Action (Option String))
      → String
      → Option TransactionCorrection
      → Action (Option String)
  climb_on go id none = pure (some id)
  climb_on go id (some c) = go c.id_old_transaction

  -- the first loop
  unfoldable pub find_root : ℕ → String → Action (Option String)
  find_root zero id = pure none
  find_root (suc n) id =
      find_first prisma corrections (λ c. c.id_new_transaction == id) >>= climb_on (find_root n) id

  unfoldable pub find_with_id : String → Action (Option FullTransaction)
  find_with_id id =
      read prisma λ db. with_relations prisma db (prisma.find (with_id id) db.transactions)

  abbrev pub on_from :
      (String → Action (Option (List HistoryEntry)))
      → Option String
      → Action (Option (List HistoryEntry))
  on_from go none = pure (some [])
  on_from go (some id) = go id

  abbrev pub follow_from :
      (String → Action (Option (List HistoryEntry)))
      → String
      → Option FullTransaction
      → Action (Option (List HistoryEntry))
  follow_from go id none = pure (some [])
  follow_from go id (some tx) =
      find_first prisma corrections (λ c. c.id_old_transaction == id) >>= λ next.
      on_from go (next_id next) >>= λ rest.
      pure (prepend (record { transaction_row = tx; correction_metadata = metadata_of next }) rest)

  -- the second loop, from a sale on
  unfoldable pub follow : ℕ → String → Action (Option (List HistoryEntry))
  unfolding find_with_id
  follow zero id = pure none
  follow (suc n) id = find_with_id id >>= follow_from (follow n) id

  abbrev pub follow_root : ℕ → Option String → Action (Option (List HistoryEntry))
  follow_root fuel none = pure none
  follow_root fuel (some root) = on_from (follow fuel) (if is_empty root then none else some root)

  unfoldable pub get_transaction_history :
      ℕ → JwtPayload → String → Action (Option (List HistoryEntry))
  get_transaction_history fuel user id = find_one prisma user id >>= λ initial.
      find_root fuel initial.row.id_transaction >>= follow_root fuel
