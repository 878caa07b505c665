-- ===== src/Inventory/Elsewhere.antt =====
-- Writes to the other tables leave every stock level and the audit trail alone.
use k_pos_be.Common.{String, Bool, ◌≡◌, refl, List}
use k_pos_be.Schema.{
  Db, Table, users, merchants, devices, products, transactions, details, payments, corrections,
  sync_queue, refresh_tokens, reconciliations,
}
use k_pos_be.Prisma.{Prisma}
use k_pos_be.Prisma.Action.{create, update, delete}
use k_pos_be.Prisma.Keeps.{
  keeps_rules, Keeps, Keeps-create, Keeps-update, Keeps-delete, Keeps-pure, Keeps-throw, Keeps-lift,
  Keeps-bind, Keeps-or_throw, Keeps-branch, Keeps-throw_if, Keeps-when, Keeps-for_each,
  Keeps-try_catch, Keeps-now, Keeps-fresh_id, Keeps-find_first, Keeps-find_all, Keeps-transaction,
  Keeps-Yields, Keeps-read, Yields-bind, Yields-for_each,
}
use k_pos_be.Inventory.Ledger.{stock, logged, stock_in, IsUnmoved, IsUnmoved-preorder}

-- A table other than the two that the ledger reads.
pub record IsElsewhere {R : Type 0} (t : Table R) : Type 0 where
  pub stock_kept : (rows : List R) (db : Db) → (t.with_rows rows db).inventory ≡ db.inventory
  pub history_kept :
      (rows : List R) (db : Db) → (t.with_rows rows db).stock_history ≡ db.stock_history

pub users-IsElsewhere : IsElsewhere users
users-IsElsewhere = record { stock_kept = λ rows db. refl; history_kept = λ rows db. refl }

pub merchants-IsElsewhere : IsElsewhere merchants
merchants-IsElsewhere = record { stock_kept = λ rows db. refl; history_kept = λ rows db. refl }

pub devices-IsElsewhere : IsElsewhere devices
devices-IsElsewhere = record { stock_kept = λ rows db. refl; history_kept = λ rows db. refl }

pub products-IsElsewhere : IsElsewhere products
products-IsElsewhere = record { stock_kept = λ rows db. refl; history_kept = λ rows db. refl }

pub transactions-IsElsewhere : IsElsewhere transactions
transactions-IsElsewhere = record { stock_kept = λ rows db. refl; history_kept = λ rows db. refl }

pub details-IsElsewhere : IsElsewhere details
details-IsElsewhere = record { stock_kept = λ rows db. refl; history_kept = λ rows db. refl }

pub payments-IsElsewhere : IsElsewhere payments
payments-IsElsewhere = record { stock_kept = λ rows db. refl; history_kept = λ rows db. refl }

pub corrections-IsElsewhere : IsElsewhere corrections
corrections-IsElsewhere = record { stock_kept = λ rows db. refl; history_kept = λ rows db. refl }

pub sync_queue-IsElsewhere : IsElsewhere sync_queue
sync_queue-IsElsewhere = record { stock_kept = λ rows db. refl; history_kept = λ rows db. refl }

pub refresh_tokens-IsElsewhere : IsElsewhere refresh_tokens
refresh_tokens-IsElsewhere = record { stock_kept = λ rows db. refl; history_kept = λ rows db. refl }

pub reconciliations-IsElsewhere : IsElsewhere reconciliations
reconciliations-IsElsewhere = record {
  stock_kept = λ rows db. refl;
  history_kept = λ rows db. refl;
}

module _ (p : String) (prisma : Prisma) where
  module _ {R : Type 0} (t : Table R) (e : IsElsewhere t) where
    with_rows-IsUnmoved : (rows : List R) (db : Db) → IsUnmoved p db (t.with_rows rows db)
    unfolding stock logged
    with_rows-IsUnmoved rows db = (rw (e.stock_kept rows db), rw (e.history_kept rows db))

    pub Unmoved-create : (r : R) → Keeps (IsUnmoved p) (create prisma t r)
    Unmoved-create r =
        Keeps-create (IsUnmoved-preorder p) prisma t r (λ db. with_rows-IsUnmoved _ db)

    pub Unmoved-update : (q : R → Bool) (f : R → R) → Keeps (IsUnmoved p) (update prisma t q f)
    Unmoved-update q f =
        Keeps-update (IsUnmoved-preorder p) prisma t q f
          (λ db r rows _. with_rows-IsUnmoved rows db)

    pub Unmoved-delete : (q : R → Bool) → Keeps (IsUnmoved p) (delete prisma t q)
    Unmoved-delete q =
        Keeps-delete (IsUnmoved-preorder p) prisma t q (λ db rows _. with_rows-IsUnmoved rows db)

pub ruleset unmoved_rules = (
  IsUnmoved-preorder, keeps_rules, Unmoved-create, Unmoved-update, Unmoved-delete,
  users-IsElsewhere, merchants-IsElsewhere, devices-IsElsewhere, products-IsElsewhere,
  transactions-IsElsewhere, details-IsElsewhere, payments-IsElsewhere, corrections-IsElsewhere,
  sync_queue-IsElsewhere, refresh_tokens-IsElsewhere, reconciliations-IsElsewhere,
)
