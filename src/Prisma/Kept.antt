-- ===== src/Prisma/Kept.antt =====
-- Actions that leave a part of the database as it is: `μ` reads the part.
use k_pos_be.Common.{Bool, ◌≡◌, refl, ◌∙◌, List}
use k_pos_be.Schema.{
  Db, Table, Transaction, inventory, stock_history, details, payments, sync_queue, corrections,
}
use k_pos_be.Prisma.{Prisma}
use k_pos_be.Prisma.Action.{create, update}
use k_pos_be.Prisma.Keeps.{
  keeps_rules, IsPreorder, Keeps, Keeps-create, Keeps-update, Keeps-pure, Keeps-throw, Keeps-lift,
  Keeps-bind, Keeps-or_throw, Keeps-branch, Keeps-throw_if, Keeps-when, Keeps-for_each,
  Keeps-try_catch, Keeps-now, Keeps-fresh_id, Keeps-find_first, Keeps-find_all, Keeps-read,
  Keeps-transaction, Keeps-Yields,
}

module _ {X : Type 0} (μ : Db → X) where
  abbrev pub IsKept : Db → Db → Type 0
  IsKept db db' = μ db' ≡ μ db

  pub IsKept-preorder : IsPreorder IsKept
  IsKept-preorder = record { reflexive = λ db. refl; transitive = λ a b c h k. k ∙ h }

  -- The part is none of the table's.
  pub record IsApart {R : Type 0} (t : Table R) : Type 0 where
    pub same : (rows : List R) (db : Db) → μ (t.with_rows rows db) ≡ μ db

  module _ (prisma : Prisma) {R : Type 0} (t : Table R) (apart : IsApart t) where
    pub Kept-create : (r : R) → Keeps IsKept (create prisma t r)
    Kept-create r = Keeps-create IsKept-preorder prisma t r (λ db. apart.same _ db)

    pub Kept-update : (q : R → Bool) (f : R → R) → Keeps IsKept (update prisma t q f)
    Kept-update q f = Keeps-update IsKept-preorder prisma t q f (λ db r rows _. apart.same rows db)

-- the table of the sales
abbrev pub sales : Db → List Transaction
sales db = db.transactions

pub inventory-IsApart : IsApart sales inventory
inventory-IsApart = record { same = λ rows db. refl }

pub stock_history-IsApart : IsApart sales stock_history
stock_history-IsApart = record { same = λ rows db. refl }

pub details-IsApart : IsApart sales details
details-IsApart = record { same = λ rows db. refl }

pub payments-IsApart : IsApart sales payments
payments-IsApart = record { same = λ rows db. refl }

pub sync_queue-IsApart : IsApart sales sync_queue
sync_queue-IsApart = record { same = λ rows db. refl }

pub corrections-IsApart : IsApart sales corrections
corrections-IsApart = record { same = λ rows db. refl }

pub ruleset kept_rules = (
  IsKept-preorder, keeps_rules, Kept-create, Kept-update, inventory-IsApart, stock_history-IsApart,
  details-IsApart, payments-IsApart, sync_queue-IsApart, corrections-IsApart,
)
