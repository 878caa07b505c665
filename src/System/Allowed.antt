-- ===== src/System/Allowed.antt =====
-- What a relation has to allow for every service call to keep it: the kinds of write that the
-- services make.
use k_pos_be.Common.{Bool, ◌≡◌, List}
use k_pos_be.Common.Int.{pos}
use k_pos_be.Schema.{Db, Table, Inventory, Transaction, inventory, transactions}
use k_pos_be.Prisma.{Prisma}
use k_pos_be.Prisma.Action.{create, update, delete}
use k_pos_be.Prisma.Keeps.{IsPreorder, Keeps, Yields, Keeps-create, Keeps-update, Keeps-delete}
use k_pos_be.Inventory.{AdjustInventoryParams, adjust_inventory_and_history}
use k_pos_be.System.Asides.{IsAside}
use k_pos_be.System.Revisions.{IsRevised}

pub record Allows (prisma : Prisma) (R : Db → Db → Type 0) : Type 1 where
  pub pre : IsPreorder R
  -- the shared helper, in a transaction
  pub adjusts :
      (params : AdjustInventoryParams) → Yields R (adjust_inventory_and_history prisma params)
  -- the empty stock of a new product
  pub stocks : (i : Inventory) → i.current_stock ≡ pos 0 → Keeps R (create prisma inventory i)
  -- a new sale
  pub sells : (t : Transaction) → Keeps R (create prisma transactions t)
  -- a sale of which a status moves on, and which keeps what was recorded
  pub revises :
      (q : Transaction → Bool) (f : Transaction → Transaction)
      → ((t : Transaction) → IsRevised t (f t))
      → Keeps R (update prisma transactions q f)
  -- any write to the other tables
  pub aside :
      {A : Type 0} (t : Table A)
      → IsAside t
      → (rows : List A) (db : Db) → R db (t.with_rows rows db)

module _ {prisma : Prisma} {R : Db → Db → Type 0} (allows : Allows prisma R) {A : Type 0}
    (t : Table A) (e : IsAside t) where
  pub Aside-create : (r : A) → Keeps R (create prisma t r)
  Aside-create r = Keeps-create allows.pre prisma t r (λ db. allows.aside t e _ db)

  pub Aside-update : (q : A → Bool) (f : A → A) → Keeps R (update prisma t q f)
  Aside-update q f = Keeps-update allows.pre prisma t q f (λ db r rows _. allows.aside t e rows db)

  pub Aside-delete : (q : A → Bool) → Keeps R (delete prisma t q)
  Aside-delete q = Keeps-delete allows.pre prisma t q (λ db rows _. allows.aside t e rows db)
