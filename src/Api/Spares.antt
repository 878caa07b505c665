-- ===== src/Api/Spares.antt =====
-- What the requests of callers who are not owners write: the parts that they spare.
use k_pos_be.Common.{refl, ap, String, []}
use k_pos_be.Schema.{Db, products, inventory, stock_history, transactions, reconciliations}
use k_pos_be.User.{JwtPayload}
use k_pos_be.Prisma.{Prisma}
use k_pos_be.Prisma.Keeps.{Keeps, Keeps-bind, Keeps-pure, Keeps-Yields, keeps_rules}
use k_pos_be.Prisma.Kept.{IsKept, IsKept-preorder, IsApart, Kept-create, Kept-update}
use k_pos_be.Inventory.{AdjustInventoryParams, adjust_inventory_and_history}
use k_pos_be.Transactions.{void_transaction, find_one}
use k_pos_be.Reconciliations.{
  CreateReconciliationDto, find_with_payment, open_reconciliation, create_reconciliation,
}
use k_pos_be.System.Catalogue.{AllowsCatalogue}
use k_pos_be.Api.Reads.{find_one-Reads}

-- Accounts, merchants, cash registers, the lines and payments of sales, corrections, failed entries and
-- refresh tokens: all but catalogue, stock, sales and cases.
abbrev pub owners_part : Db → Db
owners_part db = record db {
  products = [];
  inventory = [];
  stock_history = [];
  transactions = [];
  reconciliations = [];
}

abbrev pub Spares : Db → Db → Type 0
Spares = IsKept owners_part

pub products-IsApart : IsApart owners_part products
products-IsApart = record { same = λ rows db. refl }

pub inventory-IsApart : IsApart owners_part inventory
inventory-IsApart = record { same = λ rows db. refl }

pub stock_history-IsApart : IsApart owners_part stock_history
stock_history-IsApart = record { same = λ rows db. refl }

pub transactions-IsApart : IsApart owners_part transactions
transactions-IsApart = record { same = λ rows db. refl }

pub reconciliations-IsApart : IsApart owners_part reconciliations
reconciliations-IsApart = record { same = λ rows db. refl }

pub ruleset spare_rules = (
  IsKept-preorder, keeps_rules, Kept-create, Kept-update, products-IsApart, inventory-IsApart,
  stock_history-IsApart, transactions-IsApart, reconciliations-IsApart,
)

module _ (prisma : Prisma) where
  adjust-Spares :
      (params : AdjustInventoryParams) → Keeps Spares (adjust_inventory_and_history prisma params)
  unfolding adjust_inventory_and_history
  adjust-Spares params = search spare_rules depth 12

  pub catalogue-Spares : AllowsCatalogue prisma Spares
  catalogue-Spares = record {
    pre = IsKept-preorder owners_part;
    adjusts = λ params. Keeps-Yields (adjust-Spares params);
    stocks = λ i e. Kept-create owners_part prisma inventory inventory-IsApart i;
    lists = λ p. Kept-create owners_part prisma products products-IsApart p;
    edits = λ q f. Kept-update owners_part prisma products products-IsApart q f;
  }

  find_one-Spares : (user : JwtPayload) (id : String) → Keeps Spares (find_one prisma user id)
  find_one-Spares user id = record {
    at = λ w. ap owners_part ((find_one-Reads prisma user id).at w);
  }

  pub void-Spares :
      (user : JwtPayload) (id reason : String)
      → Keeps Spares (void_transaction prisma user id reason)
  unfolding void_transaction
  void-Spares user id reason = search (find_one-Spares, spare_rules) depth 14

  pub case-Spares :
      (user : JwtPayload) (dto : CreateReconciliationDto)
      → Keeps Spares (create_reconciliation prisma user dto)
  unfolding create_reconciliation find_with_payment open_reconciliation
  case-Spares user dto = search spare_rules depth 16
