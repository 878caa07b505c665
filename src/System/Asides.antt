-- ===== src/System/Asides.antt =====
-- The tables that hold neither stock, audit trail nor sales.
use k_pos_be.Common.{◌≡◌, refl, List}
use k_pos_be.Schema.{
  Db, Table, users, merchants, devices, products, details, payments, corrections, sync_queue,
  refresh_tokens, reconciliations,
}

pub record IsAside {A : Type 0} (t : Table A) : Type 0 where
  pub stock_kept : (rows : List A) (db : Db) → (t.with_rows rows db).inventory ≡ db.inventory
  pub history_kept :
      (rows : List A) (db : Db) → (t.with_rows rows db).stock_history ≡ db.stock_history
  pub sales_kept : (rows : List A) (db : Db) → (t.with_rows rows db).transactions ≡ db.transactions

pub users-IsAside : IsAside users
users-IsAside = record {
  stock_kept = λ rows db. refl;
  history_kept = λ rows db. refl;
  sales_kept = λ rows db. refl;
}

pub merchants-IsAside : IsAside merchants
merchants-IsAside = record {
  stock_kept = λ rows db. refl;
  history_kept = λ rows db. refl;
  sales_kept = λ rows db. refl;
}

pub devices-IsAside : IsAside devices
devices-IsAside = record {
  stock_kept = λ rows db. refl;
  history_kept = λ rows db. refl;
  sales_kept = λ rows db. refl;
}

pub products-IsAside : IsAside products
products-IsAside = record {
  stock_kept = λ rows db. refl;
  history_kept = λ rows db. refl;
  sales_kept = λ rows db. refl;
}

pub details-IsAside : IsAside details
details-IsAside = record {
  stock_kept = λ rows db. refl;
  history_kept = λ rows db. refl;
  sales_kept = λ rows db. refl;
}

pub payments-IsAside : IsAside payments
payments-IsAside = record {
  stock_kept = λ rows db. refl;
  history_kept = λ rows db. refl;
  sales_kept = λ rows db. refl;
}

pub corrections-IsAside : IsAside corrections
corrections-IsAside = record {
  stock_kept = λ rows db. refl;
  history_kept = λ rows db. refl;
  sales_kept = λ rows db. refl;
}

pub sync_queue-IsAside : IsAside sync_queue
sync_queue-IsAside = record {
  stock_kept = λ rows db. refl;
  history_kept = λ rows db. refl;
  sales_kept = λ rows db. refl;
}

pub refresh_tokens-IsAside : IsAside refresh_tokens
refresh_tokens-IsAside = record {
  stock_kept = λ rows db. refl;
  history_kept = λ rows db. refl;
  sales_kept = λ rows db. refl;
}

pub reconciliations-IsAside : IsAside reconciliations
reconciliations-IsAside = record {
  stock_kept = λ rows db. refl;
  history_kept = λ rows db. refl;
  sales_kept = λ rows db. refl;
}

pub ruleset asides = (
  users-IsAside, merchants-IsAside, devices-IsAside, products-IsAside, details-IsAside,
  payments-IsAside, corrections-IsAside, sync_queue-IsAside, refresh_tokens-IsAside,
  reconciliations-IsAside,
)
