-- ===== src/Schema/Tables.antt =====
-- Each model of prisma/schema.prisma as a table: where it lies, its `@id`, its other unique keys
-- (`@unique`, `@@unique`), and its relations (`@relation`), which the database checks on a write.
use k_pos_be.Common.{String, Bool, true, false, ◌&&◌, ◌||◌, Option, none, some, List, ◌==◌, any}
use k_pos_be.Schema.Rows.{
  Db, User, Merchant, Device, Product, Inventory, StockHistory, Transaction, DetailTransaction,
  Payment, TransactionCorrection, SyncQueue, RefreshToken, Reconciliation,
}

pub record Table (R : Type 0) : Type 0 where
  pub rows : Db → List R
  pub with_rows : List R → Db → Db
  pub key : R → String
  -- two rows agree on a unique key other than the id
  pub twin : R → R → Bool
  -- every foreign key of the row refers to a row
  pub refs : R → Db → Bool

-- a unique key on a nullable column; `NULL` equals nothing
abbrev pub same_key : Option String → Option String → Bool
same_key (some s) (some t) = s == t
same_key _ _ = false

abbrev pub has_user : String → Db → Bool
has_user i db = any (λ u. u.id_user == i) db.users

abbrev pub has_merchant : String → Db → Bool
has_merchant i db = any (λ m. m.id_merchant == i) db.merchants

abbrev pub has_device : String → Db → Bool
has_device i db = any (λ d. d.id_device == i) db.devices

abbrev pub has_product : String → Db → Bool
has_product i db = any (λ p. p.id_product == i) db.products

abbrev pub has_transaction : String → Db → Bool
has_transaction i db = any (λ t. t.id_transaction == i) db.transactions

abbrev pub has_payment : String → Db → Bool
has_payment i db = any (λ p. p.id_payment == i) db.payments

-- an optional relation holds where the column is `NULL`
abbrev pub optional : (String → Db → Bool) → Option String → Db → Bool
optional has none db = true
optional has (some i) db = has i db

abbrev pub users : Table User
users = record {
  rows = λ db. db.users;
  with_rows = λ t db. record db { users = t };
  key = λ u. u.id_user;
  twin = λ u v. u.email == v.email;
  refs = λ u db. optional has_merchant u.id_merchant db;
}

abbrev pub merchants : Table Merchant
merchants = record {
  rows = λ db. db.merchants;
  with_rows = λ t db. record db { merchants = t };
  key = λ m. m.id_merchant;
  twin = λ m n. false;
  refs = λ m db. true;
}

abbrev pub devices : Table Device
devices = record {
  rows = λ db. db.devices;
  with_rows = λ t db. record db { devices = t };
  key = λ d. d.id_device;
  twin = λ d e.
      same_key d.pairing_code e.pairing_code
      || d.id_merchant == e.id_merchant && same_key d.device_id_hash e.device_id_hash;
  refs = λ d db. has_merchant d.id_merchant db && has_user d.id_user db;
}

abbrev pub products : Table Product
products = record {
  rows = λ db. db.products;
  with_rows = λ t db. record db { products = t };
  key = λ p. p.id_product;
  twin = λ p q. p.id_merchant == q.id_merchant && p.sku == q.sku;
  refs = λ p db. has_merchant p.id_merchant db;
}

abbrev pub inventory : Table Inventory
inventory = record {
  rows = λ db. db.inventory;
  with_rows = λ t db. record db { inventory = t };
  key = λ i. i.id_inventory;
  twin = λ i j. i.id_product == j.id_product;
  refs = λ i db. has_product i.id_product db && has_merchant i.id_merchant db;
}

abbrev pub stock_history : Table StockHistory
stock_history = record {
  rows = λ db. db.stock_history;
  with_rows = λ t db. record db { stock_history = t };
  key = λ h. h.id_stock;
  twin = λ h k. false;
  refs = λ h db.
      has_product h.id_product db
      && optional has_merchant h.id_merchant db
      && optional has_user h.id_user db
      && optional has_transaction h.id_transaction db;
}

abbrev pub transactions : Table Transaction
transactions = record {
  rows = λ db. db.transactions;
  with_rows = λ t db. record db { transactions = t };
  key = λ t. t.id_transaction;
  twin = λ t u.
      same_key t.offline_uuid u.offline_uuid
      || t.id_device == u.id_device && same_key t.offline_uuid u.offline_uuid;
  refs = λ t db.
      has_merchant t.id_merchant db
      && has_user t.id_user db
      && has_device t.id_device db
      && optional has_user t.voided_by db;
}

abbrev pub details : Table DetailTransaction
details = record {
  rows = λ db. db.details;
  with_rows = λ t db. record db { details = t };
  key = λ d. d.id_detail;
  twin = λ d e. false;
  refs = λ d db. has_transaction d.id_transaction db && has_product d.id_product db;
}

abbrev pub payments : Table Payment
payments = record {
  rows = λ db. db.payments;
  with_rows = λ t db. record db { payments = t };
  key = λ p. p.id_payment;
  twin = λ p q. p.id_transaction == q.id_transaction;
  refs = λ p db.
      has_transaction p.id_transaction db
      && has_merchant p.id_merchant db
      && optional has_user p.verified_by db;
}

abbrev pub corrections : Table TransactionCorrection
corrections = record {
  rows = λ db. db.corrections;
  with_rows = λ t db. record db { corrections = t };
  key = λ c. c.id_correction;
  twin = λ c d. c.id_new_transaction == d.id_new_transaction;
  refs = λ c db.
      has_transaction c.id_old_transaction db
      && has_transaction c.id_new_transaction db
      && has_user c.corrected_by db;
}

abbrev pub sync_queue : Table SyncQueue
sync_queue = record {
  rows = λ db. db.sync_queue;
  with_rows = λ t db. record db { sync_queue = t };
  key = λ q. q.id;
  twin = λ q r. false;
  refs = λ q db. has_device q.id_device db && optional has_transaction q.id_transaction db;
}

abbrev pub refresh_tokens : Table RefreshToken
refresh_tokens = record {
  rows = λ db. db.refresh_tokens;
  with_rows = λ t db. record db { refresh_tokens = t };
  key = λ r. r.id;
  twin = λ r s. r.token == s.token;
  refs = λ r db. has_user r.id_user db;
}

abbrev pub reconciliations : Table Reconciliation
reconciliations = record {
  rows = λ db. db.reconciliations;
  with_rows = λ t db. record db { reconciliations = t };
  key = λ r. r.id_reconciliation;
  twin = λ r s. false;
  refs = λ r db.
      has_payment r.id_payment db && has_user r.opened_by db && optional has_user r.resolved_by db;
}
