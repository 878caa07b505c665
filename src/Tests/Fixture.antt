-- ===== src/Tests/Fixture.antt =====
-- A shop with one product, one cash register and its owner, and a sale of two units.
use k_pos_be.Common.{String, true, none, some, [], ◌∷◌}
use k_pos_be.Common.Int.{pos}
use k_pos_be.Schema.{
  Db, User, UserRole, Device, DeviceStatus, Product, Inventory, Transaction, TransactionStatus,
  SyncStatus, DetailTransaction, Payment, PaymentMethod, PaymentStatus, SyncTransactionDto,
  SyncItemDto,
}
use k_pos_be.User.{JwtPayload}
use k_pos_be.Prisma.Action.{World}
use k_pos_be.Crypto.{Crypto}
use k_pos_be.Sync.Producer.{Broker, confirmed}

abbrev user_of : String → User
user_of id = record {
  id_user = id;
  full_name = id;
  email = id;
  password = "";
  role = UserRole.owner;
  id_merchant = some "shop";
  is_active = true;
}

abbrev pub caller : JwtPayload
caller = record { sub = "ani"; email = "ani"; role = "OWNER"; id_merchant = "shop" }

abbrev register : Device
register = record {
  id_device = "register";
  id_merchant = "shop";
  id_user = "ani";
  name = "Register";
  device_id_hash = none;
  pairing_code = none;
  status = DeviceStatus.paired;
  is_active = true;
}

abbrev pub coffee : Product
coffee = record {
  id_product = "coffee";
  id_merchant = "shop";
  name = "Coffee";
  sku = "C1";
  price = 500;
  image_url = none;
  is_active = true;
}

abbrev shelf : Inventory
shelf = record {
  id_inventory = "shelf";
  id_product = "coffee";
  id_merchant = "shop";
  current_stock = pos 10;
  reserved = pos 0;
}

abbrev pub shop : Db
shop = record {
  users = user_of "ani" ∷ user_of "system_sync" ∷ [];
  merchants = record { id_merchant = "shop"; name = "Shop" } ∷ [];
  devices = register ∷ [];
  products = coffee ∷ [];
  inventory = shelf ∷ [];
  stock_history = [];
  transactions = [];
  details = [];
  payments = [];
  corrections = [];
  sync_queue = [];
  refresh_tokens = [];
  reconciliations = [];
}

abbrev pub world_of : Db → World
world_of db = record { tick = 0; db = db; sent = []; removed = [] }

abbrev pub start : World
start = world_of shop

abbrev line : SyncItemDto
line = record {
  id_product = "coffee";
  quantity = 2;
  unit_price = 500;
  subtotal = 1000;
  product_name = "Coffee";
  sku_snapshot = "C1";
  catalog_version = none;
}

abbrev pub sale : SyncTransactionDto
sale = record {
  id_device = "register";
  offline_uuid = "u1";
  created_at_local = 0;
  subtotal = 1000;
  total = 1000;
  notes = none;
  items = line ∷ [];
  payment = record {
    method = PaymentMethod.cash;
    amount = 1000;
    cash_received = some 1000;
    change_amount = some 0;
    qris_code = none;
    transfer_ref = none;
  };
  payload_hash = some "hash";
  retry_attempt = none;
}

-- a stored sale of two units
abbrev pub stored : TransactionStatus → SyncStatus → Transaction
stored status sync_status = record {
  id_transaction = "t1";
  id_merchant = "shop";
  id_user = "ani";
  id_device = "register";
  status = status;
  sync_status = sync_status;
  created_at_local = some 0;
  created_at = 0;
  confirmed_at = none;
  synced_at = none;
  total = 1000;
  subtotal = 1000;
  offline_uuid = some "u1";
  payload_hash = some "hash";
  notes = none;
  voided_at = none;
  voided_by = none;
  void_reason = none;
}

abbrev detail : DetailTransaction
detail = record {
  id_detail = "l1";
  id_transaction = "t1";
  id_product = "coffee";
  quantity = 2;
  unit_price = 500;
  subtotal = 1000;
  product_name = "Coffee";
  sku_snapshot = "C1";
  catalog_version = 0;
}

abbrev pub paid : Payment
paid = record {
  id_payment = "y1";
  id_transaction = "t1";
  id_merchant = "shop";
  amount = 1000;
  method = PaymentMethod.cash;
  status = PaymentStatus.verified;
  cash_received = none;
  change_amount = none;
  qris_code = none;
  transfer_ref = none;
  verified_at = none;
  verified_by = none;
}

-- the shop with that sale
abbrev pub shop_with : TransactionStatus → SyncStatus → World
shop_with status sync_status = world_of (record shop {
  transactions = stored status sync_status ∷ [];
  details = detail ∷ [];
  payments = paid ∷ [];
})

-- hashes that all read alike
abbrev pub plain_hashes : Crypto
plain_hashes = record {
  sha256 = λ s. s;
  sha256_payload = λ items payment. "hash";
  bcrypt_hash = λ n s. s;
  bcrypt_compare = λ s t. true;
  random_code = λ n. 0;
  random_token = λ n. "token";
  sign = λ n p. "signed";
}

-- a broker that takes every message
abbrev pub open_broker : Broker
open_broker = record { answer = λ n. confirmed }
