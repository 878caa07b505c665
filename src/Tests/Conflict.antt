-- ===== src/Tests/Conflict.antt =====
-- A sale of more than the shop has, which the worker stores as a conflict.
use mathlib.Core.List.{flatten}
use k_pos_be.Common.{◌≡◌, ◌≢◌, refl, some, [], ◌∷◌, true}
use k_pos_be.Common.Int.{pos}
use k_pos_be.Schema.{Inventory, User, UserRole}
use k_pos_be.Prisma.Memory.{client, in_memory}
use k_pos_be.Prisma.Action.{
  World, ok, ◌>>=◌, pure, throw, lift, transaction, or_throw, when, branch, for_each, call, read,
  now, fresh_id, find_first, create, create_in, update, update_in,
}
use k_pos_be.Sync.Process.{
  validate_arithmetic, process_transaction, process_body, record_sale, check_stock_availability,
  create_transaction_header, create_transaction_details, create_payment,
}
use k_pos_be.Sync.Recorded.{IsInserted}
use k_pos_be.Sync.Signed.{process_transaction-unsigned}
use k_pos_be.Tests.Fixture.{shop, world_of, sale}

abbrev owner : User
owner = record {
  id_user = "ani";
  full_name = "Ani";
  email = "ani";
  password = "";
  role = UserRole.owner;
  id_merchant = some "shop";
  is_active = true;
}

abbrev last_cup : Inventory
last_cup = record {
  id_inventory = "shelf";
  id_product = "coffee";
  id_merchant = "shop";
  current_stock = pos 1;
  reserved = pos 0;
}

-- the shop as it signed up: one user, and one cup left
abbrev signed_up : World
signed_up = world_of (record shop { users = owner ∷ []; inventory = last_cup ∷ [] })

after : World
after = (process_transaction client sale signed_up).1

sells : process_transaction client sale signed_up ≡ (ok tt, after)
unfolding after process_transaction process_body record_sale validate_arithmetic
    check_stock_availability create_transaction_header create_transaction_details create_payment
    in_memory ◌>>=◌ pure throw lift transaction or_throw when branch for_each call read now fresh_id
    find_first create update flatten create_in update_in
sells = refl

a_line : sale.items ≢ []
a_line e = cc

process_transaction-unsigned_example : IsInserted sale true signed_up.db after.db
process_transaction-unsigned_example =
    process_transaction-unsigned client sale a_line signed_up after refl sells
