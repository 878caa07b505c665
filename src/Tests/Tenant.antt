-- ===== src/Tests/Tenant.antt =====
-- The lists of the shop with one sale, and its payment.
use k_pos_be.Common.{◌≡◌, refl, some, none, [], Mem}
use k_pos_be.Schema.{TransactionStatus, SyncStatus, Reconciliation, SyncQueue}
use k_pos_be.Prisma.Memory.{client, in_memory}
use k_pos_be.Prisma.Action.{World, ok, ◌>>=◌, or_throw, throw_if, branch, throw, pure, call, read}
use k_pos_be.Payments.{FullPayment, payment_rows, find_one_payment}
use k_pos_be.Reconciliations.Lists.{case_rows}
use k_pos_be.Sync.FailedQueues.{failed_rows}
use k_pos_be.Tenant.{IsAbout, IsSentBy, lists-own, find_one_payment_lem}
use k_pos_be.Tests.Fixture.{caller, paid, shop_with, stored}

abbrev sold : World
sold = shop_with TransactionStatus.confirmed SyncStatus.synced

lists-own_example :
    ((f : FullPayment)
      → Mem f (payment_rows client caller none sold.db)
      → f.row.id_merchant ≡ "shop")
    × ((r : Reconciliation) → Mem r (case_rows client caller sold.db) → IsAbout "shop" sold.db r)
    × ((q : SyncQueue) → Mem q (failed_rows client caller sold.db) → IsSentBy "shop" sold.db q)
lists-own_example = lists-own client caller sold.db none

abbrev full : FullPayment
full = record {
  row = paid;
  transaction_row = some (stored TransactionStatus.confirmed SyncStatus.synced);
  cases = [];
}

seen : World
seen = (find_one_payment client caller "y1" sold).1

finds : find_one_payment client caller "y1" sold ≡ (ok full, seen)
unfolding seen find_one_payment in_memory ◌>>=◌ or_throw throw_if branch throw pure call read
finds = refl

find_one_payment_lem_example :
    Mem paid sold.db.payments
    × (paid.id_payment ≡ "y1")
    × (paid.id_merchant ≡ "shop")
    × (seen.db ≡ sold.db)
find_one_payment_lem_example = find_one_payment_lem client caller "y1" sold seen full finds
