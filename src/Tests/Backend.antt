-- ===== src/Tests/Backend.antt =====
-- The backend on a batch, delivered twice, and the void of its sale.
use k_pos_be.Common.{none, List, [], ◌∷◌, true}
use k_pos_be.Schema.{TransactionStatus, SyncStatus}
use k_pos_be.Prisma.Action.{World}
use k_pos_be.Storage.{Supabase}
use k_pos_be.Prisma.Memory.{client}
use k_pos_be.Inventory.Ledger.{IsAccounted}
use k_pos_be.System.{Outside, Request, post_sync, deliver_batch, void_sale, serve_all}
use k_pos_be.System.Books.{IsExtended, serve_all-IsAccounted, serve_all-IsExtended}
use k_pos_be.System.Lasting.{IsLasting, serve_all-IsLasting}
use k_pos_be.Tests.Fixture.{caller, start, sale, plain_hashes, open_broker, shop_with}

abbrev pub no_images : Supabase
no_images = record {
  configured = true;
  upload = λ n path. none;
  public_url = λ path. path;
  bucket = "images";
}

abbrev pub outside : Outside
outside = record {
  prisma = client;
  crypto = plain_hashes;
  broker = open_broker;
  supabase = no_images;
}

abbrev requests : List Request
requests =
    post_sync "register" (sale ∷ [])
    ∷ deliver_batch (sale ∷ [])
    ∷ deliver_batch (sale ∷ [])
    ∷ void_sale caller "u1" "mistake"
    ∷ []

serve_all-IsAccounted_example :
    IsAccounted "coffee" start.db (serve_all outside requests start).1.db
serve_all-IsAccounted_example = serve_all-IsAccounted outside requests start "coffee"

serve_all-IsExtended_example : IsExtended start.db (serve_all outside requests start).1.db
serve_all-IsExtended_example = serve_all-IsExtended outside requests start

-- a sale on its way to be voided
abbrev sold : World
sold = shop_with TransactionStatus.pending SyncStatus.sync_conflict

serve_all-IsLasting_example : IsLasting sold.db (serve_all outside requests sold).1.db
serve_all-IsLasting_example = serve_all-IsLasting outside requests sold
