-- ===== src/Tests/Lists.antt =====
-- The lists of the sales and of the catalogue, and the history of a sale that was corrected.
use mathlib.Core.List.{mem-cons, not-mem-nil}
use mathlib.Core.Logic.Or
use native.Mathlib.Bridge.{le_prop}
use k_pos_be.Common.{
  ℕ, suc, ◌≡◌, refl, ◌≢◌, String, Bool, false, none, some, [], ◌∷◌, ◌++◌, length, arith, is_empty,
  ◌==◌, Option, Perm, select, if◌then◌else◌, take,
}
use k_pos_be.Schema.{Db, Transaction, TransactionStatus, SyncStatus, Product, TransactionCorrection}
use k_pos_be.Paging.{cut}
use k_pos_be.Paging.Walk.{AreIdentified, walk}
use k_pos_be.Prisma.Memory.{client, in_memory}
use k_pos_be.Prisma.Action.{World, ok}
use k_pos_be.Transactions.Listing.{QueryTransactionsDto, matches}
use k_pos_be.Transactions.Listing.Newest.{IsNewestFirst}
use k_pos_be.Transactions.Listing.Walks.{id_of, rows_at, pages_at, walk-sales}
use k_pos_be.Prisma.{Prisma}
use k_pos_be.Transactions.History.{get_transaction_history}
use k_pos_be.Transactions.History.Ends.{IsRanked, history-ends}
use k_pos_be.Products.Listing.{
  QueryProductsDto, StockedProduct, product_id, product_rows, in_catalogue,
}
use k_pos_be.Products.Listing.Gap.{products_at, products-gap}
use k_pos_be.Tests.Fixture.{caller, shop, stored, coffee, world_of}

abbrev sold : String → ℕ → Transaction
sold id at = record (stored TransactionStatus.confirmed SyncStatus.synced) {
  id_transaction = id;
  created_at = at;
}

abbrev busy : Db
busy = record shop { transactions = sold "t3" 3 ∷ sold "t2" 2 ∷ sold "t1" 1 ∷ [] }

abbrev two_at_once : QueryTransactionsDto
two_at_once = record {
  status = none;
  sync_status = none;
  id_device = some "";
  start_date = none;
  end_date = some 5;
  cursor = none;
  limit = some 2;
}

-- every page of the same database
abbrev clients : Option String → Prisma
clients cursor = client

apart : AreIdentified id_of (rows_at clients caller two_at_once busy none)
unfolding in_memory is_empty matches
apart = (refl, refl, (refl, refl, (refl, refl, tt)))

newest : (cursor : Option String) → IsNewestFirst (rows_at clients caller two_at_once busy cursor)
unfolding in_memory is_empty matches
newest cursor = ((omega arith, (omega arith, tt)), ((omega arith, tt), (tt, tt)))

walk-sales_example :
    (walk id_of
        (pages_at clients caller two_at_once busy)
        (suc (length (rows_at clients caller two_at_once busy none)))
        none
      ≡ rows_at clients caller two_at_once busy none)
    × Perm
        (rows_at clients caller two_at_once busy none)
        (select (matches caller two_at_once) busy.transactions)
walk-sales_example = walk-sales clients caller two_at_once busy (omega arith) newest apart

-- nothing is contained in anything
abbrev never : String → String → Bool
never s t = false

abbrev brewed : String → Product
brewed id = record coffee { id_product = id }

abbrev three : Db
three = record shop { products = brewed "p3" ∷ brewed "p2" ∷ brewed "p1" ∷ []; inventory = [] }

abbrev one_at_once : QueryProductsDto
one_at_once = record { search_text = none; cursor = none; limit = some 1; is_active = none }

abbrev shown : String → StockedProduct
shown id = record { row = brewed id; stock_row = none }

catalogue :
    product_rows never client caller one_at_once three
    ≡ (shown "p3" ∷ []) ++ (shown "p2" ∷ shown "p1" ∷ [])
unfolding product_rows in_memory in_catalogue
catalogue = refl

distinct : AreIdentified product_id ((shown "p3" ∷ []) ++ (shown "p2" ∷ shown "p1" ∷ []))
unfolding is_empty
distinct = (refl, refl, (refl, refl, (refl, refl, tt)))

products-gap_example :
    (products_at never client caller one_at_once three none ≡ (shown "p3" ∷ [], some "p2"))
    × ((products_at never client caller one_at_once three (some "p2")).0
        ≡ (cut 1 (take 2 (shown "p1" ∷ []))).0)
products-gap_example =
    products-gap never client caller one_at_once three (shown "p3" ∷ []) (shown "p2")
      (shown "p1" ∷ []) catalogue refl distinct

abbrev replaced : TransactionCorrection
replaced = record {
  id_correction = "c1";
  id_old_transaction = "t1";
  id_new_transaction = "t2";
  reason = "typo";
  corrected_by = "ani";
  created_at = 1;
}

abbrev corrected : World
corrected = world_of (record busy { corrections = replaced ∷ [] })

abbrev age : String → ℕ
age id = if id == "t1" then 0 else 1

ranked : IsRanked age 1 corrected.db
ranked = record {
  rises =
      λ c m. Or.elim le_prop (mem-cons.0 m) (λ e. rw e (omega arith)) (λ k. absurd (not-mem-nil k));
  bounded = λ id. ground arith;
}

history-ends_example : (get_transaction_history client 2 caller "t2" corrected).0 ≢ ok none
history-ends_example = history-ends client age 1 caller "t2" corrected ranked
