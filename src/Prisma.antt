-- ===== src/Prisma.antt =====
-- The Prisma client and the PostgreSQL engine behind it (both outside the repository), as a record
-- of operations with the documented behaviour that the services rely on. A table is a multiset of
-- rows: which of several rows a query finds, and in which order rows come back, is not specified.
pub mod Action
pub mod Inversion
pub mod Relates
pub mod Keeps
pub mod Kept
pub mod Quiet
pub mod Steps
pub mod Memory
pub mod Sums
pub mod Counts
pub mod Queries
use k_pos_be.Common.{
  ℕ, String, Bool, true, false, ◌≡◌, Option, none, some, List, ◌∷◌, Mem, Perm, select, take, drop,
  drop_until,
}

-- An error that a query rejects with: Prisma's code (empty for other errors) and the message.
pub record DbError : Type 0 where
  pub code : String
  pub message : String

pub record Prisma : Type 1 where
  -- the id, the instant and the refusal, if any, of the n-th call
  pub cuid : ℕ → String
  pub clock : ℕ → ℕ
  pub fault : ℕ → Option DbError
  -- the messages of P2002, P2003 and P2025
  pub unique_message : String
  pub foreign_message : String
  pub missing_message : String
  -- findUnique, findFirst
  pub find : {R : Type 0} → (R → Bool) → List R → Option R
  pub find-some :
      {R : Type 0} (p : R → Bool) (t : List R) (r : R) → find p t ≡ some r → (p r ≡ true) × Mem r t
  pub find-none :
      {R : Type 0} (p : R → Bool) (t : List R) (r : R) → find p t ≡ none → Mem r t → p r ≡ false
  -- findMany
  pub find_many : {R : Type 0} → (R → Bool) → List R → List R
  pub find_many-perm : {R : Type 0} (p : R → Bool) (t : List R) → Perm (find_many p t) (select p t)
  -- findMany with `orderBy` on a column, `desc`
  pub order_by : {R : Type 0} → String → List R → List R
  pub order_by-perm : {R : Type 0} (column : String) (t : List R) → Perm (order_by column t) t
  -- findMany with `cursor`, `skip` and `take`, of rows in order: the cursor's row is the first, and
  -- there are none where no row fits the cursor
  pub page : {R : Type 0} → Option (R → Bool) → ℕ → ℕ → List R → List R
  pub page-start :
      {R : Type 0} (skip limit : ℕ) (t : List R)
      → page {R = R} none skip limit t ≡ take limit (drop skip t)
  pub page-cursor :
      {R : Type 0} (p : R → Bool) (skip limit : ℕ) (t : List R)
      → page (some p) skip limit t ≡ take limit (drop skip (drop_until p t))
  -- create
  pub insert : {R : Type 0} → R → List R → List R
  pub insert-perm : {R : Type 0} (r : R) (t : List R) → Perm (insert r t) (r ∷ t)
  -- update by a unique key: the row written and the table, or `none` where no row fits
  pub update : {R : Type 0} → (R → Bool) → (R → R) → List R → Option (R × List R)
  pub update-some :
      {R : Type 0} (p : R → Bool) (f : R → R) (t : List R) (r' : R) (t' : List R)
      → update p f t ≡ some (r', t')
      → (r : R) × (rest : List R) × (p r ≡ true)
        × (r' ≡ f r)
        × Perm t (r ∷ rest)
        × Perm t' (f r ∷ rest)
  pub update-none :
      {R : Type 0} (p : R → Bool) (f : R → R) (t : List R) (r : R)
      → update p f t ≡ none
      → Mem r t
      → p r ≡ false
  -- delete by a unique key
  pub delete : {R : Type 0} → (R → Bool) → List R → Option (List R)
  pub delete-some :
      {R : Type 0} (p : R → Bool) (t t' : List R)
      → delete p t ≡ some t'
      → (r : R) × (p r ≡ true) × Perm t (r ∷ t')
  pub delete-none :
      {R : Type 0} (p : R → Bool) (t : List R) (r : R) → delete p t ≡ none → Mem r t → p r ≡ false
