-- ===== src/Prisma/Action.antt =====
-- A service call as an action: it changes the database and the queues, and returns or throws. What
-- was written before a throw stays written, but `$transaction` takes it back.
use k_pos_be.Common.{
  ℕ, suc, String, Bool, true, false, ◌&&◌, ◌||◌, not, Option, none, some, List, [], ◌∷◌, ◌==◌, any,
  if◌then◌else◌,
}
use k_pos_be.Schema.{Db, Table, SyncTransactionDto}
use k_pos_be.Prisma.{Prisma, DbError}

-- SyncErrorCode of src/common/exceptions/sync-conflict.exception.ts
pub data SyncErrorCode : Type 0 where
  sync_arithmetic_error sync_constraint_violation sync_item_not_found : SyncErrorCode
  sync_already_exists sync_unknown_error : SyncErrorCode

-- What a call throws: NestJS's exceptions, `SyncConflictException`, or an error of a query.
pub data Error : Type 0 where
  bad_request unauthorized forbidden not_found conflict service_unavailable : String → Error
  internal : String → Error
  -- the exception of a health check, with an object for its response
  unhealthy : String → Error
  sync_exception : SyncErrorCode → String → Error
  database : DbError → Error

pub data Result (A : Type 0) : Type 0 where
  ok : A → Result A
  err : Error → Result A

-- A message on a RabbitMQ queue.
pub record Message : Type 0 where
  pub queue : String
  pub body : List SyncTransactionDto

-- `tick` numbers the calls made to the world outside; `sent` are the messages queued, and `removed`
-- the image paths that the storage was asked to remove.
pub record World : Type 0 where
  pub tick : ℕ
  pub db : Db
  pub sent : List Message
  pub removed : List String

abbrev pub Action : Type 0 → Type 0
Action A = World → Result A × World

abbrev pub ⊤ : Type 0
⊤ = Unit

module _ {A : Type 0} where
  unfoldable pub pure : A → Action A
  pure a w = (ok a, w)

  unfoldable pub throw : Error → Action A
  throw e w = (err e, w)

  -- a synchronous function that may throw
  unfoldable pub lift : Result A → Action A
  lift r w = (r, w)

module _ {A B : Type 0} where
  abbrev pub continue : Result A → (A → Action B) → Action B
  continue (ok a) f w = f a w
  continue (err e) f w = (err e, w)

  infixl 10 ◌>>=◌ ◌>>◌
  unfoldable pub ◌>>=◌ : Action A → (A → Action B) → Action B
  unfolding pure throw lift
  ◌>>=◌ m f w = let (r, w') = m w in continue r f w'

  abbrev pub ◌>>◌ : Action A → Action B → Action B
  m >> n = m >>= λ _. n

  -- `try { … } catch`
  abbrev pub recover : Result A → (A → Action B) → (Error → Action B) → Action B
  recover (ok a) f g w = f a w
  recover (err e) f g w = g e w

  unfoldable pub try_catch : Action A → (A → Action B) → (Error → Action B) → Action B
  try_catch m f g w = let (r, w') = m w in recover r f g w'

-- `if (b) m else n`, shut where it stands in a call
unfoldable pub branch : {A : Type 0} → Bool → Action A → Action A → Action A
branch true m n = m
branch false m n = n

-- `if (b) throw e`
unfoldable pub throw_if : Bool → Error → Action ⊤
unfolding branch pure throw
throw_if b e = branch b (throw e) (pure tt)

-- `if (b) m`
unfoldable pub when : Bool → Action ⊤ → Action ⊤
unfolding branch pure
when b m = branch b m (pure tt)

-- the value, or a throw on `null`
unfoldable pub or_throw : {A : Type 0} → Option A → Error → Action A
or_throw none e = throw e
or_throw (some a) e = pure a

-- `for (const x of xs) await f(x)`
unfoldable pub for_each : {A : Type 0} → List A → (A → Action ⊤) → Action ⊤
for_each [] f = pure tt
for_each (x ∷ xs) f = f x >> for_each xs f

-- `$transaction`: a throw restores the database, and only that.
abbrev pub restore : {A : Type 0} → Db → Result A × World → Result A × World
restore db (ok a, w) = (ok a, w)
restore db (err e, w) = (err e, record w { db = db })

unfoldable pub transaction : {A : Type 0} → Action A → Action A
transaction m w = restore w.db (m w)

-- One call of the client. `op` is what it does to the database where it is not refused.
abbrev pub settle : {A : Type 0} → Option DbError → (Db → Result (A × Db)) → Action A
settle (some e) op w = (err (database e), record w { tick = suc w.tick })
settle none op w = elim (op w.db) [
  | ok (a, db') ↦ (ok a, record w { tick = suc w.tick; db = db' })
  | err e ↦ (err e, record w { tick = suc w.tick })
]

module _ (prisma : Prisma) where
  unfoldable pub call : {A : Type 0} → (Db → Result (A × Db)) → Action A
  call op w = settle (prisma.fault w.tick) op w

  -- a query
  unfoldable pub read : {A : Type 0} → (Db → A) → Action A
  unfolding call
  read f = call (λ db. ok (f db, db))

  -- `new Date()`
  unfoldable pub now : Action ℕ
  now w = (ok (prisma.clock w.tick), record w { tick = suc w.tick })

  -- `@default(cuid())`
  unfoldable pub fresh_id : Action String
  fresh_id w = (ok (prisma.cuid w.tick), record w { tick = suc w.tick })

  abbrev pub unique_violation : Error
  unique_violation = database (record { code = "P2002"; message = prisma.unique_message })

  abbrev pub foreign_violation : Error
  foreign_violation = database (record { code = "P2003"; message = prisma.foreign_message })

  abbrev pub missing_row : Error
  missing_row = database (record { code = "P2025"; message = prisma.missing_message })

  module _ {R : Type 0} (t : Table R) where
    unfoldable pub find_first : (R → Bool) → Action (Option R)
    unfolding read
    find_first p = read (λ db. prisma.find p (t.rows db))

    unfoldable pub find_all : (R → Bool) → Action (List R)
    unfolding read
    find_all p = read (λ db. prisma.find_many p (t.rows db))

    -- the id is new, no other row has one of the unique keys, and the relations hold
    unfoldable pub create_in : R → Db → Result (R × Db)
    create_in r db =
        if any (λ s. t.key s == t.key r || t.twin r s) (t.rows db)
        then err unique_violation
        else if t.refs r db
        then ok (r, t.with_rows (prisma.insert r (t.rows db)) db)
        else err foreign_violation

    unfoldable pub create : R → Action R
    create r = call (create_in r)

    abbrev pub check_update : Db → Option (R × List R) → Result (R × Db)
    check_update db none = err missing_row
    check_update db (some (r, rows)) =
        if any (λ s. not (t.key s == t.key r) && t.twin r s) (t.rows db)
        then err unique_violation
        else if t.refs r db
        then ok (r, t.with_rows rows db)
        else err foreign_violation

    unfoldable pub update_in : (R → Bool) → (R → R) → Db → Result (R × Db)
    update_in p f db = check_update db (prisma.update p f (t.rows db))

    unfoldable pub update : (R → Bool) → (R → R) → Action R
    update p f = call (update_in p f)

    abbrev pub check_delete : Db → Option (List R) → Result (⊤ × Db)
    check_delete db none = err missing_row
    check_delete db (some rows) = ok (tt, t.with_rows rows db)

    unfoldable pub delete_in : (R → Bool) → Db → Result (⊤ × Db)
    delete_in p db = check_delete db (prisma.delete p (t.rows db))

    unfoldable pub delete : (R → Bool) → Action ⊤
    delete p = call (delete_in p)
