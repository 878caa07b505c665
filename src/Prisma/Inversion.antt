-- ===== src/Prisma/Inversion.antt =====
-- What the steps of an action have done, read off its result.
use k_pos_be.Common.{Bool, ◌≡◌, refl, Option, none, some, List, ◌⊎◌, inl, inr, arith}
use k_pos_be.Schema.{Db, Table}
use k_pos_be.Prisma.{Prisma, DbError}
use k_pos_be.Prisma.Action.{
  World, Action, Result, ok, err, Error, ◌>>=◌, continue, transaction, restore, settle, call, read,
  create_in, update_in, check_update, delete_in, check_delete,
}

-- Inversion of the steps of a `do` block that returned.
pub bind-ok :
    {A B : Type 0} (m : Action A) (f : A → Action B) (w : World) {b : B} {w' : World}
    → (m >>= f) w ≡ (ok b, w')
    → (a : A) × (v : World) × (m w ≡ (ok a, v)) × (f a v ≡ (ok b, w'))
unfolding ◌>>=◌
bind-ok {A} {B} m f w {b} {w'} h = go (m w) refl h
  where
    go :
        (x : Result A × World)
        → m w ≡ x
        → continue x.0 f x.1 ≡ (ok b, w')
        → (a : A) × (v : World) × (m w ≡ (ok a, v)) × (f a v ≡ (ok b, w'))
    go (ok a, v) e h = (a, v, e, h)
    go (err x, v) e h = cc

-- What a write that was not refused has done.
module _ (prisma : Prisma) {A : Type 0} (t : Table A) where
  pub create_in-db :
      (r : A) (db : Db) (a : A) (db' : Db)
      → create_in prisma t r db ≡ ok (a, db')
      → t.with_rows (prisma.insert r (t.rows db)) db ≡ db'
  unfolding create_in
  create_in-db r db a db' e = ground arith

  pub update_in-rows :
      (p : A → Bool) (f : A → A) (db : Db) (a : A) (db' : Db)
      → update_in prisma t p f db ≡ ok (a, db')
      → (rows : List A) × (prisma.update p f (t.rows db) ≡ some (a, rows))
        × (t.with_rows rows db ≡ db')
  unfolding update_in
  update_in-rows p f db a db' e = go (prisma.update p f (t.rows db)) refl e
    where
      go :
          (o : Option (A × List A))
          → prisma.update p f (t.rows db) ≡ o
          → check_update prisma t db o ≡ ok (a, db')
          → (rows : List A) × (prisma.update p f (t.rows db) ≡ some (a, rows))
            × (t.with_rows rows db ≡ db')
      go none q h = cc
      go (some (r, rows)) q h =
          let same : r ≡ a = ground arith in (rows, rw (← same) q, ground arith)

  pub delete_in-rows :
      (p : A → Bool) (db db' : Db)
      → delete_in prisma t p db ≡ ok (tt, db')
      → (rows : List A) × (prisma.delete p (t.rows db) ≡ some rows) × (t.with_rows rows db ≡ db')
  unfolding delete_in
  delete_in-rows p db db' e = go (prisma.delete p (t.rows db)) refl e
    where
      go :
          (o : Option (List A))
          → prisma.delete p (t.rows db) ≡ o
          → check_delete prisma t db o ≡ ok (tt, db')
          → (rows : List A) × (prisma.delete p (t.rows db) ≡ some rows)
            × (t.with_rows rows db ≡ db')
      go none q h = cc
      go (some rows) q h = (rows, q, ground arith)

-- A transaction that throws has changed nothing.
pub transaction-rollback :
    {A : Type 0} (m : Action A) (w w' : World) (e : Error)
    → transaction m w ≡ (err e, w')
    → w'.db ≡ w.db
unfolding transaction
transaction-rollback {A} m w w' e h = go (m w) h
  where
    go : (x : Result A × World) → restore w.db x ≡ (err e, w') → w'.db ≡ w.db
    go (ok a, v) q = cc
    go (err f, v) q = ground arith

-- Inversion of a `do` block that threw.
pub bind-err :
    {A B : Type 0} (m : Action A) (f : A → Action B) (w : World) {e : Error} {w' : World}
    → (m >>= f) w ≡ (err e, w')
    → (m w ≡ (err e, w')) ⊎ ((a : A) × (v : World) × (m w ≡ (ok a, v)) × (f a v ≡ (err e, w')))
unfolding ◌>>=◌
bind-err {A} {B} m f w {e} {w'} h = go (m w) refl h
  where
    go :
        (x : Result A × World)
        → m w ≡ x
        → continue x.0 f x.1 ≡ (err e, w')
        → (m w ≡ (err e, w')) ⊎ ((a : A) × (v : World) × (m w ≡ (ok a, v)) × (f a v ≡ (err e, w')))
    go (ok a, v) q h = inr (a, v, q, h)
    go (err x, v) q h =
        let same : x ≡ e = ground arith in let world : v ≡ w' = cc in inl (rw (← same, ← world) q)

-- What a query that was not refused returned.
pub read-ok :
    {A : Type 0} (prisma : Prisma) (f : Db → A) (w w' : World) (a : A)
    → read prisma f w ≡ (ok a, w')
    → (f w.db ≡ a) × (w'.db ≡ w.db)
unfolding read call
read-ok prisma f w w' a h = go (prisma.fault w.tick) h
  where
    go :
        (x : Option DbError)
        → settle x (λ db. ok (f db, db)) w ≡ (ok a, w')
        → (f w.db ≡ a) × (w'.db ≡ w.db)
    go none q = (ground arith, ground arith)
    go (some e) q = cc
