-- ===== src/Prisma/Relates.antt =====
-- Relations between the database before and after an action, whether it returns (`Yields`) or
-- however it ends (`Keeps`), and the rules of the first.
use k_pos_be.Common.{Bool, ◌≡◌, refl, Option, none, some, List, subst, arith}
use k_pos_be.Schema.{Db, Table}
use k_pos_be.Prisma.{Prisma, DbError}
use k_pos_be.Prisma.Action.{
  World, Action, Result, ok, err, ⊤, ◌>>=◌, transaction, restore, settle, call, create, create_in,
  update, update_in, delete_in,
}
use k_pos_be.Prisma.Inversion.{bind-ok, create_in-db, update_in-rows, delete_in-rows}

pub record IsPreorder (R : Db → Db → Type 0) : Type 0 where
  pub reflexive : (db : Db) → R db db
  pub transitive : (a b c : Db) → R a b → R b c → R a c

-- `R` holds however the action ends.
pub record Keeps {A : Type 0} (R : Db → Db → Type 0) (m : Action A) : Type 0 where
  pub at : (w : World) → R w.db (m w).1.db

-- `R` holds where the action returns.
pub record Yields {A : Type 0} (R : Db → Db → Type 0) (m : Action A) : Type 0 where
  pub at : (w : World) (a : A) (w' : World) → m w ≡ (ok a, w') → R w.db w'.db

module _ (R : Db → Db → Type 0) (prisma : Prisma) where
  module _ {A : Type 0} (t : Table A) where
    pub create_in-keeps :
        (r : A)
        → ((db : Db) → R db (t.with_rows (prisma.insert r (t.rows db)) db))
        → (db : Db) (a : A) (db' : Db) → create_in prisma t r db ≡ ok (a, db')
        → R db db'
    create_in-keeps r h db a db' e = subst (λ x. R db x) (create_in-db prisma t r db a db' e) (h db)

    pub update_in-keeps :
        (p : A → Bool) (f : A → A)
        → ((db : Db) (r : A) (rows : List A)
            → prisma.update p f (t.rows db) ≡ some (r, rows)
            → R db (t.with_rows rows db))
        → (db : Db) (a : A) (db' : Db) → update_in prisma t p f db ≡ ok (a, db')
        → R db db'
    update_in-keeps p f h db a db' e =
        let (rows, e', same) = update_in-rows prisma t p f db a db' e in
        subst (λ x. R db x) same (h db a rows e')

    pub delete_in-keeps :
        (p : A → Bool)
        → ((db : Db) (rows : List A)
            → prisma.delete p (t.rows db) ≡ some rows
            → R db (t.with_rows rows db))
        → (db : Db) (a : ⊤) (db' : Db) → delete_in prisma t p db ≡ ok (a, db')
        → R db db'
    delete_in-keeps p h db a db' e =
        let (rows, e', same) = delete_in-rows prisma t p db db' e in
        subst (λ x. R db x) same (h db rows e')

module _ {R : Db → Db → Type 0} (prisma : Prisma) where
  module _ {A : Type 0} where
    pub Yields-call :
        (op : Db → Result (A × Db))
        → ((db : Db) (a : A) (db' : Db) → op db ≡ ok (a, db') → R db db')
        → Yields R (call prisma op)
    unfolding call
    Yields-call op h = record { at = λ w a w' e. go w a w' (prisma.fault w.tick) (op w.db) refl e }
      where
        go :
            (w : World) (a : A) (w' : World) (x : Option DbError) (y : Result (A × Db))
            → op w.db ≡ y
            → settle x op w ≡ (ok a, w')
            → R w.db w'.db
        go w a w' (some f) y p e = cc
        go w a w' none (ok (b, db')) p e =
            let after : w'.db ≡ db' = ground (arith, p) in rw after (h w.db b db' p)
        go w a w' none (err f) p e = absurd (ground (arith, p))

  module _ {A : Type 0} (t : Table A) where
    pub Yields-create :
        (r : A)
        → ((db : Db) → R db (t.with_rows (prisma.insert r (t.rows db)) db))
        → Yields R (create prisma t r)
    unfolding create
    Yields-create r h = Yields-call _ (create_in-keeps R prisma t r h)

    pub Yields-update :
        (p : A → Bool) (f : A → A)
        → ((db : Db) (r : A) (rows : List A)
            → prisma.update p f (t.rows db) ≡ some (r, rows)
            → R db (t.with_rows rows db))
        → Yields R (update prisma t p f)
    unfolding update
    Yields-update p f h = Yields-call _ (update_in-keeps R prisma t p f h)

module _ {R : Db → Db → Type 0} where
  pub Keeps-Yields : {A : Type 0} {m : Action A} → Keeps R m → Yields R m
  Keeps-Yields k = record { at = λ w a w' e. subst (λ x. R w.db x.1.db) e (k.at w) }

module _ {R : Db → Db → Type 0} where
  pub Yields-transaction : {A : Type 0} {m : Action A} → Yields R m → Yields R (transaction m)
  unfolding transaction
  Yields-transaction {A} {m} y = record { at = λ w a w' e. y.at w a w' (go w (m w) refl a w' e) }
    where
      go :
          (w : World) (x : Result A × World)
          → m w ≡ x
          → (a : A) (w' : World) → restore w.db x ≡ (ok a, w')
          → m w ≡ (ok a, w')
      go w (ok b, v) q a w' e = rw q e
      go w (err f, v) q a w' e = cc

module _ {R S : Db → Db → Type 0} where
  pub Yields-both :
      {A : Type 0} {m : Action A} → Yields R m → Yields S m → Yields (λ a b. R a b × S a b) m
  Yields-both y z = record { at = λ w a w' e. (y.at w a w' e, z.at w a w' e) }

  pub Yields-weaken :
      {A : Type 0} {m : Action A} → ((a b : Db) → R a b → S a b) → Yields R m → Yields S m
  Yields-weaken f y = record { at = λ w a w' e. f _ _ (y.at w a w' e) }

-- Two steps, each with a relation of its own.
module _ {R S T : Db → Db → Type 0} (compose : (a b c : Db) → R a b → S b c → T a c) where
  pub Yields-then :
      {A B : Type 0} (m : Action A) (f : A → Action B)
      → Yields R m
      → ((a : A) → Yields S (f a))
      → Yields T (m >>= f)
  Yields-then m f ym yf = record {
    at = λ w b w' h.
        let (a, v, e, e') = bind-ok m f w h in compose _ _ _ (ym.at w a v e) ((yf a).at v b w' e');
  }
