-- ===== src/Prisma/Keeps.antt =====
-- The rules of `Keeps`: one for each way to build an action, for a relation that is a preorder.
use k_pos_be.Common.{Bool, true, false, ◌≡◌, refl, Option, none, some, List, [], ◌∷◌, subst}
use k_pos_be.Schema.{Db, Table}
use k_pos_be.Prisma.{Prisma, DbError}
use k_pos_be.Prisma.Action.{
  World, Action, Result, ok, err, Error, ⊤, pure, throw, lift, ◌>>=◌, continue, try_catch, recover,
  throw_if, when, branch, or_throw, for_each, transaction, restore, settle, call, read, now,
  fresh_id, find_first, find_all, create, update, delete,
}
use k_pos_be.Prisma.Relates.{create_in-keeps, update_in-keeps, delete_in-keeps}
pub use k_pos_be.Prisma.Relates.{
  IsPreorder, Keeps, Yields, Keeps-Yields, Yields-call, Yields-create, Yields-update,
  Yields-transaction, Yields-both, Yields-weaken, Yields-then,
}

module _ {R : Db → Db → Type 0} (pre : IsPreorder R) where
  module _ {A : Type 0} where
    pub Keeps-pure : (a : A) → Keeps R (pure a)
    unfolding pure
    Keeps-pure a = record { at = λ w. pre.reflexive w.db }

    pub Keeps-throw : (e : Error) → Keeps R (throw {A = A} e)
    unfolding throw
    Keeps-throw e = record { at = λ w. pre.reflexive w.db }

    pub Keeps-lift : (r : Result A) → Keeps R (lift r)
    unfolding lift
    Keeps-lift r = record { at = λ w. pre.reflexive w.db }

    pub Keeps-or_throw : (o : Option A) (e : Error) → Keeps R (or_throw o e)
    unfolding or_throw
    Keeps-or_throw none e = Keeps-throw e
    Keeps-or_throw (some a) e = Keeps-pure a

    pub Keeps-branch :
        (b : Bool) (m n : Action A)
        → (b ≡ true → Keeps R m)
        → (b ≡ false → Keeps R n)
        → Keeps R (branch b m n)
    unfolding branch
    Keeps-branch true m n km kn = km refl
    Keeps-branch false m n km kn = kn refl

    pub Yields-branch :
        (b : Bool) (m n : Action A)
        → (b ≡ true → Yields R m)
        → (b ≡ false → Yields R n)
        → Yields R (branch b m n)
    unfolding branch
    Yields-branch true m n km kn = km refl
    Yields-branch false m n km kn = kn refl

    -- a transaction keeps what its body yields
    pub Keeps-transaction : (m : Action A) → Yields R m → Keeps R (transaction m)
    unfolding transaction
    Keeps-transaction m y = record { at = λ w. go w (m w) refl }
      where
        go : (w : World) (x : Result A × World) → m w ≡ x → R w.db (restore w.db x).1.db
        go w (ok a, v) e = y.at w a v e
        go w (err x, v) e = pre.reflexive w.db

  module _ {A B : Type 0} where
    pub Keeps-bind :
        (m : Action A) (f : A → Action B)
        → Keeps R m
        → ((a : A) → Keeps R (f a))
        → Keeps R (m >>= f)
    unfolding ◌>>=◌
    Keeps-bind m f km kf = record { at = λ w. go w (m w) (km.at w) }
      where
        go : (w : World) (x : Result A × World) → R w.db x.1.db → R w.db (continue x.0 f x.1).1.db
        go w (ok a, v) h = pre.transitive _ _ _ h ((kf a).at v)
        go w (err e, v) h = h

    pub Keeps-try_catch :
        (m : Action A) (f : A → Action B) (g : Error → Action B)
        → Keeps R m
        → ((a : A) → Keeps R (f a))
        → ((e : Error) → Keeps R (g e))
        → Keeps R (try_catch m f g)
    unfolding try_catch
    Keeps-try_catch m f g km kf kg = record { at = λ w. go w (m w) (km.at w) }
      where
        go : (w : World) (x : Result A × World) → R w.db x.1.db → R w.db (recover x.0 f g x.1).1.db
        go w (ok a, v) h = pre.transitive _ _ _ h ((kf a).at v)
        go w (err e, v) h = pre.transitive _ _ _ h ((kg e).at v)

    pub Yields-bind :
        (m : Action A) (f : A → Action B)
        → Yields R m
        → ((a : A) → Yields R (f a))
        → Yields R (m >>= f)
    Yields-bind = Yields-then pre.transitive

  pub Keeps-throw_if : (b : Bool) (e : Error) → Keeps R (throw_if b e)
  unfolding throw_if
  Keeps-throw_if b e = Keeps-branch b _ _ (λ _. Keeps-throw e) (λ _. Keeps-pure tt)

  pub Keeps-when : (b : Bool) (m : Action ⊤) → Keeps R m → Keeps R (when b m)
  unfolding when
  Keeps-when b m k = Keeps-branch b _ _ (λ _. k) (λ _. Keeps-pure tt)

  pub Yields-when : (b : Bool) (m : Action ⊤) → Yields R m → Yields R (when b m)
  unfolding when
  Yields-when b m k = Yields-branch b _ _ (λ _. k) (λ _. Keeps-Yields (Keeps-pure tt))

  module _ {A : Type 0} where
    pub Keeps-for_each :
        (xs : List A) (f : A → Action ⊤) → ((x : A) → Keeps R (f x)) → Keeps R (for_each xs f)
    unfolding for_each
    Keeps-for_each [] f k = Keeps-pure tt
    Keeps-for_each (x ∷ xs) f k = Keeps-bind _ _ (k x) (λ _. Keeps-for_each xs f k)

    pub Yields-for_each :
        (xs : List A) (f : A → Action ⊤) → ((x : A) → Yields R (f x)) → Yields R (for_each xs f)
    unfolding for_each
    Yields-for_each [] f k = Keeps-Yields (Keeps-pure tt)
    Yields-for_each (x ∷ xs) f k = Yields-bind _ _ (k x) (λ _. Yields-for_each xs f k)

  module _ (prisma : Prisma) where
    pub Keeps-now : Keeps R (now prisma)
    unfolding now
    Keeps-now = record { at = λ w. pre.reflexive w.db }

    pub Keeps-fresh_id : Keeps R (fresh_id prisma)
    unfolding fresh_id
    Keeps-fresh_id = record { at = λ w. pre.reflexive w.db }

    module _ {A : Type 0} where
      -- a call keeps what its effect on the database satisfies
      pub Keeps-call :
          (op : Db → Result (A × Db))
          → ((db : Db) (a : A) (db' : Db) → op db ≡ ok (a, db') → R db db')
          → Keeps R (call prisma op)
      unfolding call
      Keeps-call op h = record { at = λ w. go w (prisma.fault w.tick) (op w.db) refl }
        where
          go :
              (w : World) (x : Option DbError) (y : Result (A × Db))
              → op w.db ≡ y
              → R w.db (settle x op w).1.db
          go w (some e) y p = pre.reflexive w.db
          go w none (ok (a, db')) p = rw (p, settle) (h w.db a db' p)
          go w none (err e) p = rw (p, settle) (pre.reflexive w.db)

      pub Keeps-read : (f : Db → A) → Keeps R (read prisma f)
      unfolding read
      Keeps-read f =
          Keeps-call _
            (λ db a db' e. let same : db ≡ db' = cc in subst (λ x. R db x) same (pre.reflexive db))

    module _ {A : Type 0} (t : Table A) where
      pub Keeps-find_first : (p : A → Bool) → Keeps R (find_first prisma t p)
      unfolding find_first
      Keeps-find_first p = Keeps-read _

      pub Keeps-find_all : (p : A → Bool) → Keeps R (find_all prisma t p)
      unfolding find_all
      Keeps-find_all p = Keeps-read _

      -- a write keeps what the change of its table satisfies
      pub Keeps-create :
          (r : A)
          → ((db : Db) → R db (t.with_rows (prisma.insert r (t.rows db)) db))
          → Keeps R (create prisma t r)
      unfolding create
      Keeps-create r h = Keeps-call _ (create_in-keeps R prisma t r h)

      pub Keeps-update :
          (p : A → Bool) (f : A → A)
          → ((db : Db) (r : A) (rows : List A)
              → prisma.update p f (t.rows db) ≡ some (r, rows)
              → R db (t.with_rows rows db))
          → Keeps R (update prisma t p f)
      unfolding update
      Keeps-update p f h = Keeps-call _ (update_in-keeps R prisma t p f h)

      pub Keeps-delete :
          (p : A → Bool)
          → ((db : Db) (rows : List A)
              → prisma.delete p (t.rows db) ≡ some rows
              → R db (t.with_rows rows db))
          → Keeps R (delete prisma t p)
      unfolding delete
      Keeps-delete p h = Keeps-call _ (delete_in-keeps R prisma t p h)

-- for a relation that is a preorder, whichever it is
pub ruleset keeps_rules = (
  Keeps-pure, Keeps-throw, Keeps-lift, Keeps-bind, Keeps-or_throw, Keeps-branch, Keeps-throw_if,
  Keeps-when, Keeps-for_each, Keeps-try_catch, Keeps-now, Keeps-fresh_id, Keeps-find_first,
  Keeps-find_all, Keeps-read, Keeps-transaction, Keeps-Yields,
)
