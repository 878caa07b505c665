-- ===== src/Prisma/Steps.antt =====
-- What a step that returned has done, for each kind of step.
use k_pos_be.Common.{
  ℕ, Bool, true, false, ◌≡◌, refl, Option, none, some, List, ◌∷◌, Perm, arith, sym,
}
use k_pos_be.Schema.{Db, Table}
use k_pos_be.Prisma.{Prisma, DbError}
use k_pos_be.Prisma.Action.{
  World, Action, Result, ok, err, Error, pure, throw, throw_if, or_throw, now, call, settle, update,
  transaction, restore,
}
use k_pos_be.Prisma.Inversion.{update_in-rows}

pub pure-ok : {A : Type 0} (a b : A) (w w' : World) → pure a w ≡ (ok b, w') → (a ≡ b) × (w ≡ w')
unfolding pure
pure-ok a b w w' h = (cc, cc)

pub throw_if-ok :
    (b : Bool) (e : Error) (w w' : World) → throw_if b e w ≡ (ok tt, w') → (b ≡ false) × (w' ≡ w)
unfolding throw_if
throw_if-ok true e w w' h = cc
throw_if-ok false e w w' h = (refl, cc)

pub or_throw-ok :
    {A : Type 0} (o : Option A) (e : Error) (w w' : World) (a : A)
    → or_throw o e w ≡ (ok a, w')
    → (o ≡ some a) × (w' ≡ w)
unfolding or_throw pure throw
or_throw-ok none e w w' a h = cc
or_throw-ok (some b) e w w' a h = (ground arith, cc)

module _ (prisma : Prisma) where
  pub now-ok : (w w' : World) (t : ℕ) → now prisma w ≡ (ok t, w') → w'.db ≡ w.db
  unfolding now
  now-ok w w' t h = ground arith

  pub call-ok :
      {A : Type 0} (op : Db → Result (A × Db)) (w w' : World) (a : A)
      → call prisma op w ≡ (ok a, w')
      → op w.db ≡ ok (a, w'.db)
  unfolding call
  call-ok {A} op w w' a h = go (prisma.fault w.tick) (op w.db) refl h
    where
      go :
          (x : Option DbError) (y : Result (A × Db))
          → op w.db ≡ y
          → settle x op w ≡ (ok a, w')
          → op w.db ≡ ok (a, w'.db)
      go (some f) y p e = cc
      go none (ok (b, db')) p e =
          let value : b ≡ a = ground (arith, p) in
          let after : db' ≡ w'.db = ground (arith, p) in rw (p, value, after)
      go none (err f) p e = absurd (ground (arith, p))

  module _ {R : Type 0} (t : Table R) where
    -- One row that fits has been replaced, and is what the call returns.
    pub record IsUpdated (q : R → Bool) (f : R → R) (r' : R) (db db' : Db) : Type 0 where
      pub row : R
      pub rest : List R
      pub rows : List R
      pub fits : q row ≡ true
      pub value : r' ≡ f row
      pub before : Perm (t.rows db) (row ∷ rest)
      pub after : Perm rows (f row ∷ rest)
      pub written : db' ≡ t.with_rows rows db

    pub update-ok :
        (q : R → Bool) (f : R → R) (w w' : World) (r' : R)
        → update prisma t q f w ≡ (ok r', w')
        → IsUpdated q f r' w.db w'.db
    unfolding update
    update-ok q f w w' r' h =
        let (rows, e, same) = update_in-rows prisma t q f w.db r' w'.db (call-ok _ w w' r' h) in
        let (row, rest, fits, value, before, after) = prisma.update-some q f _ r' rows e in
        record {
          row = row;
          rest = rest;
          rows = rows;
          fits = fits;
          value = value;
          before = before;
          after = after;
          written = sym same;
        }

-- A transaction that returned has done what its body does.
pub transaction-ok :
    {A : Type 0} (m : Action A) (w w' : World) (a : A)
    → transaction m w ≡ (ok a, w')
    → m w ≡ (ok a, w')
unfolding transaction
transaction-ok {A} m w w' a h = go (m w) h
  where
    go : (x : Result A × World) → restore w.db x ≡ (ok a, w') → x ≡ (ok a, w')
    go (ok b, v) e = e
    go (err f, v) e = cc
