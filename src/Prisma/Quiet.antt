-- ===== src/Prisma/Quiet.antt =====
-- Actions that put no message on a queue.
use k_pos_be.Common.{◌≡◌, refl, subst, ◌∙◌, Bool, Option, none, some}
use k_pos_be.Schema.{Db, Table}
use k_pos_be.Prisma.{Prisma, DbError}
use k_pos_be.Prisma.Action.{
  World, Action, Result, ok, err, Error, pure, ◌>>=◌, continue, try_catch, recover, call, settle,
  now, fresh_id, find_first, find_all, read, create, update,
}

pub record IsQuiet {A : Type 0} (m : Action A) : Type 0 where
  pub at : (w : World) → (m w).1.sent ≡ w.sent

pub Quiet-pure : {A : Type 0} (a : A) → IsQuiet (pure a)
unfolding pure
Quiet-pure a = record { at = λ w. refl }

module _ {A B : Type 0} where
  pub Quiet-bind :
      (m : Action A) (f : A → Action B) → IsQuiet m → ((a : A) → IsQuiet (f a)) → IsQuiet (m >>= f)
  unfolding ◌>>=◌
  Quiet-bind m f q r = record { at = λ w. go w (m w) (q.at w) }
    where
      go :
          (w : World) (x : Result A × World)
          → x.1.sent ≡ w.sent
          → (continue x.0 f x.1).1.sent ≡ w.sent
      go w (ok a, v) h = (r a).at v ∙ h
      go w (err e, v) h = h

  pub Quiet-try_catch :
      (m : Action A) (f : A → Action B) (g : Error → Action B)
      → IsQuiet m
      → ((a : A) → IsQuiet (f a))
      → ((e : Error) → IsQuiet (g e))
      → IsQuiet (try_catch m f g)
  unfolding try_catch
  Quiet-try_catch m f g q r s = record { at = λ w. go w (m w) (q.at w) }
    where
      go :
          (w : World) (x : Result A × World)
          → x.1.sent ≡ w.sent
          → (recover x.0 f g x.1).1.sent ≡ w.sent
      go w (ok a, v) h = (r a).at v ∙ h
      go w (err e, v) h = (s e).at v ∙ h

module _ (prisma : Prisma) where
  pub Quiet-now : IsQuiet (now prisma)
  unfolding now
  Quiet-now = record { at = λ w. refl }

  pub Quiet-fresh_id : IsQuiet (fresh_id prisma)
  unfolding fresh_id
  Quiet-fresh_id = record { at = λ w. refl }

  module _ {A : Type 0} where
    Quiet-call : (op : Db → Result (A × Db)) → IsQuiet (call prisma op)
    unfolding call
    Quiet-call op = record { at = λ w. go w (prisma.fault w.tick) (op w.db) refl }
      where
        go :
            (w : World) (x : Option DbError) (y : Result (A × Db))
            → op w.db ≡ y
            → (settle x op w).1.sent ≡ w.sent
        go w (some e) y p = refl
        go w none (ok (a, db')) p = rw (p, settle) refl
        go w none (err e) p = rw (p, settle) refl

  module _ {R : Type 0} (t : Table R) where
    pub Quiet-find_first : (p : R → Bool) → IsQuiet (find_first prisma t p)
    unfolding find_first read
    Quiet-find_first p = Quiet-call _

    pub Quiet-find_all : (p : R → Bool) → IsQuiet (find_all prisma t p)
    unfolding find_all read
    Quiet-find_all p = Quiet-call _

    pub Quiet-create : (r : R) → IsQuiet (create prisma t r)
    unfolding create
    Quiet-create r = Quiet-call _

    pub Quiet-update : (p : R → Bool) (f : R → R) → IsQuiet (update prisma t p f)
    unfolding update
    Quiet-update p f = Quiet-call _

pub ruleset quiet_rules = (
  Quiet-pure, Quiet-bind, Quiet-try_catch, Quiet-now, Quiet-fresh_id, Quiet-find_first,
  Quiet-create, Quiet-update,
)

pub Quiet-sent :
    {A : Type 0} {m : Action A} {w w' : World} {r : Result A}
    → IsQuiet m
    → m w ≡ (r, w')
    → w'.sent ≡ w.sent
Quiet-sent {A} {m} {w} q e = subst (λ x. x.1.sent ≡ w.sent) e (q.at w)
