-- ===== src/Prisma/Counts.antt =====
-- How many rows of a table fit a test, whatever their order, and what a unique key says of that.
use mathlib.Core.List.{Permᴰ, mem-cons, not-mem-nil}
use mathlib.Core.List.Perm
use mathlib.Core.Logic.Or
use mathlib.Core.Bool.{Bool-set}
use native.Mathlib.Bridge.{le_prop}
use native.Mathlib.Nat.{ℕ_set}
use k_pos_be.Common.{
  Mem, ◌≤◌, ℕ, ◌+◌, ◌≡◌, refl, ◌∙◌, Bool, true, false, ◌||◌, ◌==◌, Bool-cases, inl, inr, List, [],
  ◌∷◌, Perm, any, arith, ∥∥₁_elim, if◌then◌else◌,
}
use k_pos_be.Schema.{Db, Table}
use k_pos_be.Prisma.{Prisma}
use k_pos_be.Prisma.Action.{ok, create_in}

module _ {R : Type 0} (p : R → Bool) where
  unfoldable pub count_by : List R → ℕ
  count_by [] = 0
  count_by (r ∷ rs) = (if p r then 1 else 0) + count_by rs

  pub count_by-cons :
      (r : R) (rs : List R) → count_by (r ∷ rs) ≡ (if p r then 1 else 0) + count_by rs
  unfolding count_by
  count_by-cons r rs = refl

  count_by-permᴰ : {xs ys : List R} → Permᴰ xs ys → count_by xs ≡ count_by ys
  unfolding count_by
  count_by-permᴰ Permᴰ.nil = refl
  count_by-permᴰ (Permᴰ.cons e d) = cc (e, count_by-permᴰ d)
  count_by-permᴰ (Permᴰ.swap {a} {b} {l} e d) = rw (← e, ← d) (omega arith)
  count_by-permᴰ (Permᴰ.trans d e) = count_by-permᴰ d ∙ count_by-permᴰ e

  pub count_by-perm : {xs ys : List R} → Perm xs ys → count_by xs ≡ count_by ys
  count_by-perm d = ∥∥₁_elim d (ℕ_set _ _) (λ e. count_by-permᴰ e)

  -- no row fits where none fits a weaker test
  pub count_by-any :
      (q : R → Bool) (rs : List R)
      → ((r : R) → p r ≡ true → q r ≡ true)
      → any q rs ≡ false
      → count_by rs ≡ 0
  unfolding count_by
  count_by-any q [] h e = refl
  count_by-any q (r ∷ rs) h e = elim (Bool-cases (p r)) [
    | inl fits ↦ let clash = h r fits in absurd (ground arith)
    | inr no_fit ↦ let rest = count_by-any q rs h (ground arith) in rw no_fit (omega arith)
  ]

module _ (prisma : Prisma) {R : Type 0} (t : Table R) where
  pub create_in-fresh :
      (r : R) (db : Db) (a : R) (db' : Db)
      → create_in prisma t r db ≡ ok (a, db')
      → any (λ s. t.key s == t.key r || t.twin r s) (t.rows db) ≡ false
  unfolding create_in
  create_in-fresh r db a db' e =
      elim (Bool-cases (any (λ s. t.key s == t.key r || t.twin r s) (t.rows db))) [
        | inl h ↦ let clash = rw h at e in cc
        | inr h ↦ h
      ]

module _ {R : Type 0} (p : R → Bool) where
  pub none-fits : (r : R) (rows : List R) → Mem r rows → p r ≡ true → 1 ≤ count_by p rows
  unfolding count_by
  none-fits r [] m h = absurd (not-mem-nil m)
  none-fits r (s ∷ rows) m h =
      Or.elim le_prop (mem-cons.0 m) (λ e. rw (← e, h) (omega arith))
        (λ k. let rest = none-fits r rows k h in omega arith)

  -- where at most one row fits, what holds of a row that fits holds of the row in question
  pub lone :
      (q : R → Bool) (r s : R) (table others : List R)
      → Perm table (s ∷ others)
      → count_by p table ≤ 1
      → p s ≡ true
      → p r ≡ true
      → Mem r table
      → q r ≡ true
      → q s ≡ true
  lone q r s table others same few fits also m h =
      Or.elim (Bool-set _ _) (mem-cons.0 ((Perm.mem_iff same).0 m)) (λ e. rw (← e) h)
        (λ k. absurd (
          let most = count_by-perm p same in
          let first : count_by p (s ∷ others) ≡ 1 + count_by p others =
            count_by-cons p s others ∙ rw fits refl in
          let more = none-fits r others k also in omega arith))
