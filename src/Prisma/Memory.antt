-- ===== src/Prisma/Memory.antt =====
-- The tables as plain lists: an instance of the client's interface, which shows that its laws can be
-- met, and on which the modelled services run.
use Prim.Native.String.{◌++◌}
use mathlib.Core.List.Perm
use mathlib.Core.List.{mem-cons, not-mem-nil, mem-cons_self, mem-cons_of_mem}
use mathlib.Core.Logic.Or
use mathlib.Core.Bool.{Bool-set}
use k_pos_be.Common.{
  ℕ, Bool, true, false, ◌≡◌, Option, none, some, List, [], ◌∷◌, Mem, Perm, select, take, drop,
  drop_until, refl, if◌then◌else◌, show_ℕ, arith, Bool-cases, inl, inr, Option-cases,
}
use k_pos_be.Prisma.{Prisma, DbError}

module _ {R : Type 0} where
  pub find : (R → Bool) → List R → Option R
  find p [] = none
  find p (r ∷ rs) = if p r then some r else find p rs

  abbrev write_tail : R → Option (R × List R) → Option (R × List R)
  write_tail r none = none
  write_tail r (some (s, rs)) = some (s, r ∷ rs)

  pub update : (R → Bool) → (R → R) → List R → Option (R × List R)
  update p f [] = none
  update p f (r ∷ rs) = if p r then some (f r, f r ∷ rs) else write_tail r (update p f rs)

  abbrev keep_head : R → Option (List R) → Option (List R)
  keep_head r none = none
  keep_head r (some rs) = some (r ∷ rs)

  pub delete : (R → Bool) → List R → Option (List R)
  delete p [] = none
  delete p (r ∷ rs) = if p r then some rs else keep_head r (delete p rs)

  pub find-some : (p : R → Bool) (t : List R) (r : R) → find p t ≡ some r → (p r ≡ true) × Mem r t
  unfolding find
  find-some p [] r e = cc
  find-some p (s ∷ t) r e = elim (Bool-cases (p s)) [
    | inl h ↦ let same : s ≡ r = ground arith in rw (← same) (h, mem-cons_self)
    | inr h ↦ let (q, m) = find-some p t r (rw h at e) in (q, mem-cons_of_mem s m)
  ]

  -- no row of the table fits
  abbrev pub NoneFits : (R → Bool) → List R → Type 0
  NoneFits p [] = Unit
  NoneFits p (r ∷ rs) = (p r ≡ false) × NoneFits p rs

  pub NoneFits-mem : (p : R → Bool) (t : List R) (r : R) → NoneFits p t → Mem r t → p r ≡ false
  NoneFits-mem p [] r h m = absurd (not-mem-nil m)
  NoneFits-mem p (s ∷ t) r h m =
      Or.elim (Bool-set _ _) (mem-cons.0 m) (λ e. rw e h.0) (λ k. NoneFits-mem p t r h.1 k)

  pub find-NoneFits : (p : R → Bool) (t : List R) → find p t ≡ none → NoneFits p t
  unfolding find
  find-NoneFits p [] e = tt
  find-NoneFits p (s ∷ t) e = ground (arith, find-NoneFits p t)

  pub update-NoneFits : (p : R → Bool) (f : R → R) (t : List R) → update p f t ≡ none → NoneFits p t
  unfolding update
  update-NoneFits p f [] e = tt
  update-NoneFits p f (s ∷ t) e = ground (arith, update-NoneFits p f t)

  pub delete-NoneFits : (p : R → Bool) (t : List R) → delete p t ≡ none → NoneFits p t
  unfolding delete
  delete-NoneFits p [] e = tt
  delete-NoneFits p (s ∷ t) e = ground (arith, delete-NoneFits p t)

  pub update-some :
      (p : R → Bool) (f : R → R) (t : List R) (r' : R) (t' : List R)
      → update p f t ≡ some (r', t')
      → (r : R) × (rest : List R) × (p r ≡ true)
        × (r' ≡ f r)
        × Perm t (r ∷ rest)
        × Perm t' (f r ∷ rest)
  unfolding update
  update-some p f [] r' t' e = cc
  update-some p f (s ∷ t) r' t' e = elim (Bool-cases (p s)) [
    | inl h ↦
        let same : t' ≡ f s ∷ t = ground arith in
        (s, t, h, ground arith, Perm.refl _, rw same (Perm.refl _))
    | inr h ↦ elim (Option-cases (update p f t)) [
      | inl q ↦ absurd (ground arith)
      | inr ((u, us), q) ↦
          let (r, rest, a, b, c, d) = update-some p f t u us q in
          let same : t' ≡ s ∷ us = ground arith in
          let first : r' ≡ u = ground arith in
          (
            r,
            s ∷ rest,
            a,
            rw first b,
            Perm.trans (Perm.cons s c) (Perm.swap r s rest),
            rw same (Perm.trans (Perm.cons s d) (Perm.swap (f r) s rest)),
          )
    ]
  ]

  pub delete-some :
      (p : R → Bool) (t t' : List R)
      → delete p t ≡ some t'
      → (r : R) × (p r ≡ true) × Perm t (r ∷ t')
  unfolding delete
  delete-some p [] t' e = cc
  delete-some p (s ∷ t) t' e = elim (Bool-cases (p s)) [
    | inl h ↦ let same : t' ≡ t = ground arith in (s, h, rw same (Perm.refl _))
    | inr h ↦ elim (Option-cases (delete p t)) [
      | inl q ↦ absurd (ground arith)
      | inr (us, q) ↦
          let (r, a, b) = delete-some p t us q in
          let same : t' ≡ s ∷ us = ground arith in
          (r, a, rw same (Perm.trans (Perm.cons s b) (Perm.swap r s us)))
    ]
  ]

  pub page : Option (R → Bool) → ℕ → ℕ → List R → List R
  page none skip limit t = take limit (drop skip t)
  page (some p) skip limit t = take limit (drop skip (drop_until p t))

-- Ids and instants are numbered, and `faults` says which calls are refused.
unfoldable pub in_memory : (ℕ → Option DbError) → Prisma
unfolding find update delete show_ℕ page
in_memory faults = record {
  cuid = λ n. "id" ++ show_ℕ n;
  clock = λ n. n;
  fault = faults;
  unique_message = "Unique constraint failed";
  foreign_message = "Foreign key constraint violated";
  missing_message = "Record not found";
  find = λ p t. find p t;
  find-some = λ p t r e. find-some p t r e;
  find-none = λ p t r e m. NoneFits-mem p t r (find-NoneFits p t e) m;
  find_many = λ p t. select p t;
  find_many-perm = λ p t. Perm.refl _;
  order_by = λ column t. t;
  order_by-perm = λ column t. Perm.refl _;
  page = λ c skip limit t. page c skip limit t;
  page-start = λ skip limit t. refl;
  page-cursor = λ p skip limit t. refl;
  insert = λ r t. r ∷ t;
  insert-perm = λ r t. Perm.refl _;
  update = λ p f t. update p f t;
  update-some = λ p f t r' t' e. update-some p f t r' t' e;
  update-none = λ p f t r e m. NoneFits-mem p t r (update-NoneFits p f t e) m;
  delete = λ p t. delete p t;
  delete-some = λ p t t' e. delete-some p t t' e;
  delete-none = λ p t r e m. NoneFits-mem p t r (delete-NoneFits p t e) m;
}

-- No call is refused.
abbrev pub client : Prisma
unfolding in_memory
client = in_memory (λ n. none)
