-- ===== src/Prisma/Sums.antt =====
-- Sums over a table, which do not depend on the order of its rows.
use mathlib.Core.List.{Permᴰ}
use native.Mathlib.Decide.{ℕ_discrete}
use mathlib.Core.HLevel.{hedberg}
use k_pos_be.Common.{◌≡◌, refl, ◌∙◌, List, [], ◌∷◌, Perm, ∥∥₁_elim}
use k_pos_be.Common.Int.{ℤ, pos, ◌+ℤ◌, int_laws}

ℤ-discrete : Discrete ℤ
ℤ-discrete = hlevel ℕ_discrete

pub ℤ-set : IsSet ℤ
ℤ-set = hedberg ℤ-discrete

module _ {R : Type 0} (f : R → ℤ) where
  unfoldable pub sum_by : List R → ℤ
  sum_by [] = pos 0
  sum_by (r ∷ rs) = f r +ℤ sum_by rs

  pub sum_by-cons : (r : R) (rs : List R) → sum_by (r ∷ rs) ≡ f r +ℤ sum_by rs
  unfolding sum_by
  sum_by-cons r rs = refl

  sum_by-permᴰ : {xs ys : List R} → Permᴰ xs ys → sum_by xs ≡ sum_by ys
  unfolding sum_by
  sum_by-permᴰ Permᴰ.nil = refl
  sum_by-permᴰ (Permᴰ.cons e d) = cc (e, sum_by-permᴰ d)
  sum_by-permᴰ (Permᴰ.swap {a} {b} {l} e d) = rw (← e, ← d) (omega int_laws)
  sum_by-permᴰ (Permᴰ.trans d e) = sum_by-permᴰ d ∙ sum_by-permᴰ e

  pub sum_by-perm : {xs ys : List R} → Perm xs ys → sum_by xs ≡ sum_by ys
  sum_by-perm p = ∥∥₁_elim p (ℤ-set _ _) (λ d. sum_by-permᴰ d)
