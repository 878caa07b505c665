-- ===== src/Paging/Members.antt =====
-- What a page holds: items of the list, and no more than its limit.
use mathlib.Core.Logic.Or
use mathlib.Core.Logic.{∥∥₁_prop}
use mathlib.Core.List.{mem-cons, not-mem-nil, mem-cons_self, mem-cons_of_mem}
use mathlib.Core.Bool.{Bool-set}
use k_pos_be.Common.{
  ℕ, zero, suc, ◌≤◌, ◌≡◌, Bool, true, Option, none, some, List, [], ◌∷◌, Mem, length, take, drop,
  drop_until, select, arith, Bool-cases, inl, inr, ltb,
}
use k_pos_be.Paging.{pop, pop_after, cut}

module _ {A : Type 0} where
  pub mem-take : (n : ℕ) (xs : List A) (a : A) → Mem a (take n xs) → Mem a xs
  mem-take zero xs a m = absurd (not-mem-nil m)
  mem-take (suc n) [] a m = m
  mem-take (suc n) (x ∷ xs) a m =
      Or.elim ∥∥₁_prop (mem-cons.0 m) (λ e. rw e mem-cons_self)
        (λ k. mem-cons_of_mem x (mem-take n xs a k))

  pub mem-drop : (n : ℕ) (xs : List A) (a : A) → Mem a (drop n xs) → Mem a xs
  mem-drop zero xs a m = m
  mem-drop (suc n) [] a m = m
  mem-drop (suc n) (x ∷ xs) a m = mem-cons_of_mem x (mem-drop n xs a m)

  pub mem-drop_until : (p : A → Bool) (xs : List A) (a : A) → Mem a (drop_until p xs) → Mem a xs
  mem-drop_until p [] a m = m
  mem-drop_until p (x ∷ xs) a m = elim (Bool-cases (p x)) [
    | inl h ↦ rw h at m
    | inr h ↦ mem-cons_of_mem x (mem-drop_until p xs a (rw h at m))
  ]

  -- a selected item fits
  pub select-fits : (p : A → Bool) (xs : List A) (a : A) → Mem a (select p xs) → p a ≡ true
  select-fits p [] a m = absurd (not-mem-nil m)
  select-fits p (x ∷ xs) a m = elim (Bool-cases (p x)) [
    | inl h ↦
        Or.elim (Bool-set _ _) (mem-cons.0 (rw h at m)) (λ e. rw e h) (λ k. select-fits p xs a k)
    | inr h ↦ select-fits p xs a (rw h at m)
  ]

  pub select-Mem : (p : A → Bool) (xs : List A) (a : A) → Mem a (select p xs) → Mem a xs
  select-Mem p [] a m = m
  select-Mem p (x ∷ xs) a m = elim (Bool-cases (p x)) [
    | inl h ↦
        Or.elim ∥∥₁_prop (mem-cons.0 (rw h at m)) (λ e. rw e mem-cons_self)
          (λ k. mem-cons_of_mem x (select-Mem p xs a k))
    | inr h ↦ mem-cons_of_mem x (select-Mem p xs a (rw h at m))
  ]

  pub mem-select :
      (p : A → Bool) (xs : List A) (a : A) → Mem a xs → p a ≡ true → Mem a (select p xs)
  mem-select p [] a m h = absurd (not-mem-nil m)
  mem-select p (x ∷ xs) a m h = elim (Bool-cases (p x)) [
    | inl k ↦ rw k (
        Or.elim ∥∥₁_prop (mem-cons.0 m) (λ e. rw e mem-cons_self)
          (λ j. mem-cons_of_mem x (mem-select p xs a j h)))
    | inr k ↦ rw k (
        Or.elim ∥∥₁_prop (mem-cons.0 m) (λ e. absurd (let clash = rw e at h in cc))
          (λ j. mem-select p xs a j h))
  ]

  pop-mem : (xs : List A) (a : A) → Mem a (pop xs).0 → Mem a xs
  unfolding pop
  pop-mem [] a m = m
  pop-mem (x ∷ xs) a m = go (pop xs) (pop-mem xs a) m
    where
      go :
          (r : List A × Option A)
          → (Mem a r.0 → Mem a xs)
          → Mem a (pop_after x r).0
          → Mem a (x ∷ xs)
      go (ys, none) ih k = absurd (not-mem-nil k)
      go (ys, some y) ih k =
          Or.elim ∥∥₁_prop (mem-cons.0 k) (λ e. rw e mem-cons_self) (λ l. mem-cons_of_mem x (ih l))

  length-pop : (x : A) (xs : List A) → length (pop (x ∷ xs)).0 ≤ length xs
  unfolding pop
  length-pop x [] = omega arith
  length-pop x (y ∷ ys) = go (pop (y ∷ ys)) (length-pop y ys)
    where
      go :
          (r : List A × Option A)
          → length r.0 ≤ length ys
          → length (pop_after x r).0 ≤ suc (length ys)
      go (zs, none) ih = omega arith
      go (zs, some z) ih = omega arith

  pub length-cut :
      (limit : ℕ) (xs : List A) → length xs ≤ suc limit → length (cut limit xs).0 ≤ limit
  unfolding cut pop
  length-cut limit [] h = ground arith
  length-cut limit (x ∷ xs) h = elim (Bool-cases (ltb limit (length (x ∷ xs)))) [
    | inl e ↦ rw e (omega (arith, length-pop x xs))
    | inr e ↦ rw e (ground arith)
  ]

  pub cut-mem : (limit : ℕ) (xs : List A) (a : A) → Mem a (cut limit xs).0 → Mem a xs
  unfolding cut
  cut-mem limit xs a m = elim (Bool-cases (ltb limit (length xs))) [
    | inl h ↦ pop-mem xs a (rw h at m)
    | inr h ↦ rw h at m
  ]

  pub length-take-le : (n : ℕ) (xs : List A) → length (take n xs) ≤ n
  length-take-le zero xs = omega arith
  length-take-le (suc n) [] = omega arith
  length-take-le (suc n) (x ∷ xs) = omega (arith, length-take-le n xs)
