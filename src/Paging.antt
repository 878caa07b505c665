-- ===== src/Paging.antt =====
-- The pages of the lists: `take: limit + 1`, and the extra item, if there is one, taken off as the
-- cursor of the next page. src/modules/transactions/transactions.service.ts and
-- src/modules/products/products.service.ts.
pub mod Walk
pub mod Members
pub mod Maps
use k_pos_be.Common.{
  ℕ, zero, suc, ◌≤◌, ◌≡◌, refl, sym, ◌⊎◌, inl, inr, Option, none, some, List, [], ◌∷◌, ◌++◌, ltb,
  length, take, if◌then◌else◌, arith, ap, ◌∙◌,
}

module _ {A : Type 0} where
  -- `pop()`: the items without the last, and the last
  abbrev pub pop_after : A → List A × Option A → List A × Option A
  pop_after x (xs, none) = ([], some x)
  pop_after x (xs, some y) = (x ∷ xs, some y)

  unfoldable pub pop : List A → List A × Option A
  pop [] = ([], none)
  pop (x ∷ xs) = pop_after x (pop xs)

  -- the items of the page, and the extra item
  unfoldable pub cut : ℕ → List A → List A × Option A
  cut limit items = if ltb limit (length items) then pop items else (items, none)

  pop-append : (xs : List A) (y : A) → pop (xs ++ (y ∷ [])) ≡ (xs, some y)
  unfolding pop
  pop-append [] y = refl
  pop-append (x ∷ xs) y = rw (pop-append xs y)

  length-append_one : (xs : List A) (y : A) → length (xs ++ (y ∷ [])) ≡ suc (length xs)
  length-append_one [] y = refl
  length-append_one (x ∷ xs) y = ap suc (length-append_one xs y)

  take-append :
      (xs : List A) (y : A) (ys : List A) → take (suc (length xs)) (xs ++ (y ∷ ys)) ≡ xs ++ (y ∷ [])
  take-append [] y ys = refl
  take-append (x ∷ xs) y ys = ap (λ l. x ∷ l) (take-append xs y ys)

  take-all : (n : ℕ) (xs : List A) → length xs ≤ n → take n xs ≡ xs
  take-all zero [] h = refl
  take-all (suc n) [] h = refl
  take-all zero (x ∷ xs) h = absurd (omega arith)
  take-all (suc n) (x ∷ xs) h = ap (λ l. x ∷ l) (take-all n xs (omega arith))

  -- Where more than a page is left, the page is full and the extra item is the next in order.
  pub cut-more :
      (xs : List A) (y : A) (ys : List A)
      → cut (length xs) (take (suc (length xs)) (xs ++ (y ∷ ys))) ≡ (xs, some y)
  unfolding cut
  cut-more xs y ys =
      rw (take-append xs y ys, length-append_one xs y, pop-append xs y) (ground arith)

  -- Where no more than a page is left, the page is all of it.
  pub cut-last :
      (limit : ℕ) (xs : List A) → length xs ≤ limit → cut limit (take (suc limit) xs) ≡ (xs, none)
  unfolding cut
  cut-last limit xs h = rw (take-all (suc limit) xs (omega arith)) (ground arith)

  -- A list is at most a page long, or has a full page and a next item.
  pub page-cases :
      (limit : ℕ) (xs : List A)
      → (length xs ≤ limit)
        ⊎ ((ys : List A) × (y : A) × (zs : List A) × (xs ≡ ys ++ (y ∷ zs)) × (length ys ≡ limit))
  page-cases limit [] = inl (omega arith)
  page-cases zero (x ∷ xs) = inr ([], x, xs, refl, refl)
  page-cases (suc n) (x ∷ xs) = elim (page-cases n xs) [
    | inl h ↦ inl (omega arith)
    | inr (ys, y, zs, e, l) ↦ inr (x ∷ ys, y, zs, ap (λ t. x ∷ t) e, omega arith)
  ]
