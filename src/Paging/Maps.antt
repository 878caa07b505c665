-- ===== src/Paging/Maps.antt =====
-- Pages of a list and pages of what is read off its items.
use k_pos_be.Common.{
  ℕ, zero, suc, ◌≡◌, refl, ap, String, Bool, Bool-cases, inl, inr, Option, none, some, List, [],
  ◌∷◌, map, length, take, drop_until, ltb,
}
use k_pos_be.Paging.{pop, pop_after, cut}
use k_pos_be.Paging.Walk.{cursor_of, page_of}

module _ {A B : Type 0} (f : A → B) where
  abbrev map_extra : Option A → Option B
  map_extra none = none
  map_extra (some a) = some (f a)

  -- both parts of a page
  abbrev map_cut : List A × Option A → List B × Option B
  map_cut r = (map f r.0, map_extra r.1)

  pop_after-map :
      (x : A) (r : List A × Option A) → pop_after (f x) (map_cut r) ≡ map_cut (pop_after x r)
  pop_after-map x (ys, none) = refl
  pop_after-map x (ys, some y) = refl

  pop-map : (xs : List A) → pop (map f xs) ≡ map_cut (pop xs)
  unfolding pop
  pop-map [] = refl
  pop-map (x ∷ xs) = rw (pop-map xs) (pop_after-map x (pop xs))

  length-map : (xs : List A) → length (map f xs) ≡ length xs
  length-map [] = refl
  length-map (x ∷ xs) = ap suc (length-map xs)

  cut-map : (limit : ℕ) (xs : List A) → cut limit (map f xs) ≡ map_cut (cut limit xs)
  unfolding cut
  cut-map limit xs =
      rw (length-map xs) (elim (Bool-cases (ltb limit (length xs))) [
        | inl e ↦ rw e (pop-map xs)
        | inr e ↦ rw e refl
      ])

  take-map : (n : ℕ) (xs : List A) → take n (map f xs) ≡ map f (take n xs)
  take-map zero xs = refl
  take-map (suc n) [] = refl
  take-map (suc n) (x ∷ xs) = ap (λ l. f x ∷ l) (take-map n xs)

  pub drop_until-map :
      (p : B → Bool) (xs : List A) → drop_until p (map f xs) ≡ map f (drop_until (λ a. p (f a)) xs)
  drop_until-map p [] = refl
  drop_until-map p (x ∷ xs) = elim (Bool-cases (p (f x))) [
    | inl e ↦ rw e refl
    | inr e ↦ rw e (drop_until-map p xs)
  ]

  module _ (id : B → String) where
    cursor-map : (o : Option A) → cursor_of id (map_extra o) ≡ cursor_of (λ a. id (f a)) o
    cursor-map none = refl
    cursor-map (some a) = refl

    -- the items read off, and the cursor
    abbrev pub read_off : List A × Option String → List B × Option String
    read_off r = (map f r.0, r.1)

    pub page_of-map :
        (limit : ℕ) (xs : List A)
        → page_of id limit (map f xs) ≡ read_off (page_of (λ a. id (f a)) limit xs)
    unfolding page_of
    page_of-map limit xs =
        rw (take-map (suc limit) xs, cut-map limit (take (suc limit) xs))
          (ap (λ c. (map f (cut limit (take (suc limit) xs)).0, c))
            (cursor-map (cut limit (take (suc limit) xs)).1))
