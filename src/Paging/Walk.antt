-- ===== src/Paging/Walk.antt =====
-- A reader who follows the cursors from page to page.
use mathlib.Core.List.{append-nil, append_assoc}
use k_pos_be.Common.{
  ℕ, zero, suc, ◌+◌, ◌≤◌, ◌<◌, ◌≡◌, refl, sym, ◌∙◌, ap, Bool, true, false, String, ◌==◌, is_empty,
  Option, none, some, List, [], ◌∷◌, ◌++◌, length, take, drop_until, any, if◌then◌else◌, arith, inl,
  inr, Bool-cases, eq_iff, eq_refl, subst,
}
use k_pos_be.Paging.{cut, cut-more, cut-last, page-cases}

module _ {A : Type 0} (id : A → String) where
  -- No two items share an id, and every id is a text that is not empty.
  abbrev pub AreIdentified : List A → Type 0
  AreIdentified [] = Unit
  AreIdentified (x ∷ xs) =
      (any (λ r. id r == id x) xs ≡ false) × (is_empty (id x) ≡ false) × AreIdentified xs

  -- `nextItem?.id || null`
  abbrev pub cursor_of : Option A → Option String
  cursor_of none = none
  cursor_of (some y) = if is_empty (id y) then none else some (id y)

  -- a page of the items from here on
  unfoldable pub page_of : ℕ → List A → List A × Option String
  page_of limit items = let (xs, next) = cut limit (take (suc limit) items) in (xs, cursor_of next)

  length-split :
      (ys : List A) (y : A) (zs : List A) → length (ys ++ (y ∷ zs)) ≡ length ys + suc (length zs)
  length-split [] y zs = omega arith
  length-split (x ∷ ys) y zs = omega (arith, length-split ys y zs)

  pub page-full :
      (ys : List A) (y : A) (zs : List A)
      → is_empty (id y) ≡ false
      → page_of (length ys) (ys ++ (y ∷ zs)) ≡ (ys, some (id y))
  unfolding page_of
  page-full ys y zs named = rw (cut-more ys y zs, named)

  mid-differs :
      (p : A → Bool) (pre : List A) (y : A) (zs : List A)
      → any p (pre ++ (y ∷ zs)) ≡ false
      → p y ≡ false
  mid-differs p [] y zs h = ground arith
  mid-differs p (x ∷ pre) y zs h = mid-differs p pre y zs (ground arith)

  pub mid-named :
      (pre : List A) (y : A) (zs : List A)
      → AreIdentified (pre ++ (y ∷ zs))
      → is_empty (id y) ≡ false
  mid-named [] y zs h = h.1
  mid-named (x ∷ pre) y zs h = mid-named pre y zs h.2

  pub drop_until-mid :
      (pre : List A) (y : A) (zs : List A)
      → AreIdentified (pre ++ (y ∷ zs))
      → drop_until (λ r. id r == id y) (pre ++ (y ∷ zs)) ≡ y ∷ zs
  drop_until-mid [] y zs h = rw (eq_refl (id y))
  drop_until-mid (x ∷ pre) y zs h = elim (Bool-cases (id x == id y)) [
    | inl e ↦
        let differs = mid-differs (λ r. id r == id x) pre y zs h.0 in
        let same : id x ≡ id y = (eq_iff _ _).0 e in
        let clash : (id y == id x) ≡ true = (eq_iff _ _).1 (sym same) in cc
    | inr e ↦ rw e (drop_until-mid pre y zs h.2)
  ]

  -- the items and the next cursor, from a cursor on
  module _ (list : Option String → List A × Option String) where
    abbrev pub read_on : (Option String → List A) → Option String → List A
    read_on go none = []
    read_on go (some c) = go (some c)

    -- all pages, one after another
    unfoldable pub walk : ℕ → Option String → List A
    walk zero cursor = []
    walk (suc n) cursor = (list cursor).0 ++ read_on (walk n) (list cursor).1

    module _ (rows : List A) (limit : ℕ) (start : list none ≡ page_of limit rows)
        (later : (c : String)
          → is_empty c ≡ false
          → list (some c) ≡ page_of limit (drop_until (λ r. id r == c) rows))
        (positive : 1 ≤ limit) (identified : AreIdentified rows) where
      walk-rest :
          (n : ℕ) (cursor : Option String) (pre rest : List A)
          → rows ≡ pre ++ rest
          → list cursor ≡ page_of limit rest
          → length rest < n
          → walk n cursor ≡ rest
      unfolding walk page_of
      walk-rest zero cursor pre rest split here enough = absurd (omega arith)
      walk-rest (suc n) cursor pre rest split here enough = elim (page-cases limit rest) [
        | inl short ↦ rw (here, cut-last limit rest short) (append-nil rest)
        | inr (ys, y, zs, e, full) ↦
            let whole : rows ≡ (pre ++ ys) ++ (y ∷ zs) =
              split ∙ (ap (λ l. pre ++ l) e ∙ sym (append_assoc pre ys (y ∷ zs))) in
            let known : AreIdentified ((pre ++ ys) ++ (y ∷ zs)) =
              subst (λ l. AreIdentified l) whole identified in
            let named = mid-named (pre ++ ys) y zs known in
            let next : list (some (id y)) ≡ page_of limit (y ∷ zs) =
              later (id y) named
              ∙ (ap (λ l. page_of limit (drop_until (λ r. id r == id y) l)) whole
                  ∙ ap (page_of limit) (drop_until-mid (pre ++ ys) y zs known)) in
            let shorter : length (y ∷ zs) < n = omega (arith, length-split ys y zs, ap length e) in
            let tail = walk-rest n (some (id y)) (pre ++ ys) (y ∷ zs) whole next shorter in
            let page : page_of limit rest ≡ (ys, some (id y)) =
              ap (page_of limit) e
              ∙ subst (λ k. page_of k (ys ++ (y ∷ zs)) ≡ (ys, some (id y))) full
                  (page-full ys y zs named) in
            ap (λ r. r.0 ++ read_on (walk n) r.1) (here ∙ page) ∙ (ap (λ l. ys ++ l) tail ∙ sym e)
      ]

      -- Followed from the start, the pages hold every item once and in order.
      pub walk-all : walk (suc (length rows)) none ≡ rows
      walk-all = walk-rest (suc (length rows)) none [] rows refl start (omega arith)
