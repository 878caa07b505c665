-- ===== src/Transactions/Listing/Newest.antt =====
-- Sales in the order of their creation, the newest first, no two at one instant.
use mathlib.Core.List.{mem-cons, mem-cons_self, not-mem-nil}
use mathlib.Core.List.Perm
use mathlib.Core.Logic.Or
use text.Mathlib.TextEquality.{IsScalar-prop}
use native.Mathlib.Bridge.{le_prop}
use k_pos_be.Common.{◌<◌, ◌≡◌, refl, sym, List, [], ◌∷◌, Mem, Perm, All, arith, subst}
use k_pos_be.Schema.{Transaction}

-- Every sale is newer than those that follow it.
abbrev pub IsNewestFirst : List Transaction → Type 0
IsNewestFirst [] = Unit
IsNewestFirst (t ∷ ts) = All (λ s. s.created_at < t.created_at) ts × IsNewestFirst ts

older :
    (t s : Transaction) (ts : List Transaction)
    → All (λ r. r.created_at < t.created_at) ts
    → Mem s ts
    → s.created_at < t.created_at
older t s [] h m = absurd (not-mem-nil m)
older t s (r ∷ ts) h m = Or.elim le_prop (mem-cons.0 m) (λ e. rw e h.0) (older t s ts h.1)

Transaction-set : IsSet Transaction
Transaction-set = hlevel (IsScalar-prop)

same-head :
    (s t : Transaction) (ss ts : List Transaction)
    → IsNewestFirst (s ∷ ss)
    → IsNewestFirst (t ∷ ts)
    → Perm (s ∷ ss) (t ∷ ts)
    → s ≡ t
same-head s t ss ts h k p =
    Or.elim (Transaction-set s t) (mem-cons.0 ((Perm.mem_iff p).0 mem-cons_self)) (λ e. e)
      λ m.
        Or.elim (Transaction-set s t) (mem-cons.0 ((Perm.mem_iff p).1 mem-cons_self)) (λ e. sym e)
          λ n. let a = older t s ts k.0 m in let b = older s t ss h.0 n in absurd (omega arith)

-- The order is the only one.
pub newest_unique :
    (xs ys : List Transaction) → IsNewestFirst xs → IsNewestFirst ys → Perm xs ys → xs ≡ ys
newest_unique [] [] h k p = refl
newest_unique [] (y ∷ ys) h k p = absurd (not-mem-nil ((Perm.mem_iff p).1 mem-cons_self))
newest_unique (x ∷ xs) [] h k p = absurd (not-mem-nil ((Perm.mem_iff p).0 mem-cons_self))
newest_unique (x ∷ xs) (y ∷ ys) h k p =
    let same = same-head x y xs ys h k p in
    let rest =
      newest_unique xs ys h.1 k.1 (Perm.cons_inv (subst (λ z. Perm (z ∷ xs) (y ∷ ys)) same p)) in
    rw (same, rest) refl
