-- ===== src/Sync/Arithmetic.antt =====
-- The sales that `validateArithmetic` accepts.
use k_pos_be.Common.{
  ℕ, ◌+◌, ◌*◌, ◌≡◌, refl, ◌↔◌, arith, List, [], ◌∷◌, Bool-cases, inl, inr, eqb, All,
}
use k_pos_be.Schema.{SyncTransactionDto, SyncItemDto}
use k_pos_be.Prisma.Action.{Result, ok, err}
use k_pos_be.Sync.Process.{validate_items, check_total, validate_arithmetic}

abbrev pub sum_subtotals : List SyncItemDto → ℕ
sum_subtotals [] = 0
sum_subtotals (item ∷ items) = item.subtotal + sum_subtotals items

-- Every line is quantity times price, and the lines add up to subtotal and total.
pub record IsBalanced (dto : SyncTransactionDto) : Type 0 where
  pub lines : All (λ item. item.quantity * item.unit_price ≡ item.subtotal) dto.items
  pub subtotal : sum_subtotals dto.items ≡ dto.subtotal
  pub total : sum_subtotals dto.items ≡ dto.total

validate_items_sound :
    (sum : ℕ) (items : List SyncItemDto) (n : ℕ)
    → validate_items sum items ≡ ok n
    → All (λ item. item.quantity * item.unit_price ≡ item.subtotal) items
      × (n ≡ sum + sum_subtotals items)
unfolding validate_items
validate_items_sound sum [] n h = (tt, ground arith)
validate_items_sound sum (item ∷ items) n h =
    elim (Bool-cases (eqb (item.quantity * item.unit_price) item.subtotal)) [
      | inl e ↦
          let (rest, total) = validate_items_sound (sum + item.subtotal) items n (ground arith) in
          ((ground arith, rest), omega arith)
      | inr e ↦ absurd (ground arith)
    ]

validate_items_complete :
    (sum : ℕ) (items : List SyncItemDto)
    → All (λ item. item.quantity * item.unit_price ≡ item.subtotal) items
    → validate_items sum items ≡ ok (sum + sum_subtotals items)
unfolding validate_items
validate_items_complete sum [] h = ground arith
validate_items_complete sum (item ∷ items) h =
    ground (arith, validate_items_complete (sum + item.subtotal) items h.1)

validate_sound : (dto : SyncTransactionDto) → validate_arithmetic dto ≡ ok tt → IsBalanced dto
unfolding validate_arithmetic
validate_sound dto h = go (validate_items 0 dto.items) refl h
  where
    go :
        (r : Result ℕ) → validate_items 0 dto.items ≡ r → check_total dto r ≡ ok tt → IsBalanced dto
    go (ok n) e q =
        let (lines, total) = validate_items_sound 0 dto.items n e in
        record { lines = lines; subtotal = ground arith; total = ground arith }
    go (err x) e q = absurd (ground arith)

-- On whole amounts `validateArithmetic` accepts a sale exactly if the subtotal of every line is its
-- quantity times its price, and these subtotals add up to both the subtotal and the total of the sale.
pub validate_arithmetic_iff :
    (dto : SyncTransactionDto) → (validate_arithmetic dto ≡ ok tt) ↔ IsBalanced dto
unfolding validate_arithmetic
validate_arithmetic_iff dto = (
  validate_sound dto,
  λ b.
      rw (validate_items_complete 0 dto.items b.lines)
        (let s = b.subtotal in let t = b.total in ground arith),
)
