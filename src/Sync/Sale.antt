-- ===== src/Sync/Sale.antt =====
-- One sale through `processTransaction`: what a return and a throw mean.
use k_pos_be.Common.{◌≡◌, String, arith}
use k_pos_be.Schema.{SyncTransactionDto}
use k_pos_be.Prisma.{Prisma}
use k_pos_be.Prisma.Action.{World, ok, ⊤, lift}
use k_pos_be.Prisma.Keeps.{Yields, Yields-then, Yields-transaction}
use k_pos_be.Sync.Process.{validate_arithmetic, process_body, process_transaction}
use k_pos_be.Sync.Arithmetic.{IsBalanced, validate_arithmetic_iff}
use k_pos_be.Sync.Recorded.{IsRecorded, process-IsRecorded}

module _ (prisma : Prisma) (dto : SyncTransactionDto) where
  validate-IsBalanced : Yields (λ a b. IsBalanced dto) (lift (validate_arithmetic dto))
  unfolding lift
  validate-IsBalanced = record {
    at = λ w a w' e. (validate_arithmetic_iff dto).0 (ground (arith, e));
  }

  process-IsBalanced : Yields (λ a b. IsBalanced dto) (process_transaction prisma dto)
  unfolding process_transaction process_body
  process-IsBalanced = Yields-transaction (
      Yields-then {S = λ a b. ⊤} (λ a b c h k. h) _ _ validate-IsBalanced
        (λ _. record { at = λ w a w' e. tt }))

  -- Where `processTransaction` returns, the amounts of the sale add up, and one row of it has been
  -- stored: CONFIRMED, with the stock of every product and its audit trail both moved by minus
  -- what the lines sell, or PENDING as a conflict, with neither moved.
  pub process_transaction_lem :
      (p : String) (w w' : World)
      → process_transaction prisma dto w ≡ (ok tt, w')
      → IsBalanced dto × IsRecorded prisma p dto w.db w'.db
  process_transaction_lem p w w' h =
      (process-IsBalanced.at w tt w' h, (process-IsRecorded prisma p dto).at w tt w' h)
