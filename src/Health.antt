-- ===== src/Health.antt =====
-- src/modules/health/health.service.ts.
use k_pos_be.Common.{ℕ, String}
use k_pos_be.Prisma.{Prisma}
use k_pos_be.Prisma.Action.{Action, unhealthy, pure, throw, ◌>>=◌, ◌>>◌, try_catch, read, now}
use k_pos_be.Sync.Failure.{message_of}

pub record HealthReport : Type 0 where
  pub status : String
  pub database_status : String
  pub timestamp : ℕ

module _ (prisma : Prisma) where
  -- the query `SELECT 1`, and the answer
  unfoldable pub query_one : Action HealthReport
  query_one = do
    read prisma (λ db. tt)
    at ← now prisma
    pure (record { status = "ok"; database_status = "ok"; timestamp = at })

  unfoldable pub check_health : Action HealthReport
  check_health = try_catch query_one pure (λ e. throw (unhealthy (message_of e)))
