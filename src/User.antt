-- ===== src/User.antt =====
-- src/common/decorators/current-user.decorator.ts: the caller, as the JWT guard leaves it.
use k_pos_be.Common.{String}

pub record JwtPayload : Type 0 where
  pub sub : String
  pub email : String
  pub role : String
  pub id_merchant : String
