-- ===== src/Crypto.antt =====
-- Node's `crypto`, `bcrypt` and the JWT service, which the repository only calls.
use k_pos_be.Common.{ℕ, String, Bool, List}
use k_pos_be.Schema.{SyncItemDto, SyncPaymentDto, UserRole}
use k_pos_be.Common.{Option}

-- What the services sign into an access token.
pub record TokenPayload : Type 0 where
  pub sub : String
  pub email : String
  pub role : UserRole
  pub id_merchant : Option String

pub record Crypto : Type 0 where
  -- the SHA-256 of a text, and of the JSON of `{ items, payment }`, in hexadecimal
  pub sha256 : String → String
  pub sha256_payload : List SyncItemDto → SyncPaymentDto → String
  -- bcrypt, which salts: the hash depends on the call
  pub bcrypt_hash : ℕ → String → String
  pub bcrypt_compare : String → String → Bool
  -- `Math.random` scaled to the 900000 pairing codes, and 40 random bytes, at a call
  pub random_code : ℕ → ℕ
  pub random_token : ℕ → String
  -- `jwtService.sign`
  pub sign : ℕ → TokenPayload → String
