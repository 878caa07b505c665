-- ===== src/Schema/Dto.antt =====
-- src/modules/sync/dto/sync-batch.dto.ts: the bodies that the devices send, and the JSON documents
-- that are stored. Amounts are whole rupiah (`@Min(0)`), quantities whole numbers (`@IsInt`); a
-- time stamp is the instant that `new Date` reads from the text.
use k_pos_be.Common.{ℕ, String, Option, List}
use k_pos_be.Schema.Enums.{PaymentMethod}

pub record SyncPaymentDto : Type 0 where
  pub method : PaymentMethod
  pub amount : ℕ
  pub cash_received : Option ℕ
  pub change_amount : Option ℕ
  pub qris_code : Option String
  pub transfer_ref : Option String

pub record SyncItemDto : Type 0 where
  pub id_product : String
  pub quantity : ℕ
  pub unit_price : ℕ
  pub subtotal : ℕ
  pub product_name : String
  pub sku_snapshot : String
  pub catalog_version : Option ℕ

-- `SyncTransactionDto & { id_device, payload_hash?, _retryAttempt? }`, as it travels in the queues
pub record SyncTransactionDto : Type 0 where
  pub id_device : String
  pub offline_uuid : String
  pub created_at_local : ℕ
  pub subtotal : ℕ
  pub total : ℕ
  pub notes : Option String
  pub items : List SyncItemDto
  pub payment : SyncPaymentDto
  pub payload_hash : Option String
  pub retry_attempt : Option ℕ

-- A stored text: plain, or the JSON of a transaction or of an error response.
pub data Document : Type 0 where
  plain : String → Document
  transaction_json : SyncTransactionDto → Document
  error_json : String → String → Document
