-- ===== src/Schema/Rows.antt =====
-- The rows of the models of prisma/schema.prisma. A `DateTime` is a number of milliseconds, an
-- amount a number of whole rupiah, `?` an `Option`, and a text that holds JSON the value encoded. Columns that no modelled operation reads
-- or writes (`updated_at` stamps, contact data, the defaults of SyncQueue's counters) are left out.
use k_pos_be.Common.{ℕ, String, Bool, Option, List}
use k_pos_be.Common.Int.{ℤ}
use k_pos_be.Schema.Enums.{
  UserRole, TransactionStatus, PaymentMethod, PaymentStatus, SyncStatus, ReconciliationStatus,
  DeviceStatus, StockMovementType,
}
use k_pos_be.Schema.Dto.{Document}

pub record User : Type 0 where
  pub id_user : String
  pub full_name : String
  pub email : String
  pub password : String
  pub role : UserRole
  pub id_merchant : Option String
  pub is_active : Bool

pub record Merchant : Type 0 where
  pub id_merchant : String
  pub name : String

pub record Device : Type 0 where
  pub id_device : String
  pub id_merchant : String
  pub id_user : String
  pub name : String
  pub device_id_hash : Option String
  pub pairing_code : Option String
  pub status : DeviceStatus
  pub is_active : Bool

pub record Product : Type 0 where
  pub id_product : String
  pub id_merchant : String
  pub name : String
  pub sku : String
  pub price : ℕ
  pub image_url : Option String
  pub is_active : Bool

pub record Inventory : Type 0 where
  pub id_inventory : String
  pub id_product : String
  pub id_merchant : String
  pub current_stock : ℤ
  pub reserved : ℤ

pub record StockHistory : Type 0 where
  pub id_stock : String
  pub id_product : String
  pub id_merchant : Option String
  pub id_user : Option String
  pub movement_type : StockMovementType
  pub quantity : ℤ
  pub id_transaction : Option String
  pub notes : Option String
  pub created_at : ℕ

pub record Transaction : Type 0 where
  pub id_transaction : String
  pub id_merchant : String
  pub id_user : String
  pub id_device : String
  pub status : TransactionStatus
  pub sync_status : SyncStatus
  pub created_at_local : Option ℕ
  pub created_at : ℕ
  pub confirmed_at : Option ℕ
  pub synced_at : Option ℕ
  pub total : ℕ
  pub subtotal : ℕ
  pub offline_uuid : Option String
  pub payload_hash : Option String
  pub notes : Option String
  pub voided_at : Option ℕ
  pub voided_by : Option String
  pub void_reason : Option String

pub record DetailTransaction : Type 0 where
  pub id_detail : String
  pub id_transaction : String
  pub id_product : String
  pub quantity : ℕ
  pub unit_price : ℕ
  pub subtotal : ℕ
  pub product_name : String
  pub sku_snapshot : String
  pub catalog_version : ℕ

pub record Payment : Type 0 where
  pub id_payment : String
  pub id_transaction : String
  pub id_merchant : String
  pub amount : ℕ
  pub method : PaymentMethod
  pub status : PaymentStatus
  pub cash_received : Option ℕ
  pub change_amount : Option ℕ
  pub qris_code : Option String
  pub transfer_ref : Option String
  pub verified_at : Option ℕ
  pub verified_by : Option String

pub record TransactionCorrection : Type 0 where
  pub id_correction : String
  pub id_old_transaction : String
  pub id_new_transaction : String
  pub corrected_by : String
  pub reason : String
  pub created_at : ℕ

pub record SyncQueue : Type 0 where
  pub id : String
  pub id_device : String
  pub id_transaction : Option String
  pub offline_uuid : Option String
  pub operation : String
  pub payload : Document
  pub last_error : Option Document
  pub status : SyncStatus
  pub updated_at : ℕ

pub record RefreshToken : Type 0 where
  pub id : String
  pub id_user : String
  pub token : String
  pub expires_at : ℕ

pub record Reconciliation : Type 0 where
  pub id_reconciliation : String
  pub id_payment : String
  pub opened_by : String
  pub reason : String
  pub evidence_note : Option String
  pub status : ReconciliationStatus
  pub resolved_by : Option String
  pub resolved_at : Option ℕ
  pub resolution_note : Option String

-- The tables of the database.
pub record Db : Type 0 where
  pub users : List User
  pub merchants : List Merchant
  pub devices : List Device
  pub products : List Product
  pub inventory : List Inventory
  pub stock_history : List StockHistory
  pub transactions : List Transaction
  pub details : List DetailTransaction
  pub payments : List Payment
  pub corrections : List TransactionCorrection
  pub sync_queue : List SyncQueue
  pub refresh_tokens : List RefreshToken
  pub reconciliations : List Reconciliation
