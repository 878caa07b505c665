-- ===== src/Schema/Enums.antt =====
-- The enums of prisma/schema.prisma, with the comparisons that the services make.
use k_pos_be.Common.{Bool, true, false, ◌≡◌, ◌↔◌, refl}

pub data UserRole : Type 0 where
  owner operator entry : UserRole

pub data TransactionStatus : Type 0 where
  pending confirmed voided failed : TransactionStatus

pub data PaymentMethod : Type 0 where
  cash static_qris bank_transfer : PaymentMethod

pub data PaymentStatus : Type 0 where
  verified failed : PaymentStatus

pub data SyncStatus : Type 0 where
  pending_sync syncing synced sync_failed sync_conflict : SyncStatus

pub data ReconciliationStatus : Type 0 where
  open_case resolved_valid resolved_invalid : ReconciliationStatus

pub data DeviceStatus : Type 0 where
  unpaired paired revoked : DeviceStatus

pub data StockMovementType : Type 0 where
  sale adjustment return correction : StockMovementType

-- `status === 'VOIDED'` and the like
abbrev pub is_voided : TransactionStatus → Bool
is_voided TransactionStatus.voided = true
is_voided _ = false

abbrev pub is_pending : TransactionStatus → Bool
is_pending TransactionStatus.pending = true
is_pending _ = false

abbrev pub is_confirmed : TransactionStatus → Bool
is_confirmed TransactionStatus.confirmed = true
is_confirmed _ = false

abbrev pub is_conflict : SyncStatus → Bool
is_conflict SyncStatus.sync_conflict = true
is_conflict _ = false

abbrev pub is_sync_failed : SyncStatus → Bool
is_sync_failed SyncStatus.sync_failed = true
is_sync_failed _ = false

abbrev pub is_open : ReconciliationStatus → Bool
is_open ReconciliationStatus.open_case = true
is_open _ = false

abbrev pub is_valid : ReconciliationStatus → Bool
is_valid ReconciliationStatus.resolved_valid = true
is_valid _ = false

abbrev pub is_unpaired : DeviceStatus → Bool
is_unpaired DeviceStatus.unpaired = true
is_unpaired _ = false

TransactionStatus-discrete : Discrete TransactionStatus
TransactionStatus-discrete = hlevel

SyncStatus-discrete : Discrete SyncStatus
SyncStatus-discrete = hlevel

UserRole-discrete : Discrete UserRole
UserRole-discrete = hlevel

PaymentStatus-discrete : Discrete PaymentStatus
PaymentStatus-discrete = hlevel

-- `a === b`
unfoldable pub same_status : TransactionStatus → TransactionStatus → Bool
unfolding TransactionStatus-discrete
same_status a b = elim (TransactionStatus-discrete a b) [ yes e ↦ true | no n ↦ false ]

unfoldable pub same_sync_status : SyncStatus → SyncStatus → Bool
unfolding SyncStatus-discrete
same_sync_status a b = elim (SyncStatus-discrete a b) [ yes e ↦ true | no n ↦ false ]

unfoldable pub same_role : UserRole → UserRole → Bool
unfolding UserRole-discrete
same_role a b = elim (UserRole-discrete a b) [ yes e ↦ true | no n ↦ false ]

decided : {A : Type 0} (d : Dec A) → ((elim d [ yes e ↦ true | no n ↦ false ]) ≡ true) ↔ A
decided (yes e) = (λ _. e, λ _. refl)
decided (no n) = (λ h. cc, λ e. absurd (n e))

pub same_role_iff : (a b : UserRole) → (same_role a b ≡ true) ↔ (a ≡ b)
unfolding same_role
same_role_iff a b = decided (UserRole-discrete a b)

unfoldable pub same_payment_status : PaymentStatus → PaymentStatus → Bool
unfolding PaymentStatus-discrete
same_payment_status a b = elim (PaymentStatus-discrete a b) [ yes e ↦ true | no n ↦ false ]
