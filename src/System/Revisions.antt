-- ===== src/System/Revisions.antt =====
-- What a request may write to a sale that is stored: its status, the status of its synchronisation, when
-- it was confirmed, and when, by whom and why it was voided.
use k_pos_be.Common.{ℕ, String, ◌≡◌, refl, ◌∙◌, none}
use k_pos_be.Schema.{Transaction, TransactionStatus, SyncStatus}
use k_pos_be.Transactions.{mark_voided}

-- the sale as it was recorded, with the rest left empty
abbrev pub recorded : Transaction → Transaction
recorded t = record t {
  status = TransactionStatus.pending;
  sync_status = SyncStatus.pending_sync;
  confirmed_at = none;
  voided_at = none;
  voided_by = none;
  void_reason = none;
}

-- No status leads back to PENDING, or to FAILED.
pub data Settles : TransactionStatus → TransactionStatus → Type 0 where
  stays : (s : TransactionStatus) → Settles s s
  confirms : (s : TransactionStatus) → Settles s TransactionStatus.confirmed
  voids : (s : TransactionStatus) → Settles s TransactionStatus.voided

pub data Syncs : SyncStatus → SyncStatus → Type 0 where
  waits : (s : SyncStatus) → Syncs s s
  settles : (s : SyncStatus) → Syncs s SyncStatus.synced

pub record IsRevised (t s : Transaction) : Type 0 where
  pub content : recorded s ≡ recorded t
  pub status_moved : Settles t.status s.status
  pub sync_moved : Syncs t.sync_status s.sync_status

Settles-trans : (a b c : TransactionStatus) → Settles a b → Settles b c → Settles a c
Settles-trans a b _ h (stays _) = h
Settles-trans a b _ h (confirms _) = confirms a
Settles-trans a b _ h (voids _) = voids a

Syncs-trans : (a b c : SyncStatus) → Syncs a b → Syncs b c → Syncs a c
Syncs-trans a b _ h (waits _) = h
Syncs-trans a b _ h (settles _) = settles a

pub IsRevised-refl : (t : Transaction) → IsRevised t t
IsRevised-refl t = record {
  content = refl;
  status_moved = stays t.status;
  sync_moved = waits t.sync_status;
}

pub IsRevised-trans : (r s t : Transaction) → IsRevised r s → IsRevised s t → IsRevised r t
IsRevised-trans r s t h k = record {
  content = k.content ∙ h.content;
  status_moved = Settles-trans _ _ _ h.status_moved k.status_moved;
  sync_moved = Syncs-trans _ _ _ h.sync_moved k.sync_moved;
}

pub voided-IsRevised :
    (at : ℕ) (by reason : String) (t : Transaction) → IsRevised t (mark_voided at by reason t)
voided-IsRevised at by reason t = record {
  content = refl;
  status_moved = voids t.status;
  sync_moved = waits t.sync_status;
}
