-- ===== src/Sync/Failure.antt =====
-- src/modules/sync/sync-consumer.service.ts: `handleFailure` and `recordTerminalFailure`, which write
-- the failures to SyncQueue. An error in them is logged and swallowed.
use text.Mathlib.Text.{find?}
use k_pos_be.Common.{
  String, not, ◌&&◌, Option, none, some, List, [], ◌∷◌, ◌==◌, is_some, is_empty, trim, split_lines,
  if◌then◌else◌,
}
use k_pos_be.Schema.{Document, plain, transaction_json, error_json}
use k_pos_be.Schema.{SyncQueue, SyncStatus, SyncTransactionDto, same_key, sync_queue}
use k_pos_be.Prisma.{Prisma}
use k_pos_be.Prisma.Action.{
  Action, Error, sync_exception, bad_request, unauthorized, forbidden, not_found, conflict,
  service_unavailable, internal, unhealthy, database, SyncErrorCode, sync_arithmetic_error,
  sync_constraint_violation, sync_item_not_found, sync_already_exists, sync_unknown_error, ⊤, pure,
  ◌>>=◌, ◌>>◌, try_catch, now, fresh_id, find_first, create, update,
}

unfoldable pub code_text : SyncErrorCode → String
code_text sync_arithmetic_error = "SYNC_ARITHMETIC_ERROR"
code_text sync_constraint_violation = "SYNC_CONSTRAINT_VIOLATION"
code_text sync_item_not_found = "SYNC_ITEM_NOT_FOUND"
code_text sync_already_exists = "SYNC_ALREADY_EXISTS"
code_text sync_unknown_error = "SYNC_UNKNOWN_ERROR"

-- `error.message`
abbrev pub message_of : Error → String
message_of (bad_request m) = m
message_of (unauthorized m) = m
message_of (forbidden m) = m
message_of (not_found m) = m
message_of (conflict m) = m
message_of (service_unavailable m) = m
message_of (internal m) = m
message_of (unhealthy m) = "Internal Server Error Exception"
message_of (sync_exception c m) = m
message_of (database e) = e.message

-- `.filter((line) => line.trim().length > 0).pop()`
last_line : Option String → List String → Option String
last_line found [] = found
last_line found (line ∷ lines) =
    last_line (if not (is_empty (trim line)) then some line else found) lines

-- `… || error.message`
abbrev text_or : String → Option String → String
text_or message none = message
text_or message (some line) = if is_empty line then message else line

unfoldable pub clean_message : String → String
unfolding last_line
clean_message message = text_or message (last_line none (split_lines message))

abbrev pub fallback_code : String → SyncErrorCode
fallback_code message =
    if is_some (find? message "Foreign key constraint violated")
    then sync_constraint_violation
    else sync_unknown_error

-- the JSON that is stored as `last_error`
unfoldable pub error_payload : Error → Document
unfolding code_text clean_message
error_payload (sync_exception c m) = error_json (code_text c) m
error_payload e =
    let message = clean_message (message_of e) in
    error_json (code_text (fallback_code message)) message

module _ (prisma : Prisma) where
  unfoldable pub queue_entry : SyncTransactionDto → String → Document → Action ⊤
  queue_entry dto operation last_error = do
    id ← fresh_id prisma
    updated_at ← now prisma
    create prisma sync_queue (record {
      id = id;
      id_device = dto.id_device;
      id_transaction = none;
      offline_uuid = some dto.offline_uuid;
      operation = operation;
      payload = transaction_json dto;
      last_error = some last_error;
      status = SyncStatus.sync_failed;
      updated_at = updated_at;
    })
    pure tt

  unfoldable pub handle_failure : SyncTransactionDto → Error → Action ⊤
  unfolding error_payload
  handle_failure dto e =
      try_catch (queue_entry dto "SYNC_BATCH_REJECTED" (error_payload e)) pure (λ _. pure tt)

  -- an entry of the device and uuid is there already, or it is not
  unfoldable pub record_entry : SyncTransactionDto → Option SyncQueue → Action ⊤
  record_entry dto (some entry) = do
    updated_at ← now prisma
    update prisma sync_queue (λ q. q.id == entry.id)
        (λ q. record q {
          status = SyncStatus.sync_failed;
          last_error = some (plain "Exceeded 3 retry attempts");
          updated_at = updated_at;
        })
    pure tt
  record_entry dto none =
      queue_entry dto "SYNC_BATCH_PERMANENTLY_FAILED" (plain "Exceeded 3 retry attempts")

  unfoldable pub record_terminal_failure : SyncTransactionDto → Action ⊤
  unfolding record_entry
  record_terminal_failure dto =
      try_catch
        (find_first prisma sync_queue
            (λ q. q.id_device == dto.id_device && same_key q.offline_uuid (some dto.offline_uuid))
          >>= record_entry dto)
        pure (λ _. pure tt)
