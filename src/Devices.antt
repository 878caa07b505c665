-- ===== src/Devices.antt =====
-- src/modules/devices/devices.service.ts: pairing a cash register, and revoking it.
pub mod Pairing
use k_pos_be.Common.{
  ◌+◌, String, Bool, true, false, not, ◌&&◌, none, some, ◌==◌, show_ℕ, if◌then◌else◌, List,
}
use k_pos_be.Schema.{Device, DeviceStatus, devices, is_unpaired, same_key}
use k_pos_be.Crypto.{Crypto}
use k_pos_be.Prisma.{Prisma}
use k_pos_be.Prisma.Action.{
  Action, Error, bad_request, not_found, database, pure, throw, ◌>>=◌, ◌>>◌, try_catch, throw_if,
  or_throw, now, fresh_id, find_first, find_all, create, update,
}

abbrev pub conflict_on_hardware : {A : Type 0} → Error → Action A
conflict_on_hardware (database e) =
    if e.code == "P2002"
    then throw (bad_request "Hardware ID is already registered for this merchant")
    else throw (database e)
conflict_on_hardware e = throw e

abbrev pub pair : String → Device → Device
pair hash d = record d {
  device_id_hash = some hash;
  pairing_code = none;
  status = DeviceStatus.paired;
}

abbrev pub revoke : Device → Device
revoke d = record d { is_active = false; status = DeviceStatus.revoked }

abbrev pub is_live : String → String → Device → Bool
is_live id_device id_merchant d =
    d.id_device == id_device && d.id_merchant == id_merchant && d.is_active

module _ (prisma : Prisma) where
  unfoldable pub create_device : Crypto → String → String → String → Action Device
  create_device crypto id_merchant id_user name = do
    draw ← now prisma
    id_device ← fresh_id prisma
    create prisma devices (record {
      id_device = id_device;
      id_merchant = id_merchant;
      id_user = id_user;
      name = name;
      device_id_hash = none;
      pairing_code = some (show_ℕ (100000 + crypto.random_code draw));
      status = DeviceStatus.unpaired;
      is_active = true;
    })

  unfoldable pub pair_device : Crypto → String → String → Action Device
  pair_device crypto pairing_code hardware_id = do
    found ← find_first prisma devices (λ d. same_key d.pairing_code (some pairing_code))
    device ← or_throw found (bad_request "Invalid pairing code or device already paired")
    throw_if (not (is_unpaired device.status)) (bad_request "Device is already paired or revoked")
    try_catch
        (update prisma devices (λ d. d.id_device == device.id_device)
          (pair (crypto.sha256 hardware_id)))
        pure conflict_on_hardware

  unfoldable pub find_devices : String → Action (List Device)
  find_devices id_merchant =
      find_all prisma devices (λ d. d.id_merchant == id_merchant && d.is_active)

  unfoldable pub remove_device : String → String → Action Device
  remove_device id_device id_merchant = do
    found ← find_first prisma devices (is_live id_device id_merchant)
    device ← or_throw found (not_found "Device not found or already removed")
    update prisma devices (λ d. d.id_device == id_device) revoke
