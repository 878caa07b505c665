-- ===== src/Tests/Registers.antt =====
-- A pairing code that is entered twice.
use k_pos_be.Common.{◌≡◌, ◌≢◌, true, refl, some, none, [], ◌∷◌, ◌==◌, arith, Bool-cases, inl, inr}
use k_pos_be.Schema.{Device, DeviceStatus}
use k_pos_be.Prisma.Memory.{client, in_memory}
use k_pos_be.Prisma.Counts.{count_by}
use k_pos_be.Prisma.Action.{
  World, ok, ◌>>=◌, pure, throw, throw_if, branch, or_throw, call, read, find_first, update,
  update_in, try_catch,
}
use k_pos_be.Devices.{pair, pair_device}
use k_pos_be.Devices.Pairing.{HasKeys, IsPaired, pair_device-IsPaired, pair-once}
use k_pos_be.Tests.Fixture.{shop, world_of, plain_hashes}

abbrev fresh : Device
fresh = record {
  id_device = "new";
  id_merchant = "shop";
  id_user = "ani";
  name = "New";
  device_id_hash = none;
  pairing_code = some "123456";
  status = DeviceStatus.unpaired;
  is_active = true;
}

abbrev waiting : World
waiting = world_of (record shop { devices = fresh ∷ [] })

few : HasKeys waiting.db
unfolding count_by
few = record {
  ids = λ i. elim (Bool-cases (fresh.id_device == i)) [
    | inl h ↦ rw h (omega arith)
    | inr h ↦ rw h (omega arith)
  ];
  codes = λ c. elim (Bool-cases ("123456" == c)) [
    | inl h ↦ rw h (omega arith)
    | inr h ↦ rw h (omega arith)
  ];
}

paired_world : World
paired_world = (pair_device client plain_hashes "123456" "tablet" waiting).1

pairs :
    pair_device client plain_hashes "123456" "tablet" waiting
    ≡ (ok (pair "tablet" fresh), paired_world)
unfolding paired_world pair_device in_memory ◌>>=◌ pure throw throw_if branch or_throw call read
    find_first update update_in try_catch
pairs = refl

pair_device-IsPaired_example : IsPaired "123456" "tablet" waiting.db paired_world.db
pair_device-IsPaired_example =
    pair_device-IsPaired client plain_hashes "123456" "tablet" (pair "tablet" fresh) waiting
      paired_world few pairs

pair-once_example :
    (pair_device client plain_hashes "123456" "phone" paired_world).0 ≢ ok (pair "phone" fresh)
pair-once_example =
    pair-once client plain_hashes "123456" "tablet" "phone" (pair "tablet" fresh)
      (pair "phone" fresh) waiting paired_world few pairs
