-- ===== src/Tests/Endpoint.antt =====
-- The ingestion endpoint on a batch of one sale.
use mathlib.Core.List.{map}
use k_pos_be.Common.{◌≡◌, refl, [], ◌∷◌, ◌++◌, false, length, is_empty}
use k_pos_be.Prisma.Memory.{client, in_memory}
use k_pos_be.Prisma.Action.{
  World, ok, ◌>>=◌, pure, throw, lift, throw_if, try_catch, branch, call, read, find_all,
}
use k_pos_be.Sync.Producer.{publish_with_confirm, publish_batch}
use k_pos_be.Sync.Service.{hash_all, validate_batch, sync_transactions, with_device}
use k_pos_be.Sync.Ingestion.{batch_message, hashed, sync_transactions_lem}
use k_pos_be.Tests.Fixture.{start, sale, plain_hashes, open_broker}

accepted_world : World
accepted_world = (sync_transactions plain_hashes client open_broker "register" (sale ∷ []) start).1

accepts :
    sync_transactions plain_hashes client open_broker "register" (sale ∷ []) start
    ≡ (ok 1, accepted_world)
unfolding accepted_world sync_transactions validate_batch hash_all publish_batch
    publish_with_confirm in_memory ◌>>=◌ pure throw lift throw_if try_catch branch call read
    find_all is_empty
accepts = refl

sync_transactions_lem_example :
    (is_empty "register" ≡ false)
    × (1 ≡ length (sale ∷ []))
    × (accepted_world.db ≡ start.db)
    × (accepted_world.sent
        ≡ start.sent
          ++ (batch_message (map (with_device "register") (map (hashed plain_hashes) (sale ∷ [])))
              ∷ []))
sync_transactions_lem_example =
    sync_transactions_lem plain_hashes client open_broker "register" (sale ∷ []) 1 start
      accepted_world accepts
