-- ===== src/Tests/Queues.antt =====
-- A sale that the worker refuses, on its first way round the queues.
use mathlib.Core.List.{mem-cons_self}
use k_pos_be.Common.{
  ◌≡◌, refl, ◌≤◌, String, some, List, [], ◌∷◌, is_empty, if◌then◌else◌, map, select, ◌&&◌, ◌==◌,
}
use k_pos_be.Schema.{SyncTransactionDto}
use k_pos_be.Prisma.Memory.{client}
use k_pos_be.Prisma.Action.{Message, try_catch, branch, pure}
use k_pos_be.Sync.Producer.{publish_to_retry, publish_with_confirm, retry_queue}
use k_pos_be.Sync.Consumer.{handle_dead_letter}
use k_pos_be.Sync.Topology.{Routing, Topology, dead_letter_targets}
use k_pos_be.Sync.Topology.Journey.{
  Place, Moves, dropped, requeued, Journey, arrived, onward, Journey-bound, retry-returns,
}
use k_pos_be.Tests.Fixture.{start, sale, open_broker}

abbrev route : Topology → String → String → List String
route t exchange key =
    if is_empty exchange
    then key ∷ []
    else map (λ b. b.queue) (select (λ b. b.source == exchange && b.pattern == key) t.bindings)

abbrev plain_routing : Routing
unfolding is_empty
plain_routing = record {
  route = route;
  route-default = λ t q m. refl;
  route-direct = λ t x key m direct named. rw named refl;
}

retry-returns_example :
    (dead_letter_targets plain_routing (retry_queue 2) ≡ "sync.transactions" ∷ [])
    × (dead_letter_targets plain_routing "sync.transactions" ≡ "sync.dlq" ∷ [])
retry-returns_example = retry-returns plain_routing 2

abbrev again : SyncTransactionDto
again = record sale { retry_attempt = some 1 }

abbrev on : String → SyncTransactionDto → Place
on queue dto = record { queue = queue; body = dto }

refused_sale :
    Moves plain_routing client open_broker (on "sync.transactions" sale) (on "sync.dlq" sale)
unfolding dead_letter_targets is_empty
refused_sale = dropped "sync.transactions" "sync.dlq" sale mem-cons_self

abbrev retry : Message
retry = record { queue = "sync.retry.5s"; body = again ∷ [] }

queued_again :
    Moves plain_routing client open_broker (on "sync.dlq" sale) (on "sync.retry.5s" again)
unfolding handle_dead_letter branch publish_to_retry publish_with_confirm try_catch pure retry_queue
queued_again = requeued sale again start retry refl refl

expired :
    Moves plain_routing client open_broker (on "sync.retry.5s" again) (on "sync.transactions" again)
unfolding dead_letter_targets is_empty
expired = dropped "sync.retry.5s" "sync.transactions" again mem-cons_self

once_round :
    Journey plain_routing client open_broker 3
      (on "sync.transactions" sale)
      (on "sync.transactions" again)
once_round =
    onward 2 _ _ _ refused_sale (onward 1 _ _ _ queued_again (onward 0 _ _ _ expired (arrived _)))

Journey-bound_example : 3 ≤ 10
Journey-bound_example =
    Journey-bound plain_routing client open_broker 3 (on "sync.transactions" sale)
      (on "sync.transactions" again) refl once_round
