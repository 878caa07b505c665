-- ===== src/Sync/Topology.antt =====
-- src/modules/sync/sync-producer.service.ts, `onModuleInit`: the exchange, the queues and the binding
-- that the producer declares. How RabbitMQ routes a message is a parameter with its documented rules.
pub mod Journey
use k_pos_be.Common.{
  ℕ, String, Bool, true, Option, none, some, List, [], ◌∷◌, Mem, ◌==◌, ◌&&◌, ◌≡◌, select, map,
  false, is_empty, if◌then◌else◌,
}

pub record ExchangeDeclaration : Type 0 where
  pub name : String
  pub kind : String
  pub durable : Bool

-- `x-dead-letter-exchange` and `x-dead-letter-routing-key`
pub record DeadLetters : Type 0 where
  pub exchange : String
  pub routing_key : String

pub record QueueDeclaration : Type 0 where
  pub name : String
  pub durable : Bool
  -- `x-message-ttl`
  pub message_ttl : Option ℕ
  pub dead_letters : Option DeadLetters

pub record Binding : Type 0 where
  pub queue : String
  pub source : String
  pub pattern : String

pub record Topology : Type 0 where
  pub exchanges : List ExchangeDeclaration
  pub queues : List QueueDeclaration
  pub bindings : List Binding

abbrev pub retry_delay_1 : ℕ
retry_delay_1 = 5000

abbrev pub retry_delay_2 : ℕ
retry_delay_2 = 30000

abbrev pub retry_delay_3 : ℕ
retry_delay_3 = 120000

-- a queue whose messages return to the main queue after a time
abbrev pub retry_declaration : String → ℕ → QueueDeclaration
retry_declaration name delay = record {
  name = name;
  durable = true;
  message_ttl = some delay;
  dead_letters = some (record { exchange = ""; routing_key = "sync.transactions" });
}

abbrev pub dead_letter_queue : QueueDeclaration
dead_letter_queue = record {
  name = "sync.dlq";
  durable = true;
  message_ttl = none;
  dead_letters = none;
}

abbrev pub main_queue : QueueDeclaration
main_queue = record {
  name = "sync.transactions";
  durable = true;
  message_ttl = none;
  dead_letters = some (record { exchange = "dlx_exchange"; routing_key = "sync.dlq.routingKey" });
}

-- what `setup` declares
abbrev pub topology : Topology
topology = record {
  exchanges = record { name = "dlx_exchange"; kind = "direct"; durable = true } ∷ [];
  queues =
      dead_letter_queue
      ∷ retry_declaration "sync.retry.5s" retry_delay_1
      ∷ retry_declaration "sync.retry.30s" retry_delay_2
      ∷ retry_declaration "sync.retry.120s" retry_delay_3
      ∷ main_queue
      ∷ [];
  bindings =
      record { queue = "sync.dlq"; source = "dlx_exchange"; pattern = "sync.dlq.routingKey" } ∷ [];
}

-- The queues that a message published to an exchange with a key reaches.
pub record Routing : Type 0 where
  pub route : Topology → String → String → List String
  -- the default exchange delivers to the queue that the key names
  pub route-default :
      (t : Topology) (q : QueueDeclaration) → Mem q t.queues → route t "" q.name ≡ q.name ∷ []
  -- a direct exchange, whose name is not empty, delivers to the queues that are bound with the key
  pub route-direct :
      (t : Topology) (x : ExchangeDeclaration) (key : String)
      → Mem x t.exchanges
      → x.kind ≡ "direct"
      → is_empty x.name ≡ false
      → route t x.name key
        ≡ map (λ b. b.queue) (select (λ b. b.source == x.name && b.pattern == key) t.bindings)

module _ (routing : Routing) where
  abbrev pub target : Option DeadLetters → List String
  target none = []
  target (some d) = routing.route topology d.exchange d.routing_key

  abbrev pub target_among : List QueueDeclaration → String → List String
  target_among [] queue = []
  target_among (q ∷ qs) queue =
      let rest = target_among qs queue in if queue == q.name then target q.dead_letters else rest

  -- where a message of a queue goes that is refused or has expired; without an entry it is dropped
  unfoldable pub dead_letter_targets : String → List String
  dead_letter_targets queue = target_among topology.queues queue
