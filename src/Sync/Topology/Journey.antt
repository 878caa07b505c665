-- ===== src/Sync/Topology/Journey.antt =====
-- The way of a sale through the queues, as long as the worker refuses it.
use mathlib.Core.List.{mem-cons, not-mem-nil, mem-cons_self, mem-cons_of_mem, append_cancel_left}
use mathlib.Core.Logic.Or
use mathlib.Core.Bool.{Bool-set}
use k_pos_be.Common.{
  ℕ, suc, ◌+◌, ◌*◌, ◌-◌, ◌≤◌, ◌<◌, ◌≡◌, refl, ◌∙◌, ap, sym, String, true, false, Bool-cases, inl,
  inr, some, List, [], ◌∷◌, ◌++◌, Mem, ◌==◌, eq_iff, eqb, is_empty, ◌≢◌, arith, or_else, subst,
  if◌then◌else◌,
}
use k_pos_be.Schema.{SyncTransactionDto}
use k_pos_be.Prisma.{Prisma}
use k_pos_be.Prisma.Action.{World, Message}
use k_pos_be.Sync.Producer.{Broker, retry_queue}
use k_pos_be.Sync.Consumer.{handle_dead_letter, next_attempt}
use k_pos_be.Sync.Retry.{IsHandled, retried, lost, given_up, retry_of, handle_dead_letter_lem}
use k_pos_be.Sync.Topology.{Routing, topology, main_queue, dead_letter_targets}

-- a sale on a queue
pub record Place : Type 0 where
  pub queue : String
  pub body : SyncTransactionDto

module _ (routing : Routing) where
  main_targets : dead_letter_targets routing "sync.transactions" ≡ "sync.dlq" ∷ []
  unfolding dead_letter_targets is_empty
  main_targets =
      routing.route-direct topology
        (record { name = "dlx_exchange"; kind = "direct"; durable = true }) "sync.dlq.routingKey"
        mem-cons_self refl refl

  back : routing.route topology "" "sync.transactions" ≡ "sync.transactions" ∷ []
  back =
      routing.route-default topology main_queue (
        mem-cons_of_mem _ (mem-cons_of_mem _ (mem-cons_of_mem _ (mem-cons_of_mem _ mem-cons_self))))

  -- Whatever the attempt, the queue of its retry gives its messages back to the main queue, and what
  -- the main queue refuses goes to the queue of the dead letters.
  pub retry-returns :
      (attempt : ℕ)
      → (dead_letter_targets routing (retry_queue attempt) ≡ "sync.transactions" ∷ [])
        × (dead_letter_targets routing "sync.transactions" ≡ "sync.dlq" ∷ [])
  unfolding dead_letter_targets retry_queue
  retry-returns attempt = elim (Bool-cases (eqb attempt 1)) [
    | inl h ↦ rw h (back, main_targets)
    | inr h ↦ elim (Bool-cases (eqb attempt 2)) [
      | inl k ↦ rw (h, k) (back, main_targets)
      | inr k ↦ rw (h, k) (back, main_targets)
    ]
  ]

  -- A message that leaves a queue as a dead letter leaves the main queue for the dead letters, or a
  -- queue of retries for the main queue.
  data Leaves (q q' : String) : Type 0 where
    down : q ≡ "sync.transactions" → q' ≡ "sync.dlq" → Leaves q q'
    home :
        (q == "sync.transactions") ≡ false
        → (q == "sync.dlq") ≡ false
        → q' ≡ "sync.transactions"
        → Leaves q q'

  only : (q' r : String) (l : List String) → l ≡ r ∷ [] → Mem q' l → q' ≡ r
  only q' r l e m = (eq_iff _ _).0 (
      Or.elim (Bool-set _ _) (mem-cons.0 (rw e at m)) (λ k. (eq_iff _ _).1 k)
        (λ k. absurd (not-mem-nil k)))

  retry-home :
      (q q' : String)
      → (q == "sync.dlq") ≡ false
      → (q == "sync.transactions") ≡ false
      → Mem q' (dead_letter_targets routing q)
      → q' ≡ "sync.transactions"
  unfolding dead_letter_targets
  retry-home q q' h k m = elim (Bool-cases (q == "sync.retry.5s")) [
    | inl a ↦ only q' _ _ back (rw (h, a) at m)
    | inr a ↦ elim (Bool-cases (q == "sync.retry.30s")) [
      | inl b ↦ only q' _ _ back (rw (h, a, b) at m)
      | inr b ↦ elim (Bool-cases (q == "sync.retry.120s")) [
        | inl c ↦ only q' _ _ back (rw (h, a, b, c) at m)
        | inr c ↦ absurd (not-mem-nil (rw (h, a, b, c, k) at m))
      ]
    ]
  ]

  targets-Leaves : (q q' : String) → Mem q' (dead_letter_targets routing q) → Leaves q q'
  unfolding dead_letter_targets
  targets-Leaves q q' m = elim (Bool-cases (q == "sync.dlq")) [
    | inl h ↦ absurd (not-mem-nil (rw h at m))
    | inr h ↦ elim (Bool-cases (q == "sync.transactions")) [
      | inl k ↦
          let at : q ≡ "sync.transactions" = (eq_iff _ _).0 k in
          down at
            (only q' _ _ main_targets (subst (λ x. Mem q' (dead_letter_targets routing x)) at m))
      | inr k ↦ home k h (retry-home q q' h k m)
    ]
  ]

  module _ (prisma : Prisma) (broker : Broker) where
    -- One step of a sale that the worker refuses: the broker takes it from its queue as a dead letter,
    -- or the consumer of the dead letters queues it again.
    pub data Moves : Place → Place → Type 0 where
      dropped :
          (q q' : String) (dto : SyncTransactionDto)
          → Mem q' (dead_letter_targets routing q)
          → Moves (record { queue = q; body = dto }) (record { queue = q'; body = dto })
      requeued :
          (dto dto' : SyncTransactionDto) (w : World) (m : Message)
          → (handle_dead_letter prisma broker dto w).1.sent ≡ w.sent ++ (m ∷ [])
          → m.body ≡ dto' ∷ []
          → Moves
              (record { queue = "sync.dlq"; body = dto })
              (record { queue = m.queue; body = dto' })

    -- a number of steps, one after another
    pub data Journey : ℕ → Place → Place → Type 0 where
      arrived : (p : Place) → Journey 0 p p
      onward : (n : ℕ) (p q r : Place) → Moves p q → Journey n q r → Journey (suc n) p r

  -- the steps that are left, by the queue and the attempts made
  abbrev steps_at : String → ℕ → ℕ
  steps_at q attempts =
      if q == "sync.transactions"
      then 1 + 3 * (3 - attempts)
      else if q == "sync.dlq"
      then 3 * (3 - attempts)
      else 2 + 3 * (3 - attempts)

  abbrev steps_left : Place → ℕ
  steps_left p = steps_at p.queue (or_else p.body.retry_attempt 0)

  append-more : {A : Type 0} (xs : List A) (a : A) → xs ≢ xs ++ (a ∷ [])
  append-more [] a e = cc
  append-more (x ∷ xs) a e = append-more xs a cc

  module _ (prisma : Prisma) (broker : Broker) where
    retry-apart :
        (attempt : ℕ)
        → ((retry_queue attempt == "sync.transactions") ≡ false)
          × ((retry_queue attempt == "sync.dlq") ≡ false)
    unfolding retry_queue
    retry-apart attempt = elim (Bool-cases (eqb attempt 1)) [
      | inl h ↦ rw h (refl, refl)
      | inr h ↦ elim (Bool-cases (eqb attempt 2)) [
        | inl k ↦ rw (h, k) (refl, refl)
        | inr k ↦ rw (h, k) (refl, refl)
      ]
    ]

    retry-lower :
        (dto dto' : SyncTransactionDto) (m : Message)
        → next_attempt dto ≤ 3
        → retry_of dto ∷ [] ≡ m ∷ []
        → m.body ≡ dto' ∷ []
        → steps_at m.queue (or_else dto'.retry_attempt 0)
          < steps_at "sync.dlq" (or_else dto.retry_attempt 0)
    retry-lower dto dto' m few heads whole =
        let same : retry_of dto ≡ m = cc in
        let (a, b) = retry-apart (next_attempt dto) in
        let queue : retry_queue (next_attempt dto) ≡ m.queue = ap (λ x. x.queue) same in
        let body : (retry_of dto).body ≡ dto' ∷ [] = ap (λ x. x.body) same ∙ whole in
        let next : record dto { retry_attempt = some (next_attempt dto) } ≡ dto' = cc in
        let again : some (next_attempt dto) ≡ dto'.retry_attempt = ap (λ x. x.retry_attempt) next in
        rw (← queue, ← again, a, b) (omega arith)

    Moves-lower : (p q : Place) → Moves prisma broker p q → steps_left q < steps_left p
    Moves-lower _ _ (dropped q q' dto m) = elim (targets-Leaves q q' m) [
      | down at to ↦ rw (at, to) (omega arith)
      | home k h to ↦ rw (to, k, h) (omega arith)
    ]
    Moves-lower _ _ (requeued dto dto' w m sent whole) =
        go _ (handle_dead_letter_lem prisma broker dto w) sent
      where
        go :
            (w' : World)
            → IsHandled prisma broker dto w w'
            → w'.sent ≡ w.sent ++ (m ∷ [])
            → steps_at m.queue (or_else dto'.retry_attempt 0)
              < steps_at "sync.dlq" (or_else dto.retry_attempt 0)
        go w' (retried few kept queued) e =
            retry-lower dto dto' m few (append_cancel_left w.sent _ _ (sym queued ∙ e)) whole
        go w' (lost few reason answer kept none_sent) e =
            absurd (append-more w.sent m (sym none_sent ∙ e))
        go w' (given_up late kept none_sent) e = absurd (append-more w.sent m (sym none_sent ∙ e))

    Journey-lower :
        (n : ℕ) (p q : Place) → Journey prisma broker n p q → n + steps_left q ≤ steps_left p
    Journey-lower _ _ _ (arrived p) = omega arith
    Journey-lower _ _ _ (onward n p q r step rest) =
        omega (arith, Moves-lower p q step, Journey-lower n q r rest)

    -- Every journey of a sale that is on the main queue after some attempts and is refused again and
    -- again has at most one step and three more for each attempt that is left of the three.
    pub Journey-bound :
        (n : ℕ) (p q : Place)
        → p.queue ≡ "sync.transactions"
        → Journey prisma broker n p q
        → n ≤ 1 + 3 * (3 - or_else p.body.retry_attempt 0)
    Journey-bound n p q start journey =
        let most : steps_left p ≡ 1 + 3 * (3 - or_else p.body.retry_attempt 0) =
          ap (λ x. steps_at x (or_else p.body.retry_attempt 0)) start in
        omega (arith, Journey-lower n p q journey)
