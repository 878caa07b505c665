-- ===== src/Sync/Ingestion.antt =====
-- What the ingestion endpoint puts on the queue.
use mathlib.Core.List.{map}
use k_pos_be.Common.{
  ◌≡◌, refl, String, false, Bool-cases, inl, inr, some, List, [], ◌∷◌, ◌++◌, ℕ, length, is_empty,
  arith, ap, sym, ◌∙◌, subst,
}
use k_pos_be.Schema.{Transaction, SyncTransactionDto, transactions, same_key}
use k_pos_be.Crypto.{Crypto}
use k_pos_be.Prisma.{Prisma}
use k_pos_be.Prisma.Action.{
  World, Message, Result, ok, err, pure, throw, lift, try_catch, recover, find_all,
  service_unavailable,
}
use k_pos_be.Prisma.Inversion.{bind-ok, read-ok}
use k_pos_be.Prisma.Steps.{throw_if-ok}
use k_pos_be.Prisma.Quiet.{Quiet-find_all, Quiet-sent}
use k_pos_be.Sync.Producer.{
  Broker, Confirm, confirmed, refused, timed_out, enqueue, deliver, publish_with_confirm,
  publish_batch,
}
use k_pos_be.Sync.Service.{
  is_mismatch, find_item, hash_all, validate_batch, sync_transactions, with_device,
}

-- the message of a batch
abbrev pub batch_message : List SyncTransactionDto → Message
batch_message body = record { queue = "sync.transactions"; body = body }

module _ (crypto : Crypto) where
  -- an entry with its hash
  abbrev pub hashed : SyncTransactionDto → SyncTransactionDto
  hashed t = record t { payload_hash = some (crypto.sha256_payload t.items t.payment) }

  hash_all-ok :
      (existing : List Transaction) (txs hs : List SyncTransactionDto)
      → hash_all crypto existing txs ≡ ok hs
      → hs ≡ map hashed txs
  unfolding hash_all
  hash_all-ok existing [] hs h = ground arith
  hash_all-ok existing (tx ∷ txs) hs h =
      elim (Bool-cases (
        is_mismatch (crypto.sha256_payload tx.items tx.payment)
          (find_item (λ e. same_key e.offline_uuid (some tx.offline_uuid)) existing))) [
            | inl bad ↦ absurd (ground arith)
            | inr good ↦ go (hash_all crypto existing txs) (hash_all-ok existing txs) (rw good at h)
          ]
    where
      go :
          (r : Result (List SyncTransactionDto))
          → ((ys : List SyncTransactionDto) → r ≡ ok ys → ys ≡ map hashed txs)
          → elim r [ ok ys ↦ ok (hashed tx ∷ ys) | err e ↦ err e ] ≡ ok hs
          → hs ≡ map hashed (tx ∷ txs)
      go (ok ys) rest e =
          let tail : ys ≡ map hashed txs = rest ys refl in
          let all : hashed tx ∷ ys ≡ hs = ground arith in
          subst (λ x. x ≡ map hashed (tx ∷ txs)) all (rw tail)
      go (err x) rest e = cc

publish-ok :
    (broker : Broker) (body : List SyncTransactionDto) (w w' : World)
    → publish_batch broker body w ≡ (ok tt, w')
    → w' ≡ enqueue (batch_message body) w
unfolding publish_batch publish_with_confirm try_catch pure throw
publish-ok broker body w w' h = go (broker.answer w.tick) h
  where
    go :
        (c : Confirm)
        → recover
            (deliver c (batch_message body) w).0
            pure
            (λ _.
              throw (service_unavailable "Message broker is currently unavailable. Retry later."))
            (deliver c (batch_message body) w).1
          ≡ (ok tt, w')
        → w' ≡ enqueue (batch_message body) w
    go confirmed e = cc
    go (refused reason) e = cc
    go timed_out e = cc

module _ (crypto : Crypto) (prisma : Prisma) (broker : Broker) where
  validate_batch-ok :
      (id_device : String) (batch : List SyncTransactionDto) (w w' : World)
      (hs : List SyncTransactionDto)
      → validate_batch crypto prisma id_device batch w ≡ (ok hs, w')
      → (hs ≡ map (hashed crypto) batch) × (w'.db ≡ w.db) × (w'.sent ≡ w.sent)
  unfolding validate_batch find_all lift
  validate_batch-ok id_device batch w w' hs h =
      let (existing, v, e, h1) = bind-ok _ _ w h in
      let (_, same) = read-ok prisma _ w v existing e in
      let quiet = Quiet-sent (Quiet-find_all prisma transactions _) e in
      let world : v ≡ w' = cc in
      (hash_all-ok crypto existing batch hs (ground arith), rw (← world) same, rw (← world) quiet)

  -- Where the endpoint returns, the device was named, the count returned is that of the batch, the
  -- database is as it was, and one message has been queued: the batch, each entry with the device and
  -- with the hash of its lines and payment.
  pub sync_transactions_lem :
      (id_device : String) (batch : List SyncTransactionDto) (n : ℕ) (w w' : World)
      → sync_transactions crypto prisma broker id_device batch w ≡ (ok n, w')
      → (is_empty id_device ≡ false)
        × (n ≡ length batch)
        × (w'.db ≡ w.db)
        × (w'.sent
            ≡ w.sent
              ++ (batch_message (map (with_device id_device) (map (hashed crypto) batch)) ∷ []))
  unfolding sync_transactions pure
  sync_transactions_lem id_device batch n w w' h =
      let (_, v, e, h1) = bind-ok _ _ w h in
      let (named, w1) = throw_if-ok _ _ w v e in
      let (hs, v1, e1, h2) = bind-ok _ _ v h1 in
      let (all, same, quiet) = validate_batch-ok id_device batch v v1 hs e1 in
      let (_, v3, e4, h3) = bind-ok _ _ v1 h2 in
      let queued = publish-ok broker _ v1 v3 e4 in
      let last : v3 ≡ w' = cc in
      let world : w' ≡ enqueue (batch_message (map (with_device id_device) hs)) v1 =
        sym last ∙ queued in
      let sent : v1.sent ≡ w.sent = quiet ∙ ap (λ x. x.sent) w1 in
      (
        named,
        ground arith,
        ap (λ x. x.db) world ∙ (same ∙ ap (λ x. x.db) w1),
        ap (λ x. x.sent) world ∙ rw (sent, all),
      )
