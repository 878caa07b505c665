-- ===== src/Sync/Outcome.antt =====
-- The worker on one entry of a batch: the skip, the sale and the failure.
use k_pos_be.Common.{
  ◌≡◌, refl, sym, ◌∙◌, inl, inr, Option, none, some, String, Bool, true, false, subst, [], Mem,
  is_some, ap,
}
use k_pos_be.Schema.{Db, Transaction, SyncTransactionDto, sync_queue}
use k_pos_be.Prisma.{Prisma}
use k_pos_be.Prisma.Action.{
  World, Result, ok, err, Error, ⊤, pure, try_catch, recover, branch, find_first,
}
use k_pos_be.Prisma.Inversion.{bind-ok, transaction-rollback, bind-err, read-ok}
use k_pos_be.Prisma.Keeps.{Keeps, Keeps-read}
use k_pos_be.Prisma.Kept.{IsKept, IsKept-preorder, IsApart, kept_rules}
use k_pos_be.Sync.Process.{process_transaction}
use k_pos_be.Sync.Failure.{handle_failure, queue_entry}
use k_pos_be.Sync.Consumer.{is_duplicate, sync_one, sync_item}
use k_pos_be.Sync.Recorded.{IsRecorded, process-IsRecorded}

-- the database without the queue of failures
abbrev pub all_but_queue : Db → Db
all_but_queue db = record db { sync_queue = [] }

-- Only SyncQueue has changed.
abbrev pub IsQueueOnly : Db → Db → Type 0
IsQueueOnly = IsKept all_but_queue

pub sync_queue-IsApart : IsApart all_but_queue sync_queue
sync_queue-IsApart = record { same = λ rows db. refl }

-- the sale is stored already
abbrev pub IsKnown : SyncTransactionDto → Db → Type 0
IsKnown dto db = (t : Transaction) × (is_duplicate dto t ≡ true) × Mem t db.transactions

module _ (prisma : Prisma) where
  failure-IsQueueOnly :
      (dto : SyncTransactionDto) (e : Error) → Keeps IsQueueOnly (handle_failure prisma dto e)
  unfolding handle_failure queue_entry
  failure-IsQueueOnly dto e = search (kept_rules, sync_queue-IsApart) depth 12

  failure-ok :
      (dto : SyncTransactionDto) (e : Error) (w : World) → (handle_failure prisma dto e w).0 ≡ ok tt
  unfolding handle_failure try_catch pure
  failure-ok dto e w = go _
    where
      go : (x : Result ⊤ × World) → (recover x.0 pure (λ _. pure tt) x.1).0 ≡ ok tt
      go (ok a, v) = refl
      go (err f, v) = refl

  -- What `process_transaction`, or the skip before it, leaves behind.
  module _ (p : String) (dto : SyncTransactionDto) where
    -- An entry is known and skipped, recorded, or rejected with at most a line in SyncQueue.
    pub data IsSettled (db db' : Db) : Type 0 where
      skipped : IsKnown dto db → db' ≡ db → IsSettled db db'
      recorded : IsRecorded prisma p dto db db' → IsSettled db db'
      rejected : IsQueueOnly db db' → IsSettled db db'

    one-ok : (w w' : World) → sync_one prisma dto w ≡ (ok tt, w') → IsSettled w.db w'.db
    unfolding sync_one branch pure find_first
    one-ok w w' h =
        let (o, v, found, rest) = bind-ok _ _ w h in
        let (e, same) = read-ok prisma _ w v o found in go o v e same rest
      where
        go :
            (o : Option Transaction) (v : World)
            → prisma.find (is_duplicate dto) w.db.transactions ≡ o
            → v.db ≡ w.db
            → branch (is_some o) (pure tt) (process_transaction prisma dto) v ≡ (ok tt, w')
            → IsSettled w.db w'.db
        go none v e same q = recorded (
            subst (λ x. IsRecorded prisma p dto x w'.db) same
              ((process-IsRecorded prisma p dto).at v tt w' q))
        go (some t) v e same q =
            let (fits, listed) = prisma.find-some _ _ t e in
            let world : v ≡ w' = cc in skipped (t, fits, listed) (rw (← world) same)

    known-skipped :
        (w w' : World) → IsKnown dto w.db → sync_one prisma dto w ≡ (ok tt, w') → w'.db ≡ w.db
    unfolding sync_one branch pure find_first
    known-skipped w w' (t, fits, listed) h =
        let (o, v, found, rest) = bind-ok _ _ w h in
        let (e, same) = read-ok prisma _ w v o found in go o v e same rest
      where
        go :
            (o : Option Transaction) (v : World)
            → prisma.find (is_duplicate dto) w.db.transactions ≡ o
            → v.db ≡ w.db
            → branch (is_some o) (pure tt) (process_transaction prisma dto) v ≡ (ok tt, w')
            → w'.db ≡ w.db
        go none v e same q =
            let missed : is_duplicate dto t ≡ false = prisma.find-none _ _ t e listed in
            let clash : ◌≡◌ {A = Bool} true false = sym fits ∙ missed in cc
        go (some t) v e same q = let world : v ≡ w' = cc in rw (← world) same

    one-err : (w w' : World) (e : Error) → sync_one prisma dto w ≡ (err e, w') → w'.db ≡ w.db
    unfolding sync_one branch pure find_first process_transaction
    one-err w w' e h = elim (bind-err _ _ w h) [
      | inl refused ↦
          let kept = Keeps-read (IsKept-preorder (λ db. db)) prisma _ in
          subst (λ x. x.1.db ≡ w.db) refused (kept.at w)
      | inr (o, v, found, rest) ↦ let (_, same) = read-ok prisma _ w v o found in go o v same rest
    ]
      where
        go :
            (o : Option Transaction) (v : World)
            → v.db ≡ w.db
            → branch (is_some o) (pure tt) (process_transaction prisma dto) v ≡ (err e, w')
            → w'.db ≡ w.db
        go none v same q = transaction-rollback _ v w' e q ∙ same
        go (some t) v same q = cc

    -- Whatever calls fail, an entry of a batch throws nothing, and either the sale was stored before
    -- and the database is as it was, or it has been recorded, with or without a conflict, or
    -- nothing but SyncQueue has changed.
    pub sync_item_lem :
        (w : World)
        → ((sync_item prisma dto w).0 ≡ ok tt) × IsSettled w.db (sync_item prisma dto w).1.db
    unfolding sync_item try_catch pure
    sync_item_lem w = go (sync_one prisma dto w) refl
      where
        go :
            (x : Result ⊤ × World)
            → sync_one prisma dto w ≡ x
            → ((recover x.0 pure (handle_failure prisma dto) x.1).0 ≡ ok tt)
              × IsSettled w.db (recover x.0 pure (handle_failure prisma dto) x.1).1.db
        go (ok a, v) e = (refl, one-ok w v e)
        go (err f, v) e = (
          failure-ok dto f v,
          rejected ((failure-IsQueueOnly dto f).at v ∙ ap all_but_queue (one-err w v f e)),
        )

    -- A redelivered entry is not recorded again: only SyncQueue can change, whatever calls fail.
    pub known-IsQueueOnly :
        (w : World) → IsKnown dto w.db → IsQueueOnly w.db (sync_item prisma dto w).1.db
    unfolding sync_item try_catch pure
    known-IsQueueOnly w (t, fits, listed) = go (sync_one prisma dto w) refl
      where
        go :
            (x : Result ⊤ × World)
            → sync_one prisma dto w ≡ x
            → IsQueueOnly w.db (recover x.0 pure (handle_failure prisma dto) x.1).1.db
        go (ok a, v) e = ap all_but_queue (known-skipped w v (t, fits, listed) e)
        go (err f, v) e = (failure-IsQueueOnly dto f).at v ∙ ap all_but_queue (one-err w v f e)
