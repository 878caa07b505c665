-- ===== src/System/Inert.antt =====
-- Calls of the broker and of the image storage, which leave the database alone.
use k_pos_be.Common.{
  Bool-cases, inl, inr, ℕ, suc, not, ◌||◌, is_empty, Option, none, some, String, List,
}
use k_pos_be.Schema.{Db, SyncTransactionDto}
use k_pos_be.Prisma.Action.{World}
use k_pos_be.Prisma.Keeps.{IsPreorder, Keeps, keeps_rules}
use k_pos_be.Storage.{
  Supabase, MulterFile, send, upload_to, remove_path, upload_product_image, delete_product_image,
}
use k_pos_be.Sync.Producer.{
  Broker, Confirm, confirmed, refused, timed_out, publish_with_confirm, deliver, publish_batch,
  publish_to_retry,
}

module _ {R : Db → Db → Type 0} (pre : IsPreorder R) where
  Keeps-publish :
      (broker : Broker) (queue : String) (body : List SyncTransactionDto)
      → Keeps R (publish_with_confirm broker queue body)
  unfolding publish_with_confirm
  Keeps-publish broker queue body = record { at = λ w. go w (broker.answer w.tick) }
    where
      go :
          (w : World) (c : Confirm)
          → R w.db (deliver c (record { queue = queue; body = body }) w).1.db
      go w confirmed = pre.reflexive w.db
      go w (refused reason) = pre.reflexive w.db
      go w timed_out = pre.reflexive w.db

  pub Keeps-publish_batch :
      (broker : Broker) (body : List SyncTransactionDto) → Keeps R (publish_batch broker body)
  unfolding publish_batch
  Keeps-publish_batch broker body = search (pre, keeps_rules, Keeps-publish)

  pub Keeps-publish_to_retry :
      (broker : Broker) (body : List SyncTransactionDto) (n : ℕ)
      → Keeps R (publish_to_retry broker body n)
  unfolding publish_to_retry
  Keeps-publish_to_retry broker body n = search (pre, keeps_rules, Keeps-publish)

  module _ (supabase : Supabase) where
    Keeps-upload_to : (path : String) (o : Option String) → Keeps R (upload_to supabase path o)
    unfolding upload_to
    Keeps-upload_to path none = search (pre, keeps_rules)
    Keeps-upload_to path (some m) = search (pre, keeps_rules)

    Keeps-send : (path : String) → Keeps R (send supabase path)
    unfolding send
    Keeps-send path = record {
      at = λ w.
          (Keeps-upload_to path (supabase.upload w.tick path)).at (record w { tick = suc w.tick });
    }

    pub Keeps-upload :
        (merchant product : String) (file : MulterFile)
        → Keeps R (upload_product_image supabase merchant product file)
    unfolding upload_product_image
    Keeps-upload merchant product file = search (pre, keeps_rules, Keeps-send)

    Keeps-remove_path : (o : Option String) → Keeps R (remove_path supabase o)
    Keeps-remove_path none = record { at = λ w. pre.reflexive w.db }
    Keeps-remove_path (some path) = record {
      at = λ w. elim (Bool-cases (is_empty path || not supabase.configured)) [
        | inl h ↦ rw h (pre.reflexive w.db)
        | inr h ↦ rw h (pre.reflexive w.db)
      ];
    }

    pub Keeps-delete_image : (url : String) → Keeps R (delete_product_image supabase url)
    unfolding delete_product_image
    Keeps-delete_image url = search (pre, keeps_rules, Keeps-remove_path)
