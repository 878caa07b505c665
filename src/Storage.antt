-- ===== src/Storage.antt =====
-- src/storage/supabase-storage.service.ts: the checks around product images. The Supabase client
-- and the configuration are a parameter.
use Prim.Native.String.{◌++◌, len}
use text.Mathlib.Text.{find?, get?}
use mathlib.Core.List
use k_pos_be.Common.{
  ℕ, suc, ◌+◌, String, Bool, not, ◌||◌, is_empty, Option, none, some, List, [], ◌∷◌, ◌==◌, any, ltb,
  if◌then◌else◌,
}
use k_pos_be.Prisma.Action.{
  Action, ok, bad_request, internal, ⊤, pure, throw, ◌>>◌, throw_if, branch,
}

-- src/common/types/multer-file.ts, without the bytes
pub record MulterFile : Type 0 where
  pub mimetype : String
  pub size : ℕ

pub record Supabase : Type 0 where
  -- SUPABASE_URL and SUPABASE_SERVICE_ROLE_KEY are set
  pub configured : Bool
  -- the error of an upload to a path, at a call
  pub upload : ℕ → String → Option String
  pub public_url : String → String
  pub bucket : String

abbrev pub allowed_mime_types : List String
allowed_mime_types = "image/jpeg" ∷ "image/png" ∷ "image/webp" ∷ []

abbrev pub max_file_size : ℕ
max_file_size = 5242880

-- MIME_TO_EXT
abbrev pub extension : String → String
extension mime =
    if mime == "image/jpeg" then "jpg" else if mime == "image/png" then "png" else "webp"

module _ (supabase : Supabase) where
  unfoldable pub upload_to : String → Option String → Action String
  upload_to path none = pure (supabase.public_url path)
  upload_to path (some message) = throw (bad_request ("Failed to upload image: " ++ message))

  unfoldable pub send : String → Action String
  unfolding upload_to
  send path w = upload_to path (supabase.upload w.tick path) (record w { tick = suc w.tick })

  unfoldable pub upload_product_image : String → String → MulterFile → Action String
  unfolding send
  upload_product_image merchant_id product_id file = do
    throw_if (not (any (λ m. m == file.mimetype) allowed_mime_types))
        (bad_request "Invalid file type. Accepted types: image/jpeg, image/png, image/webp")
    throw_if (ltb max_file_size file.size) (bad_request "File too large. Maximum size is 5MB.")
    throw_if (not supabase.configured) (
        internal
          "Supabase Storage is not configured. Set SUPABASE_URL and SUPABASE_SERVICE_ROLE_KEY environment variables.")
    send (merchant_id ++ ("/" ++ (product_id ++ ("." ++ extension file.mimetype))))

  -- `extractPathFromUrl`, for the bucket
  unfoldable pub extract_path_from_url : String → Option String
  extract_path_from_url image_url =
      let marker = "/object/public/" ++ (supabase.bucket ++ "/") in
      elim (find? image_url marker) [
        | none ↦ none
        | some index ↦ get? image_url (index + len marker) (len image_url)
      ]

  abbrev pub remove_path : Option String → Action ⊤
  remove_path none w = (ok tt, w)
  remove_path (some path) w =
      if is_empty path || not supabase.configured
      then (ok tt, w)
      else (ok tt, record w { tick = suc w.tick; removed = List.◌++◌ w.removed (path ∷ []) })

  -- an error of the storage is logged and swallowed
  unfoldable pub delete_product_image : String → Action ⊤
  unfolding extract_path_from_url
  delete_product_image image_url =
      branch (is_empty image_url) (pure tt) (remove_path (extract_path_from_url image_url))
