-- ===== src/Api/Catalogue.antt =====
-- src/modules/products/products.controller.ts. The size limit of an upload is enforced by multer before the
-- handler runs, and the service checks it again.
use k_pos_be.Common.{String, Bool, not, Option, none, some, List, [], ◌∷◌, any, ◌==◌}
use k_pos_be.Schema.{Product}
use k_pos_be.User.{JwtPayload}
use k_pos_be.Storage.{Supabase, MulterFile, allowed_mime_types}
use k_pos_be.Prisma.{Prisma}
use k_pos_be.Prisma.Action.{Action, ⊤, bad_request, ◌>>◌, throw_if}
use k_pos_be.Products.{
  CreateProductDto, UpdateProductDto, AdjustStockDto, AdjustedStock, create_product, update_product,
  remove_product, adjust_stock,
}
use k_pos_be.Products.Listing.{QueryProductsDto, ProductPage, find_all_products}
use k_pos_be.Api.Guard.{owner_or_entry}

pub data CatalogueCall : Type 0 where
  post_product : CreateProductDto → Option MulterFile → CatalogueCall
  get_products : QueryProductsDto → CatalogueCall
  patch_product : String → UpdateProductDto → Option MulterFile → CatalogueCall
  delete_product : String → CatalogueCall
  post_stock : String → AdjustStockDto → CatalogueCall

unfoldable pub catalogue_roles : CatalogueCall → Option (List String)
catalogue_roles (post_product dto file) = owner_or_entry
catalogue_roles (get_products query) = some ("OWNER" ∷ "ENTRY" ∷ "OPERATOR" ∷ [])
catalogue_roles (patch_product id dto file) = owner_or_entry
catalogue_roles (delete_product id) = owner_or_entry
catalogue_roles (post_stock id dto) = owner_or_entry

abbrev pub CatalogueReply : CatalogueCall → Type 0
CatalogueReply (post_product dto file) = Product
CatalogueReply (get_products query) = ProductPage
CatalogueReply (patch_product id dto file) = Product
CatalogueReply (delete_product id) = Product
CatalogueReply (post_stock id dto) = AdjustedStock

abbrev pub is_refused : Option MulterFile → Bool
is_refused none = Bool.false
is_refused (some file) = not (any (λ m. m == file.mimetype) allowed_mime_types)

-- `fileFilter` of the interceptor
unfoldable pub filter_file : Option MulterFile → Action ⊤
filter_file file =
    throw_if (is_refused file)
      (bad_request "Invalid file type. Accepted types: image/jpeg, image/png, image/webp")

-- `contains` is the comparison of the search
module _ (contains : String → String → Bool) (prisma : Prisma) (supabase : Supabase) where
  unfoldable pub answer_catalogue :
      (call : CatalogueCall) → JwtPayload → Action (CatalogueReply call)
  unfolding filter_file
  answer_catalogue (post_product dto file) user =
      filter_file file >> create_product prisma supabase user dto file
  answer_catalogue (get_products query) user = find_all_products contains prisma user query
  answer_catalogue (patch_product id dto file) user =
      filter_file file >> update_product prisma supabase user id dto file
  answer_catalogue (delete_product id) user = remove_product prisma user id
  answer_catalogue (post_stock id dto) user = adjust_stock prisma user id dto
