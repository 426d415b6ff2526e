-- ===== src/Products/Routes.antt =====
-- The routes of product-service/src/interface/http/product.controller.ts, with the guards of
-- product-service/src/infrastructure/auth and the form of an answer
-- (product-service/src/interface/http/dto/product-response.dto.ts). What is known of a token, and
-- which texts are uuids, are parameters; the checks of the fields of a body are not part of it.
pub mod Laws
use ecommerce_microservices.Common.{
  ℕ, String, Bool, true, false, not, Option, none, some, List, [], ◌∷◌, map, any, includes,
  if◌then◌else◌, get_or, Result, ok, err, Exec, pure, throw_if, gets, ◌>>=◌, ◌>>◌,
}
use ecommerce_microservices.Products.Entities.{
  Product, Price, CreateProductDto, UpdateProductDto, ListParams, PaginatedResult, Store,
  ProductError, Env, Call,
}
use ecommerce_microservices.Products.Service.{
  find_by_id, find_price_by_id, create, update, Existence, check_existence,
}
use ecommerce_microservices.Products.Service.Lists

pub data RouteError : Type 0 where
  unauthorized insufficient_permissions bad_request : RouteError
  failed : ProductError → RouteError

abbrev pub Route : Type 0 → Type 0
Route A = Exec Store RouteError A

-- The claims of an internal token.
pub record InternalJwtPayload : Type 0 where
  pub sub : String
  pub roles : Option (List String)

pub record RequestUser : Type 0 where
  pub user_id : String
  pub roles : List String

unfoldable pub validate : InternalJwtPayload → RequestUser
validate payload = record { user_id = payload.sub; roles = get_or payload.roles [] }

-- `JwtAuthGuard`: the user of the request, if its token is valid, or if the route is public.
unfoldable pub jwt_guard : Bool → Option InternalJwtPayload → Result RouteError (Option RequestUser)
unfolding validate
jwt_guard is_public token =
    if is_public
    then ok none
    else elim token [ none ↦ err unauthorized | some payload ↦ ok (some (validate payload)) ]

-- `RolesGuard`
unfoldable pub roles_guard :
    Option (List String) → Option RequestUser → Result RouteError (Unit {0})
roles_guard none user = ok tt
roles_guard (some []) user = ok tt
roles_guard (some (r ∷ required)) none = err insufficient_permissions
roles_guard (some (r ∷ required)) (some user) =
    if any (includes user.roles) (r ∷ required) then ok tt else err insufficient_permissions

unfoldable pub admit : Bool → Option (List String) → Option InternalJwtPayload → Route (Unit {0})
unfolding jwt_guard roles_guard
admit is_public required token s = elim (jwt_guard is_public token) [
  | err e ↦ (err e, s)
  | ok user ↦ (roles_guard required user, s)
]

unfoldable pub run : {A : Type 0} → Call A → Route A
run m s = let (r, s') = m s in elim r [ ok a ↦ (ok a, s') | err e ↦ (err (failed e), s') ]

pub record ProductResponse : Type 0 where
  pub id : String
  pub sku : String
  pub name : String
  pub description : String
  pub category : String
  pub price : ℕ
  pub currency : String
  pub reservation_aware : Bool
  pub is_active : Bool
  pub image_url : Option String
  pub created_at : ℕ
  pub updated_at : ℕ

unfoldable pub from_entity : Product → ProductResponse
from_entity product = record {
  id = product.id;
  sku = product.sku;
  name = product.name;
  description = product.description;
  category = product.category;
  price = product.price;
  currency = product.currency;
  reservation_aware = product.reservation_aware;
  is_active = product.is_active;
  image_url = product.image_url;
  created_at = product.created_at;
  updated_at = product.updated_at;
}

pub record ListProductsQueryDto : Type 0 where
  pub page : Option ℕ
  pub limit : Option ℕ
  pub category : Option String
  pub search : Option String
  pub min_price : Option ℕ
  pub max_price : Option ℕ

pub record PageResponse : Type 0 where
  pub rows : List ProductResponse
  pub total : ℕ
  pub page : ℕ
  pub limit : ℕ

unfoldable pub list_params : ListProductsQueryDto → ListParams
list_params query = record {
  page = get_or query.page 1;
  limit = get_or query.limit 20;
  category = query.category;
  search = query.search;
  min_price = query.min_price;
  max_price = query.max_price;
}

-- GET /products
unfoldable pub get_products :
    (String → String → Bool)
    → Env
    → ListProductsQueryDto
    → Option InternalJwtPayload
    → Route PageResponse
unfolding admit run list_params from_entity
get_products ilike env query token = do
  admit true none token
  result ← run (Lists.list ilike env (list_params query))
  pure (record {
    rows = map from_entity result.rows;
    total = result.total;
    page = result.page;
    limit = result.limit;
  })

module _ (is_uuid : String → Bool) where
  -- GET /products/:id
  unfoldable pub get_product : Env → String → Option InternalJwtPayload → Route ProductResponse
  unfolding admit run from_entity
  get_product env id token = do
    admit true none token
    throw_if (not (is_uuid id)) bad_request
    product ← run (find_by_id env id)
    pure (from_entity product)

  -- PUT /products/:id
  unfoldable pub put_product :
      Env → String → UpdateProductDto → Option InternalJwtPayload → Route ProductResponse
  unfolding admit run from_entity
  put_product env id dto token = do
    admit false (some ("admin" ∷ [])) token
    throw_if (not (is_uuid id)) bad_request
    product ← run (update env id dto)
    pure (from_entity product)

  -- GET /products/:id/price
  unfoldable pub get_price : Env → String → Option InternalJwtPayload → Route Price
  unfolding admit run
  get_price env id token = do
    admit true none token
    throw_if (not (is_uuid id)) bad_request
    run (find_price_by_id env id)

-- POST /products
unfoldable pub post_product :
    Env → CreateProductDto → Option InternalJwtPayload → Route ProductResponse
unfolding admit run from_entity
post_product env dto token = do
  admit false (some ("admin" ∷ [])) token
  product ← run (create env dto)
  pure (from_entity product)

-- POST /products/exists
unfoldable pub post_exists :
    Option (List String) → Option (List String) → Option InternalJwtPayload → Route Existence
unfolding admit
post_exists ids skus token = do
  admit true none token
  gets (check_existence (get_or ids []) (get_or skus []))
