-- ===== src/Products/Routes/Laws.antt =====
-- Who may change a product through product-service/src/interface/http/product.controller.ts.
use ecommerce_microservices.Common.{
  String, Bool, false, ◌≡◌, refl, Option, none, some, [], ◌∷◌, arith, includes, get_or, err,
}
use ecommerce_microservices.Products.Entities.{CreateProductDto, UpdateProductDto, Store, Env}
use ecommerce_microservices.Products.Routes.{
  RouteError, unauthorized, insufficient_permissions, InternalJwtPayload, validate, jwt_guard,
  roles_guard, admit, put_product, post_product,
}

-- What the token of a caller without the role of an administrator is answered with.
abbrev pub refusal : Option InternalJwtPayload → RouteError
refusal none = unauthorized
refusal (some _) = insufficient_permissions

abbrev pub is_admin : Option InternalJwtPayload → Bool
is_admin none = false
is_admin (some payload) = includes (get_or payload.roles []) "admin"

admit-refused :
    (token : Option InternalJwtPayload) (s : Store)
    → is_admin token ≡ false
    → admit false (some ("admin" ∷ [])) token s ≡ (err (refusal token), s)
unfolding admit jwt_guard roles_guard validate
admit-refused none s other = refl
admit-refused (some payload) s other = ground arith

-- A caller that is no administrator can neither create nor change a product: both requests are
-- refused, as unauthorized without a token and for insufficient permissions with one, and the table
-- and the caches stay as they are.
pub only_admins_change :
    (is_uuid : String → Bool) (env : Env) (id : String) (new : CreateProductDto)
    (changes : UpdateProductDto) (token : Option InternalJwtPayload) (s : Store)
    → is_admin token ≡ false
    → (post_product env new token s ≡ (err (refusal token), s))
      × (put_product is_uuid env id changes token s ≡ (err (refusal token), s))
unfolding post_product put_product
only_admins_change is_uuid env id new changes token s other =
    let refused = admit-refused token s other in (ground arith, ground arith)
