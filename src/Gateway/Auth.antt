-- ===== src/Gateway/Auth.antt =====
-- Who is let in: api-gateway/src/auth (the key, the JWT strategy and the two guards) and
-- api-gateway/src/common/correlation/correlation.interceptor.ts. What the token library makes of an
-- authorization header is a parameter.
pub mod Keys
use ecommerce_microservices.Common.{
  ℕ, String, Bool, true, false, Option, none, some, List, [], ◌∷◌, if◌then◌else◌, is_some, truthy,
  includes, ltb, Result, ok, err, ◌&&◌,
}

pub record GatewayUser : Type 0 where
  pub user_id : String
  pub role : String

-- The claims of a token that is valid, as far as they are read.
pub record Payload : Type 0 where
  pub sub : Option String
  pub role : Option String

pub data AuthError : Type 0 where
  cannot_read_key : String → AuthError
  secret_required : AuthError
  unauthorized : AuthError
  invalid_token_payload : AuthError
  no_role : AuthError
  role_not_authorized : String → AuthError

pub record Config : Type 0 where
  pub jwt_secret : Option String
  pub jwt_public_key : Option String

-- The property `lenght` that the strategy reads of a path: texts have none.
lenght : String → Option ℕ
lenght path = none

-- `a > 0`, where `a` may be `undefined`
above_zero : Option ℕ → Bool
above_zero none = false
above_zero (some n) = ltb 0 n

-- The constructor of the strategy: the key that tokens are checked with, where `read_file` reads a
-- file.
from_secret : Config → Result AuthError String
from_secret config = elim (truthy config.jwt_secret) [
  | none ↦ err secret_required
  | some secret ↦ ok secret
]

unfoldable pub secret_or_key : (String → Option String) → Config → Result AuthError String
unfolding from_secret lenght above_zero
secret_or_key read_file config = elim (truthy config.jwt_public_key) [
  | none ↦ from_secret config
  | some path ↦
      if above_zero (lenght path)
      then elim (read_file path) [ none ↦ err (cannot_read_key path) | some key ↦ ok key ]
      else from_secret config
]

unfoldable pub validate : Payload → Result AuthError GatewayUser
validate payload = elim (truthy payload.sub) [
  | none ↦ err invalid_token_payload
  | some sub ↦ elim (truthy payload.role) [
    | none ↦ err invalid_token_payload
    | some role ↦ ok (record { user_id = sub; role = role })
  ]
]

-- `JwtAuthGuard`: the user that it attaches to the request. `verify` is the token library, with the
-- key in place, on the header.
unfoldable pub jwt_guard :
    (Option String → Option Payload) → Bool → Option String → Result AuthError (Option GatewayUser)
unfolding validate
jwt_guard verify is_public authorization =
    if is_public then ok none else elim (verify authorization) [
      | none ↦ err unauthorized
      | some payload ↦ elim (validate payload) [ err e ↦ err e | ok user ↦ ok (some user) ]
    ]

-- `user?.role`
role_of : Option GatewayUser → Option String
role_of none = none
role_of (some user) = some user.role

-- `RolesGuard`, on the roles that the handler or its class requires.
unfoldable pub roles_guard : Option (List String) → Option GatewayUser → Result AuthError (Unit {0})
unfolding role_of
roles_guard none user = ok tt
roles_guard (some []) user = ok tt
roles_guard (some (r ∷ required)) user = elim (truthy (role_of user)) [
  | none ↦ err no_role
  | some role ↦ if includes (r ∷ required) role then ok tt else err (role_not_authorized role)
]

-- The interceptor: what it sets as `request.correlationId` and as the header of the response.
unfoldable pub intercept : Option String → Option String
intercept inbound = truthy inbound
