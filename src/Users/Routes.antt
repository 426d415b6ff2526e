-- ===== src/Users/Routes.antt =====
-- The routes of the user service: user-service/src/interface/http/controllers, with the guard of
-- user-service/src/common/jwt-auth.guard.ts and the forms of the answers
-- (user-service/src/interface/http/dto). The checks of the fields of a body are in Users/Bodies.
use ecommerce_microservices.Common.{
  ℕ, String, Bool, Option, none, some, List, [], ◌∷◌, map, if◌then◌else◌, truthy, ◌==◌, Result, ok,
  err, Exec, pure, gets, or_throw, ◌>>=◌,
}
use ecommerce_microservices.Common.Text.{split_spaces, template}
use ecommerce_microservices.Users.Entities.{
  User, AddressType, Address, Store, UserError, email_taken, user_not_found, no_user_with_email,
  invalid_credentials, account_deactivated, invalid_refresh_token, query_failed, Env, Call,
}
use ecommerce_microservices.Users.Accounts.{
  Bcrypt, CreateUserDto, UpdateUserDto, create, find_by_id, find_by_email, update,
}
use ecommerce_microservices.Users.Addresses.{
  CreateAddressDto, add_address, list_addresses, get_address,
}
use ecommerce_microservices.Users.Auth.{
  JwtService, Config, AuthTokenPair, register, login, renew_token,
}

pub data RouteError : Type 0 where
  missing_token invalid_token : RouteError
  address_missing : String → String → RouteError
  failed : UserError → RouteError

-- The status and the message of an answer that reports an error.
unfoldable pub status_of : RouteError → ℕ
status_of missing_token = 401
status_of invalid_token = 401
status_of (address_missing address_id user_id) = 404
status_of (failed email_taken) = 409
status_of (failed (user_not_found id)) = 404
status_of (failed (no_user_with_email email)) = 404
status_of (failed invalid_credentials) = 401
status_of (failed account_deactivated) = 401
status_of (failed invalid_refresh_token) = 401
status_of (failed query_failed) = 500

unfoldable pub message_of : RouteError → String
message_of missing_token = "Missing authorization token"
message_of invalid_token = "Invalid or expired token"
message_of (address_missing address_id user_id) =
    template ("Address " ∷ address_id ∷ " not found for user " ∷ user_id ∷ [])
message_of (failed email_taken) = "A user with this email already exists"
message_of (failed (user_not_found id)) = template ("User " ∷ id ∷ " not found" ∷ [])
message_of (failed (no_user_with_email email)) =
    template ("User with email " ∷ email ∷ " not found" ∷ [])
message_of (failed invalid_credentials) = "Invalid email or password"
message_of (failed account_deactivated) = "Account is deactivated"
message_of (failed invalid_refresh_token) = "Invalid refresh token"
message_of (failed query_failed) = "Internal server error"

abbrev pub Route : Type 0 → Type 0
Route A = Exec Store RouteError A

unfoldable pub run : {A : Type 0} → Call A → Route A
run m s = let (r, s') = m s in elim r [ ok a ↦ (ok a, s') | err e ↦ (err (failed e), s') ]

-- The claims of an internal token, which always names its subject.
pub record InternalPayload : Type 0 where
  pub sub : String
  pub roles : List String

bearer : List String → Option String
bearer (kind ∷ token ∷ _) = if kind == "Bearer" then some token else none
bearer _ = none

unfoldable pub extract_token : Option String → Option String
unfolding bearer
extract_token none = none
extract_token (some authorization) = bearer (split_spaces authorization)

-- The guard: the claims that it attaches to the request. `verify` is the token library, with the
-- internal secret in place.
unfoldable pub jwt_auth_guard :
    (String → Option InternalPayload) → Option String → Result RouteError InternalPayload
unfolding extract_token
jwt_auth_guard verify authorization = elim (truthy (extract_token authorization)) [
  | none ↦ err missing_token
  | some token ↦ elim (verify token) [ none ↦ err invalid_token | some payload ↦ ok payload ]
]

-- The fields that are exposed.
pub record UserResponse : Type 0 where
  pub id : String
  pub email : String
  pub phone : Option String
  pub first_name : String
  pub last_name : String
  pub is_active : Bool
  pub created_at : ℕ
  pub updated_at : ℕ

pub record AddressResponse : Type 0 where
  pub id : String
  pub user_id : String
  pub line1 : String
  pub line2 : Option String
  pub city : String
  pub state : Option String
  pub country : String
  pub postal_code : String
  pub type : AddressType
  pub is_default : Bool
  pub created_at : ℕ
  pub updated_at : ℕ

pub record AuthResponse : Type 0 where
  pub access_token : String
  pub refresh_token : String
  pub token_type : String
  pub expires_in : ℕ
  pub user : UserResponse

unfoldable pub user_response : User → UserResponse
user_response u = record {
  id = u.id;
  email = u.email;
  phone = u.phone;
  first_name = u.first_name;
  last_name = u.last_name;
  is_active = u.is_active;
  created_at = u.created_at;
  updated_at = u.updated_at;
}

unfoldable pub address_response : Address → AddressResponse
address_response a = record {
  id = a.id;
  user_id = a.user_id;
  line1 = a.line1;
  line2 = a.line2;
  city = a.city;
  state = a.state;
  country = a.country;
  postal_code = a.postal_code;
  type = a.type;
  is_default = a.is_default;
  created_at = a.created_at;
  updated_at = a.updated_at;
}

unfoldable pub auth_response : AuthTokenPair → AuthResponse
unfolding user_response
auth_response result = record {
  access_token = result.access_token;
  refresh_token = result.refresh_token;
  token_type = result.token_type;
  expires_in = result.expires_in;
  user = user_response result.user;
}

-- A call that answers with a user.
shown : Call User → Route UserResponse
unfolding run user_response
shown m = run m >>= λ user. pure (user_response user)

-- POST /users
unfoldable pub post_user : Bcrypt → Env → CreateUserDto → Route UserResponse
unfolding shown
post_user bcrypt env dto = shown (create bcrypt env dto)

-- GET /users/me
unfoldable pub get_me : (String → Option InternalPayload) → Option String → Route UserResponse
unfolding shown
get_me verify authorization s = elim (jwt_auth_guard verify authorization) [
  | err e ↦ (err e, s)
  | ok payload ↦ shown (find_by_id payload.sub) s
]

-- GET /users/by-email/:email
unfoldable pub get_by_email : String → Route UserResponse
unfolding shown
get_by_email email = shown (find_by_email email)

-- GET /users/:id
unfoldable pub get_by_id : String → Route UserResponse
unfolding shown
get_by_id id = shown (find_by_id id)

-- PUT /users/:id
unfoldable pub put_user : Env → String → UpdateUserDto → Route UserResponse
unfolding shown
put_user env id dto = shown (update env id dto)

-- POST /users/:id/addresses
unfoldable pub post_address : Env → String → CreateAddressDto → Route AddressResponse
unfolding run address_response
post_address env user_id dto = do
  address ← run (add_address env user_id dto)
  pure (address_response address)

-- GET /users/:id/addresses
unfoldable pub get_addresses : String → Route (List AddressResponse)
unfolding address_response
get_addresses user_id = gets (λ s. map address_response (list_addresses user_id s))

-- GET /users/:id/addresses/:addressId
unfoldable pub get_one_address : String → String → Route AddressResponse
unfolding address_response
get_one_address user_id address_id = do
  found ← gets (get_address user_id address_id)
  address ← or_throw found (address_missing address_id user_id)
  pure (address_response address)

module _ (jwt : JwtService) (config : Config) where
  -- POST /auth/register
  unfoldable pub post_register : Bcrypt → Env → CreateUserDto → Route AuthResponse
  unfolding run auth_response
  post_register bcrypt env dto =
      run (register jwt config bcrypt env dto) >>= λ pair. pure (auth_response pair)

  -- POST /auth/login
  unfoldable pub post_login : Bcrypt → ℕ → String → String → Route AuthResponse
  unfolding run auth_response
  post_login bcrypt now email password =
      run (login jwt config bcrypt now email password) >>= λ pair. pure (auth_response pair)

  -- POST /auth/renew-token
  unfoldable pub post_renew : ℕ → String → Route AuthResponse
  unfolding run auth_response
  post_renew now token =
      run (renew_token jwt config now token) >>= λ pair. pure (auth_response pair)
