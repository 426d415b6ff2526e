-- ===== src/Users/Bodies.antt =====
-- The bodies that the routes of the user service take (user-service/src/interface/http/dto): the
-- framework checks a body before its handler. What the library takes for an address of mail is a
-- parameter; a field of a wrong type is no body here.
pub mod Columns
use Prim.Native.String.{count}
use ecommerce_microservices.Common.{
  ℕ, String, Bool, true, not, Option, none, some, ◌==◌, ◌&&◌, leb, is_some, if◌then◌else◌, Result,
  ok, err, Exec,
}
use ecommerce_microservices.Users.Entities.{Store, Env}
use ecommerce_microservices.Users.Accounts.{Bcrypt, CreateUserDto, UpdateUserDto}
use ecommerce_microservices.Users.Addresses.{CreateAddressDto}
use ecommerce_microservices.Users.Auth.{JwtService, Config}
use ecommerce_microservices.Users.Routes.{
  RouteError, Route, UserResponse, AddressResponse, AuthResponse, post_user, put_user, post_address,
  post_register, post_login, post_renew,
}

pub data BodyError : Type 0 where
  bad_request : BodyError
  answered : RouteError → BodyError

abbrev pub Body : Type 0 → Type 0
Body A = Exec Store BodyError A

-- `@MaxLength`
abbrev pub max_length : ℕ → String → Bool
max_length n s = leb (count s) n

-- `@MinLength`
abbrev pub min_length : ℕ → String → Bool
min_length n s = leb n (count s)

-- `@IsNotEmpty`
abbrev pub not_empty : String → Bool
not_empty s = not (s == "")

-- `@IsOptional`
abbrev pub optional : (String → Bool) → Option String → Bool
optional test none = true
optional test (some s) = test s

-- The checks of a name, and of a text of an address.
abbrev pub named : ℕ → String → Bool
named n s = not_empty s && max_length n s

unfoldable pub valid_password : String → Bool
valid_password s = min_length 8 s && max_length 128 s

unfoldable pub valid_create : (String → Bool) → CreateUserDto → Bool
unfolding valid_password
valid_create is_email dto =
    is_email dto.email
    && named 128 dto.first_name
    && named 128 dto.last_name
    && optional (max_length 32) dto.phone
    && optional valid_password dto.password

-- The same fields, and a password that must be there.
unfoldable pub valid_register : (String → Bool) → CreateUserDto → Bool
unfolding valid_create
valid_register is_email dto = valid_create is_email dto && is_some dto.password

unfoldable pub valid_update : UpdateUserDto → Bool
valid_update dto =
    optional (max_length 128) dto.first_name
    && optional (max_length 128) dto.last_name
    && optional (max_length 32) dto.phone

unfoldable pub valid_address : CreateAddressDto → Bool
valid_address dto =
    named 255 dto.line1
    && optional (max_length 255) dto.line2
    && named 128 dto.city
    && optional (max_length 128) dto.state
    && named 128 dto.country
    && named 16 dto.postal_code

unfoldable pub valid_login : (String → Bool) → String → String → Bool
valid_login is_email email password = is_email email && not_empty password

-- A handler behind the check of its body.
unfoldable pub admit : {A : Type 0} → Bool → Route A → Body A
admit valid m s =
    if valid
    then (let (r, t) = m s in elim r [ ok a ↦ (ok a, t) | err e ↦ (err (answered e), t) ])
    else (err bad_request, s)

-- The routes, as they are asked.
module _ (is_email : String → Bool) (bcrypt : Bcrypt) (env : Env) where
  unfoldable pub create_user : CreateUserDto → Body UserResponse
  unfolding admit valid_create
  create_user dto = admit (valid_create is_email dto) (post_user bcrypt env dto)

  unfoldable pub update_user : String → UpdateUserDto → Body UserResponse
  unfolding admit valid_update
  update_user id dto = admit (valid_update dto) (put_user env id dto)

  unfoldable pub create_address : String → CreateAddressDto → Body AddressResponse
  unfolding admit valid_address
  create_address user_id dto = admit (valid_address dto) (post_address env user_id dto)

  module _ (jwt : JwtService) (config : Config) where
    unfoldable pub register_user : CreateUserDto → Body AuthResponse
    unfolding admit valid_register
    register_user dto =
        admit (valid_register is_email dto) (post_register jwt config bcrypt env dto)

    unfoldable pub login_user : String → String → Body AuthResponse
    unfolding admit valid_login
    login_user email password =
        admit (valid_login is_email email password)
          (post_login jwt config bcrypt env.now email password)

    unfoldable pub renew_session : String → Body AuthResponse
    unfolding admit
    renew_session token = admit (not_empty token) (post_renew jwt config env.now token)
