-- ===== src/Users/Bodies/Columns.antt =====
-- The lengths of the columns of the user service's tables (user-service/src/domain/entities), and the
-- bodies that are let in.
use ecommerce_microservices.Common.{
  ℕ, String, Bool, true, ◌≡◌, sym, inl, inr, List, [], ◌∷◌, arith, ◌==◌, ◌&&◌, subst, All,
  All-append, All-find, All-update_where, Bool-cases, Option-cases, update_where,
}
use ecommerce_microservices.Users.Entities.{User, Address, Store, Env}
use ecommerce_microservices.Users.Accounts.{
  Bcrypt, CreateUserDto, UpdateUserDto, new_user, create, by_id, find_by_id, assign, update,
}
use ecommerce_microservices.Users.Addresses.{CreateAddressDto, new_address, add_address}
use ecommerce_microservices.Users.Auth.{
  JwtService, Config, register, login, renew_token, resolve_refresh_token, refresh_subject,
}
use ecommerce_microservices.Users.Routes.{
  Route, run, post_user, put_user, post_address, post_register, post_login, post_renew,
}
use ecommerce_microservices.Users.Bodies.{
  max_length, optional, valid_create, valid_register, valid_update, valid_address, valid_login,
  not_empty, admit, create_user, update_user, create_address, register_user, login_user,
  renew_session,
}

-- What the columns of a user hold. The address of mail and the hash have a length of their own.
abbrev pub fits_user : User → Bool
fits_user u =
    max_length 128 u.first_name && max_length 128 u.last_name && optional (max_length 32) u.phone

abbrev pub fits_address : Address → Bool
fits_address a =
    max_length 255 a.line1
    && optional (max_length 255) a.line2
    && max_length 128 a.city
    && optional (max_length 128) a.state
    && max_length 128 a.country
    && max_length 16 a.postal_code

abbrev pub IsFitting : Store → Type 0
IsFitting s = All (λ u. fits_user u ≡ true) s.users × All (λ a. fits_address a ≡ true) s.addresses

new_user-fits :
    (is_email : String → Bool) (bcrypt : Bcrypt) (env : Env) (dto : CreateUserDto)
    → valid_create is_email dto ≡ true
    → fits_user (new_user bcrypt env dto) ≡ true
unfolding valid_create new_user
new_user-fits is_email bcrypt env dto valid = ground arith

valid_register-create :
    (is_email : String → Bool) (dto : CreateUserDto)
    → valid_register is_email dto ≡ true
    → valid_create is_email dto ≡ true
unfolding valid_register
valid_register-create is_email dto valid = ground arith

new_address-fits :
    (env : Env) (user_id : String) (dto : CreateAddressDto)
    → valid_address dto ≡ true
    → fits_address (new_address env user_id dto) ≡ true
unfolding valid_address new_address
new_address-fits env user_id dto valid = ground arith

assign-fits :
    (env : Env) (dto : UpdateUserDto) (u : User)
    → valid_update dto ≡ true
    → fits_user u ≡ true
    → fits_user (assign env dto u) ≡ true
unfolding valid_update assign
assign-fits env dto u valid fits = ground arith

create-IsFitting :
    (bcrypt : Bcrypt) (env : Env) (dto : CreateUserDto) (s : Store)
    → fits_user (new_user bcrypt env dto) ≡ true
    → IsFitting s
    → IsFitting (create bcrypt env dto s).1
unfolding create
create-IsFitting bcrypt env dto s fits h =
    let more =
      All-append (λ u. fits_user u ≡ true) s.users (new_user bcrypt env dto ∷ []) h.0 (fits, tt) in
    ground arith

update-IsFitting :
    (env : Env) (id : String) (dto : UpdateUserDto) (s : Store)
    → valid_update dto ≡ true
    → IsFitting s
    → IsFitting (update env id dto s).1
unfolding update find_by_id
update-IsFitting env id dto s valid h = elim (Option-cases (by_id id s)) [
  | inl missing ↦ ground arith
  | inr (u, found) ↦
      let old = All-find (λ q. fits_user q ≡ true) (λ q. q.id == id) s.users u h.0 found in
      let changed =
        All-update_where (λ q. fits_user q ≡ true) (λ q. fits_user q ≡ true) (λ q. q.id == id)
          (λ q. assign env dto u) s.users (λ q hit fits. assign-fits env dto u valid old)
          (λ q miss fits. fits) h.0 in
      elim (Bool-cases env.saved) [
        | inl saved ↦
            let done : (update env id dto s).1 ≡ record s {
              users = update_where (λ q. q.id == id) (λ q. assign env dto u) s.users;
            } =
              ground arith in
            subst IsFitting (sym done) (changed, h.1)
        | inr refused ↦
            let done : (update env id dto s).1 ≡ s = ground arith in subst IsFitting (sym done) h
      ]
]

add_address-IsFitting :
    (env : Env) (user_id : String) (dto : CreateAddressDto) (s : Store)
    → valid_address dto ≡ true
    → IsFitting s
    → IsFitting (add_address env user_id dto s).1
unfolding add_address
add_address-IsFitting env user_id dto s valid h =
    let more =
      All-append (λ a. fits_address a ≡ true) s.addresses (new_address env user_id dto ∷ []) h.1
        (new_address-fits env user_id dto valid, tt) in
    ground arith

-- A handler keeps what it keeps behind the check, if it does so for valid bodies.
admit-IsFitting :
    {A : Type 0}
    → (valid : Bool) (m : Route A) (s : Store) → (valid ≡ true → IsFitting (m s).1)
    → IsFitting s
    → IsFitting (admit valid m s).1
unfolding admit
admit-IsFitting valid m s kept h = elim (Bool-cases valid) [
  | inl good ↦ let k = kept good in ground arith
  | inr bad ↦ ground arith
]

post_user-state :
    (bcrypt : Bcrypt) (env : Env) (dto : CreateUserDto) (s : Store)
    → (post_user bcrypt env dto s).1 ≡ (create bcrypt env dto s).1
unfolding post_user run
post_user-state bcrypt env dto s = ground arith

put_user-state :
    (env : Env) (id : String) (dto : UpdateUserDto) (s : Store)
    → (put_user env id dto s).1 ≡ (update env id dto s).1
unfolding put_user run
put_user-state env id dto s = ground arith

post_address-state :
    (env : Env) (user_id : String) (dto : CreateAddressDto) (s : Store)
    → (post_address env user_id dto s).1 ≡ (add_address env user_id dto s).1
unfolding post_address run
post_address-state env user_id dto s = ground arith

module _ (jwt : JwtService) (config : Config) (bcrypt : Bcrypt) where
  post_register-state :
      (env : Env) (dto : CreateUserDto) (s : Store)
      → (post_register jwt config bcrypt env dto s).1 ≡ (create bcrypt env dto s).1
  unfolding post_register run register
  post_register-state env dto s = ground arith

  post_login-state :
      (now : ℕ) (email password : String) (s : Store)
      → (post_login jwt config bcrypt now email password s).1 ≡ s
  unfolding post_login run login
  post_login-state now email password s = ground arith

  renew_token-state :
      (now : ℕ) (token : String) (s : Store) → (renew_token jwt config now token s).1 ≡ s
  unfolding renew_token resolve_refresh_token find_by_id
  renew_token-state now token s = elim (Option-cases (refresh_subject jwt config now token)) [
    | inl missing ↦ ground arith
    | inr (id, there) ↦ elim (Option-cases (by_id id s)) [
      | inl nobody ↦ ground arith
      | inr (u, found) ↦ ground arith
    ]
  ]

  post_renew-state :
      (now : ℕ) (token : String) (s : Store) → (post_renew jwt config now token s).1 ≡ s
  unfolding post_renew run
  post_renew-state now token s = let kept = renew_token-state now token s in ground arith

pub data Request : Type 0 where
  sign_up joined : CreateUserDto → Request
  change : String → UpdateUserDto → Request
  house : String → CreateAddressDto → Request
  log_in : String → String → Request
  renew : String → Request

module _ (jwt : JwtService) (config : Config) (is_email : String → Bool) (bcrypt : Bcrypt) where
  abbrev pub serve : Env → Request → Store → Store
  serve env (sign_up dto) s = (register_user is_email bcrypt env jwt config dto s).1
  serve env (joined dto) s = (create_user is_email bcrypt env dto s).1
  serve env (change id dto) s = (update_user is_email bcrypt env id dto s).1
  serve env (house user_id dto) s = (create_address is_email bcrypt env user_id dto s).1
  serve env (log_in email password) s =
      (login_user is_email bcrypt env jwt config email password s).1
  serve env (renew token) s = (renew_session is_email bcrypt env jwt config token s).1

  pub serve_all : List (Env × Request) → Store → Store
  serve_all [] s = s
  serve_all ((env, req) ∷ requests) s = serve_all requests (serve env req s)

  serve-IsFitting :
      (env : Env) (req : Request) (s : Store) → IsFitting s → IsFitting (serve env req s)
  unfolding create_user update_user create_address register_user login_user renew_session
  serve-IsFitting env (sign_up dto) s h =
      admit-IsFitting (valid_register is_email dto) (post_register jwt config bcrypt env dto) s
        (λ valid. subst IsFitting (sym (post_register-state jwt config bcrypt env dto s)) (
          create-IsFitting bcrypt env dto s
            (new_user-fits is_email bcrypt env dto (valid_register-create is_email dto valid)) h))
        h
  serve-IsFitting env (joined dto) s h =
      admit-IsFitting (valid_create is_email dto) (post_user bcrypt env dto) s
        (λ valid.
          subst IsFitting (sym (post_user-state bcrypt env dto s))
            (create-IsFitting bcrypt env dto s (new_user-fits is_email bcrypt env dto valid) h))
        h
  serve-IsFitting env (change id dto) s h =
      admit-IsFitting (valid_update dto) (put_user env id dto) s
        (λ valid.
          subst IsFitting (sym (put_user-state env id dto s))
            (update-IsFitting env id dto s valid h))
        h
  serve-IsFitting env (house user_id dto) s h =
      admit-IsFitting (valid_address dto) (post_address env user_id dto) s
        (λ valid.
          subst IsFitting (sym (post_address-state env user_id dto s))
            (add_address-IsFitting env user_id dto s valid h))
        h
  serve-IsFitting env (log_in email password) s h =
      admit-IsFitting (valid_login is_email email password)
        (post_login jwt config bcrypt env.now email password) s
        (λ valid.
          subst IsFitting (sym (post_login-state jwt config bcrypt env.now email password s)) h)
        h
  serve-IsFitting env (renew token) s h =
      admit-IsFitting (not_empty token) (post_renew jwt config env.now token) s
        (λ valid. subst IsFitting (sym (post_renew-state jwt config bcrypt env.now token s)) h) h

  -- Whatever requests the user service gets and whichever write fails: if the texts of all users
  -- and addresses fit their columns, they do so afterwards, since the bodies whose texts do not are
  -- refused. The address of mail and the hash of the password are left out.
  pub serve_all-IsFitting :
      (requests : List (Env × Request)) (s : Store) → IsFitting s → IsFitting (serve_all requests s)
  unfolding serve_all
  serve_all-IsFitting [] s h = h
  serve_all-IsFitting ((env, req) ∷ requests) s h =
      serve_all-IsFitting requests (serve env req s) (serve-IsFitting env req s h)
