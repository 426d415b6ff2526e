-- ===== src/Gateway/Proxy/Identity.antt =====
-- A session of a user, from the log in at the user service to `GET /users/me` at the gateway
-- (api-gateway/src/proxy/proxy.controller.ts), which asks the user service again.
use ecommerce_microservices.Common.{
  ℕ, String, false, ◌≡◌, refl, sym, ap, ◌∙◌, Option, none, some, [], ◌∷◌, arith, ◌==◌, truthy,
  Result, ok, err, subst,
}
use ecommerce_microservices.Common.Text.{template, split_spaces, split_bearer}
use ecommerce_microservices.Gateway.Auth.{
  GatewayUser, Payload, AuthError, invalid_token_payload, validate, jwt_guard, roles_guard,
  intercept,
}
use ecommerce_microservices.Gateway.Proxy.{
  TypedRequest, InternalClaims, Downstream, Answer, answered, failed, Reply, content,
  internal_claims, get_user, get_correlation_id, build_downstream_headers, get_service_url, call,
  get, service_me, route, get_me, enter, forward,
}
use ecommerce_microservices.Users.Entities.{User, Store}
use ecommerce_microservices.Users.Accounts.{Bcrypt, by_id, find_by_id}
use ecommerce_microservices.Users.Auth.{
  Claims, JwtService, Config, AuthTokenPair, access_claims, refresh_claims, issue_token_pair, login,
  access_lifetime, refresh_lifetime,
}
use ecommerce_microservices.Users.Sessions.{login-ok, login-issued}
use ecommerce_microservices.Users.Routes
use ecommerce_microservices.Users.Routes.{
  InternalPayload, UserResponse, user_response, status_of, message_of, jwt_auth_guard,
  extract_token,
}

-- The tokens between the services, which share a secret.
pub record InternalTokens : Type 0 where
  pub sign : InternalClaims → String
  pub verify : String → Option InternalClaims

-- The library reads back the claims that it has signed, and a token is one word.
abbrev pub Passes : InternalTokens → InternalClaims → Type 0
Passes tokens c =
    (tokens.verify (tokens.sign c) ≡ some c)
    × (split_spaces (tokens.sign c) ≡ tokens.sign c ∷ [])
    × ((tokens.sign c == "") ≡ false)

-- The claims as the user service reads them.
abbrev pub internal_payload : InternalClaims → InternalPayload
internal_payload c = record { sub = c.sub; roles = c.roles }

abbrev pub read_payload : InternalTokens → String → Option InternalPayload
read_payload tokens token = elim (tokens.verify token) [
  | none ↦ none
  | some c ↦ some (internal_payload c)
]

-- The answer of the user service to a request for `GET /users/me`, on its state.
pub serve_me : InternalTokens → Store → Downstream → Answer UserResponse
serve_me tokens s d =
    elim (Routes.get_me (read_payload tokens) (some d.headers.authorization) s).0 [
      | ok user ↦ answered 200 user
      | err e ↦
          failed (some (record { status = status_of e; message = some (message_of e) }))
            "Request failed"
    ]

-- A request through the guards to a handler.
abbrev pub through :
    {D : Type 0}
    → Result AuthError TypedRequest
    → (TypedRequest → Reply D)
    → Result AuthError (Reply D)
through (err e) handler = err e
through (ok req) handler = ok (handler req)

abbrev pub payload_of : Claims → Payload
payload_of c = record { sub = c.sub; role = c.role }

abbrev pub bearer_header : String → Option String
bearer_header token = some (template ("Bearer " ∷ token ∷ []))

headers_lem :
    (token correlation_id : String)
    → some (build_downstream_headers token correlation_id).authorization ≡ bearer_header token
unfolding build_downstream_headers
headers_lem token correlation_id = refl

-- The guard of the user service, on a header that the gateway has built.
guard-headers :
    (tokens : InternalTokens) (c : InternalClaims)
    → Passes tokens c
    → jwt_auth_guard (read_payload tokens) (bearer_header (tokens.sign c)) ≡ ok (internal_payload c)
unfolding jwt_auth_guard extract_token
guard-headers tokens c (reads, one, text) =
    let words = split_bearer (tokens.sign c) one in ground arith

-- What the user service answers to a forwarded request, if it has the user.
serve_me-found :
    (tokens : InternalTokens) (c : InternalClaims) (user : User) (s : Store) (d : Downstream)
    → Passes tokens c
    → some d.headers.authorization ≡ bearer_header (tokens.sign c)
    → by_id c.sub s ≡ some user
    → serve_me tokens s d ≡ answered 200 (user_response user)
unfolding serve_me Routes.get_me Routes.run find_by_id
serve_me-found tokens c user s d passes header known =
    let passed : jwt_auth_guard (read_payload tokens) (some d.headers.authorization)
        ≡ ok (internal_payload c) =
      ap (jwt_auth_guard (read_payload tokens)) header ∙ guard-headers tokens c passes in
    ground arith

validate-access :
    (user : User)
    → (user.id == "") ≡ false
    → validate (payload_of (access_claims user))
      ≡ ok (record { user_id = user.id; role = "customer" })
unfolding validate access_claims
validate-access user named = ground arith

validate-refresh :
    (user : User) → validate (payload_of (refresh_claims user)) ≡ err invalid_token_payload
unfolding validate refresh_claims
validate-refresh user = ground arith

-- What the guards make of a header that the token library reads.
enter-ok :
    (verify : Option String → Option Payload) (header correlation : Option String)
    (payload : Payload) (user : GatewayUser)
    → verify header ≡ some payload
    → validate payload ≡ ok user
    → enter verify header correlation
      ≡ ok (record {
        user = some user;
        correlation_id = truthy correlation;
        correlation_header = correlation;
      })
unfolding enter jwt_guard roles_guard intercept
enter-ok verify header correlation payload user reads valid = ground arith

enter-refused :
    (verify : Option String → Option Payload) (header correlation : Option String)
    (payload : Payload) (e : AuthError)
    → verify header ≡ some payload
    → validate payload ≡ err e
    → enter verify header correlation ≡ err e
unfolding enter jwt_guard
enter-refused verify header correlation payload e reads refused = ground arith

get_me-found :
    (config : String → Option String) (tokens : InternalTokens) (req : TypedRequest) (user : User)
    (base : String) (s : Store)
    → Passes tokens (internal_claims (get_user req))
    → truthy (config "USER_SERVICE_URL") ≡ some base
    → by_id (get_user req).user_id s ≡ some user
    → get_me config tokens.sign (serve_me tokens s) req
      ≡ record { status = 200; cache_control = none; body = content (user_response user) }
unfolding get_me service_me route call get_service_url forward
get_me-found config tokens req user base s passes configured known =
    let d : Downstream = record {
      url = template (base ∷ "/api/v1/users/me" ∷ []);
      method = get none;
      headers =
          build_downstream_headers (tokens.sign (internal_claims (get_user req)))
            (get_correlation_id req);
    } in
    let served : serve_me tokens s d ≡ answered 200 (user_response user) =
      serve_me-found tokens (internal_claims (get_user req)) user s d passes
        (headers_lem (tokens.sign (internal_claims (get_user req))) (get_correlation_id req))
        known in
    ground arith

-- `GET /users/me` at the gateway, with a token and without a correlation identifier.
pub ask_me :
    InternalTokens
    → (String → Option String)
    → (Option String → Option Payload)
    → Store
    → String
    → Result AuthError (Reply UserResponse)
ask_me tokens config verify s token =
    through (enter verify (bearer_header token) none)
      (get_me config tokens.sign (serve_me tokens s))

module _ (jwt : JwtService) (tokens : InternalTokens) (settings : Config) (bcrypt : Bcrypt)
    (config : String → Option String) (verify : Option String → Option Payload) where
  -- The access token of a log in, sent to the gateway, brings back the user that has logged in,
  -- without the hash of the password; the refresh token in its place is refused. The identifier of
  -- the user is not empty and finds the user, the address of the user service is configured, and
  -- the token libraries read back the claims of the tokens in question.
  pub login_then_me :
      (now : ℕ) (email password base : String) (s s' : Store) (pair : AuthTokenPair)
      → login jwt settings bcrypt now email password s ≡ (ok pair, s')
      → truthy (config "USER_SERVICE_URL") ≡ some base
      → by_id pair.user.id s ≡ some pair.user
      → (pair.user.id == "") ≡ false
      → verify (bearer_header (jwt.sign now (access_claims pair.user) (access_lifetime settings)))
        ≡ some (payload_of (access_claims pair.user))
      → verify (bearer_header (jwt.sign now (refresh_claims pair.user) (refresh_lifetime settings)))
        ≡ some (payload_of (refresh_claims pair.user))
      → Passes tokens (internal_claims (record { user_id = pair.user.id; role = "customer" }))
      → (ask_me tokens config verify s' pair.access_token
          ≡ ok (record {
            status = 200;
            cache_control = none;
            body = content (user_response pair.user);
          }))
        × (ask_me tokens config verify s' pair.refresh_token ≡ err invalid_token_payload)
  unfolding issue_token_pair ask_me get_user
  login_then_me now email password base s s' pair logged configured known named reads_access
        reads_refresh passes =
      let same = (login-ok jwt settings bcrypt now email password s s' pair logged).0 in
      let issued = login-issued jwt settings bcrypt now email password s s' pair logged in
      let user = pair.user in
      let access : verify (bearer_header pair.access_token)
          ≡ some (payload_of (access_claims user)) =
        ap (λ p. verify (bearer_header p.access_token)) issued ∙ reads_access in
      let refresh : verify (bearer_header pair.refresh_token)
          ≡ some (payload_of (refresh_claims user)) =
        ap (λ p. verify (bearer_header p.refresh_token)) issued ∙ reads_refresh in
      let req : TypedRequest = record {
        user = some (record { user_id = user.id; role = "customer" });
        correlation_id = none;
        correlation_header = none;
      } in
      let served =
        get_me-found config tokens req user base s' passes configured
          (subst (λ t. by_id user.id t ≡ some user) (sym same) known) in
      let entered =
        enter-ok verify (bearer_header pair.access_token) none (payload_of (access_claims user))
          (record { user_id = user.id; role = "customer" }) access (validate-access user named) in
      let refused =
        enter-refused verify (bearer_header pair.refresh_token) none
          (payload_of (refresh_claims user)) invalid_token_payload refresh
          (validate-refresh user) in
      (
        ap (λ r. through r (get_me config tokens.sign (serve_me tokens s'))) entered ∙ ap ok served,
        ap (λ r. through r (get_me config tokens.sign (serve_me tokens s'))) refused,
      )
