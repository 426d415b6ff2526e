-- ===== src/Users/Auth.antt =====
-- user-service/src/auth/auth.application.service.ts.
use ecommerce_microservices.Common.{
  ℕ, ◌*◌, String, not, Option, none, some, if◌then◌else◌, get_or, truthy, ◌==◌, pure, gets,
  throw_if, or_throw, ◌>>=◌, ◌>>◌,
}
use ecommerce_microservices.Users.Entities.{
  User, invalid_credentials, account_deactivated, invalid_refresh_token, Env, Call,
}
use ecommerce_microservices.Users.Accounts.{Bcrypt, CreateUserDto, create, find_by_id, by_email}

-- The claims of a token.
pub record Claims : Type 0 where
  pub sub : Option String
  pub role : Option String
  pub type : Option String

-- The token library, with the signing secret in place: a token that is signed at a moment and lives
-- for a time, and the claims of a token that is valid at a moment. The library writes the moment and
-- the end of the lifetime into the token.
pub record JwtService : Type 0 where
  pub sign : ℕ → Claims → String → String
  pub verify : ℕ → String → Option Claims

-- What the configuration says, or the defaults; and what the expression of
-- `parseDurationToSeconds` finds in a duration: a number, and a unit in lower case.
pub record Config : Type 0 where
  pub access_expires_in : Option String
  pub refresh_expires_in : Option String
  pub duration : String → Option (ℕ × Option String)

pub record AuthTokenPair : Type 0 where
  pub access_token : String
  pub refresh_token : String
  pub token_type : String
  pub expires_in : ℕ
  pub user : User

unfoldable pub parse_duration_to_seconds : Option (ℕ × Option String) → ℕ
parse_duration_to_seconds none = 0
parse_duration_to_seconds (some (value, unit)) =
    let u = get_or unit "s" in
    if u == "m"
    then value * 60
    else if u == "h"
    then value * 60 * 60
    else if u == "d"
    then value * 60 * 60 * 24
    else value

unfoldable pub access_claims : User → Claims
access_claims user = record { sub = some user.id; role = some "customer"; type = some "access" }

unfoldable pub refresh_claims : User → Claims
refresh_claims user = record { sub = some user.id; role = none; type = some "refresh" }

abbrev pub access_lifetime : Config → String
access_lifetime config = get_or config.access_expires_in "15m"

abbrev pub refresh_lifetime : Config → String
refresh_lifetime config = get_or config.refresh_expires_in "7d"

module _ (jwt : JwtService) (config : Config) where
  unfoldable pub issue_token_pair : ℕ → User → AuthTokenPair
  issue_token_pair now user = record {
    access_token = jwt.sign now (access_claims user) (access_lifetime config);
    refresh_token = jwt.sign now (refresh_claims user) (refresh_lifetime config);
    token_type = "Bearer";
    expires_in = parse_duration_to_seconds (config.duration (access_lifetime config));
    user = user;
  }

  unfoldable pub register : Bcrypt → Env → CreateUserDto → Call AuthTokenPair
  register bcrypt env dto = create bcrypt env dto >>= λ user. pure (issue_token_pair env.now user)

  -- The two checks of the password's hash: it is there, and the password matches.
  unfoldable pub login : Bcrypt → ℕ → String → String → Call AuthTokenPair
  login bcrypt now email password = do
    found ← gets (by_email email)
    user ← or_throw found invalid_credentials
    hash ← or_throw (truthy user.password_hash) invalid_credentials
    throw_if (not user.is_active) account_deactivated
    throw_if (not (bcrypt.compare password hash)) invalid_credentials
    pure (issue_token_pair now user)

  -- The subject of a token that is valid and made for refreshing.
  unfoldable pub refresh_subject : ℕ → String → Option String
  refresh_subject now token = elim (jwt.verify now token) [
    | none ↦ none
    | some claims ↦ if get_or claims.type "" == "refresh" then truthy claims.sub else none
  ]

  unfoldable pub resolve_refresh_token : ℕ → String → Call User
  unfolding refresh_subject
  resolve_refresh_token now token = do
    id ← or_throw (refresh_subject now token) invalid_refresh_token
    user ← find_by_id id
    throw_if (not user.is_active) account_deactivated
    pure user

  unfoldable pub renew_token : ℕ → String → Call AuthTokenPair
  unfolding resolve_refresh_token
  renew_token now token =
      resolve_refresh_token now token >>= λ user. pure (issue_token_pair now user)
