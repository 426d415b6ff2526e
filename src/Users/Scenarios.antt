-- ===== src/Users/Scenarios.antt =====
-- One account that is registered, used and deactivated: the runs at which the theorems on the user
-- service are applied.
use ecommerce_microservices.Common.{
  List, true, false, ◌≡◌, refl, get_or, none, some, [], ◌∷◌, ok, err, ◌==◌,
}
use ecommerce_microservices.Common.Text.{template, decimal}
use ecommerce_microservices.Users.Entities.{User, Store, Env, account_deactivated}
use ecommerce_microservices.Users.Accounts.{
  Bcrypt, CreateUserDto, UpdateUserDto, new_user, create, update, find_by_id, assign,
}
use ecommerce_microservices.Users.Auth.{
  JwtService, Config, AuthTokenPair, issue_token_pair, register, login, refresh_subject,
  renew_token,
}
use ecommerce_microservices.Users.Bodies.Columns.{
  Request, joined, change, renew, IsFitting, serve_all, serve_all-IsFitting,
}
use ecommerce_microservices.Users.Sessions.{register_then_login, deactivated_locked_out}

abbrev env : Env
env = record { now = 7; user_id = "u"; address_id = "a"; saved = true }

-- A hash that keeps the password, behind a mark.
abbrev bcrypt : Bcrypt
bcrypt = record {
  hash = λ p. template ("#" ∷ p ∷ []);
  compare = λ p h. h == template ("#" ∷ p ∷ []);
}

abbrev ann : CreateUserDto
ann = record {
  email = "ann@example.com";
  first_name = "Ann";
  last_name = "Lee";
  phone = none;
  password = some "secret";
}

abbrev config : Config
config = record {
  access_expires_in = none;
  refresh_expires_in = none;
  duration = λ d. some (15, some "m");
}

-- A token says when it was signed and of what kind it is; all are taken for the one account's.
abbrev jwt : JwtService
jwt = record {
  sign = λ now claims lifetime. template (decimal now ∷ ":" ∷ get_or claims.type "" ∷ []);
  verify = λ now token. some (record { sub = some "u"; role = none; type = some "refresh" });
}

abbrev nobody : Store
nobody = record { users = []; addresses = [] }

abbrev account : User
account = new_user bcrypt env ann

abbrev known : Store
known = record { users = account ∷ []; addresses = [] }

abbrev pair : AuthTokenPair
pair = issue_token_pair jwt config 7 account

registered : register jwt config bcrypt env ann nobody ≡ (ok pair, known)
unfolding register create
registered = refl

hash_matches : bcrypt.compare "secret" (bcrypt.hash "secret") ≡ true
unfolding template
hash_matches = refl

hash_there : (bcrypt.hash "secret" == "") ≡ false
unfolding template
hash_there = refl

register_then_login_example :
    (next : AuthTokenPair) × (login jwt config bcrypt 8 "ann@example.com" "secret" known
      ≡ (ok next, known))
    × (next.user ≡ account)
    × (next.user.email ≡ "ann@example.com")
    × (next.access_token
        ≡ jwt.sign 8
            (record { sub = some "u"; role = some "customer"; type = some "access" })
            "15m")
    × (next.refresh_token
        ≡ jwt.sign 8 (record { sub = some "u"; role = none; type = some "refresh" }) "7d")
unfolding issue_token_pair new_user
register_then_login_example =
    register_then_login jwt config bcrypt env 8 ann "secret" nobody known pair refl hash_matches
      hash_there registered

abbrev off : UpdateUserDto
off = record { first_name = none; last_name = none; phone = none; is_active = some false }

abbrev closed : Store
closed = (update env "u" off known).1

updated : update env "u" off known ≡ (ok (assign env off account), closed)
unfolding update find_by_id new_user
updated = refl

subject : refresh_subject jwt config 9 "token" ≡ some "u"
unfolding refresh_subject
subject = refl

locked_out_example : renew_token jwt config 9 "token" closed ≡ (err account_deactivated, closed)
locked_out_example =
    deactivated_locked_out jwt config bcrypt env 9 "u" "token" off known closed
      (assign env off account) refl updated subject

abbrev with_phone : UpdateUserDto
with_phone = record {
  first_name = none;
  last_name = none;
  phone = some "0123456789";
  is_active = none;
}

abbrev asked : List (Env × Request)
asked =
    (env, joined (record ann { password = some "a long secret" }))
    ∷ (env, change "u" with_phone)
    ∷ (env, renew "refresh")
    ∷ []

serve_all-IsFitting_example : IsFitting (serve_all jwt config (λ email. true) bcrypt asked nobody)
serve_all-IsFitting_example =
    serve_all-IsFitting jwt config (λ email. true) bcrypt asked nobody (tt, tt)
