-- ===== src/Users/Accounts.antt =====
-- user-service/src/user/user.application.service.ts, with the queries of
-- user-service/src/infrastructure/persistence/user.repository.ts.
use ecommerce_microservices.Common.{
  String, Bool, true, not, Option, none, some, [], ◌∷◌, ◌++◌, get_or, or_else, truthy, is_some,
  ◌==◌, find, update_where, pure, gets, modify, throw_if, or_throw, ◌>>=◌, ◌>>◌,
}
use ecommerce_microservices.Users.Entities.{
  User, Store, email_taken, user_not_found, no_user_with_email, query_failed, Env, Call,
}

-- The two functions of the bcrypt library that the service calls.
pub record Bcrypt : Type 0 where
  pub hash : String → String
  pub compare : String → String → Bool

pub record CreateUserDto : Type 0 where
  pub email : String
  pub first_name : String
  pub last_name : String
  pub phone : Option String
  pub password : Option String

-- An absent field is left as it is.
pub record UpdateUserDto : Type 0 where
  pub first_name : Option String
  pub last_name : Option String
  pub phone : Option String
  pub is_active : Option Bool

abbrev pub by_email : String → Store → Option User
by_email email s = find (λ u. u.email == email) s.users

abbrev pub by_id : String → Store → Option User
by_id id s = find (λ u. u.id == id) s.users

hash_of : Bcrypt → Option String → Option String
hash_of bcrypt password = elim (truthy password) [ none ↦ none | some p ↦ some (bcrypt.hash p) ]

unfoldable pub new_user : Bcrypt → Env → CreateUserDto → User
unfolding hash_of
new_user bcrypt env dto = record {
  id = env.user_id;
  email = dto.email;
  phone = dto.phone;
  first_name = dto.first_name;
  last_name = dto.last_name;
  password_hash = hash_of bcrypt dto.password;
  is_active = true;
  created_at = env.now;
  updated_at = env.now;
}

-- The unique index on the address is what the first query asks, so it refuses no row here; an
-- insert may fail for another reason.
unfoldable pub create : Bcrypt → Env → CreateUserDto → Call User
unfolding new_user
create bcrypt env dto = do
  existing ← gets (by_email dto.email)
  throw_if (is_some existing) email_taken
  throw_if (not env.saved) query_failed
  modify (λ s. record s { users = s.users ++ new_user bcrypt env dto ∷ [] })
  pure (new_user bcrypt env dto)

unfoldable pub find_by_id : String → Call User
find_by_id id = do found ← gets (by_id id); or_throw found (user_not_found id)

unfoldable pub find_by_email : String → Call User
find_by_email email = do found ← gets (by_email email); or_throw found (no_user_with_email email)

unfoldable pub assign : Env → UpdateUserDto → User → User
assign env dto u = record u {
  first_name = get_or dto.first_name u.first_name;
  last_name = get_or dto.last_name u.last_name;
  phone = or_else dto.phone u.phone;
  is_active = get_or dto.is_active u.is_active;
  updated_at = env.now;
}

unfoldable pub update : Env → String → UpdateUserDto → Call User
unfolding find_by_id assign
update env id dto = do
  user ← find_by_id id
  let changed = assign env dto user
  throw_if (not env.saved) query_failed
  modify (λ s. record s { users = update_where (λ u. u.id == id) (λ u. changed) s.users })
  pure changed
