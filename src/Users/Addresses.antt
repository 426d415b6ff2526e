-- ===== src/Users/Addresses.antt =====
-- user-service/src/user/address.application.service.ts, with the queries of
-- user-service/src/infrastructure/persistence/address.repository.ts, and `getAddress` of
-- user-service/src/interface/http/controllers/user.controller.ts.
pub mod Owners
use ecommerce_microservices.Common.{
  ℕ, String, Bool, true, false, not, Option, none, some, List, [], ◌∷◌, ◌++◌, if◌then◌else◌, get_or,
  is_some, leb, ◌==◌, ◌&&◌, ◌||◌, find, filter, Result, ok, err, pure, gets, modify, throw_if,
  or_throw, ◌>>=◌, ◌>>◌,
}
use ecommerce_microservices.Common.Sort.{order_by}
use ecommerce_microservices.Users.Entities.{
  Address, AddressType, Store, UserError, query_failed, Env, Call,
}
use ecommerce_microservices.Users.Accounts.{by_id}

pub record CreateAddressDto : Type 0 where
  pub line1 : String
  pub line2 : Option String
  pub city : String
  pub state : Option String
  pub country : String
  pub postal_code : String
  pub type : Option AddressType
  pub is_default : Option Bool

unfoldable pub new_address : Env → String → CreateAddressDto → Address
new_address env user_id dto = record {
  id = env.address_id;
  user_id = user_id;
  line1 = dto.line1;
  line2 = dto.line2;
  city = dto.city;
  state = dto.state;
  country = dto.country;
  postal_code = dto.postal_code;
  type = get_or dto.type AddressType.home;
  is_default = get_or dto.is_default false;
  created_at = env.now;
  updated_at = env.now;
}

-- The user is looked up, but what is found is not looked at; it is the foreign key of the table
-- that refuses an address of nobody.
unfoldable pub add_address : Env → String → CreateAddressDto → Call Address
unfolding new_address
add_address env user_id dto = do
  user ← gets (by_id user_id)
  throw_if (not env.saved || not (is_some user)) query_failed
  modify (λ s. record s { addresses = s.addresses ++ new_address env user_id dto ∷ [] })
  pure (new_address env user_id dto)

-- The default addresses first, then the oldest.
abbrev goes_before : Address → Address → Bool
goes_before a b =
    if a.is_default
    then not b.is_default || leb a.created_at b.created_at
    else not b.is_default && leb a.created_at b.created_at

unfoldable pub list_addresses : String → Store → List Address
list_addresses user_id s = order_by goes_before (filter (λ a. a.user_id == user_id) s.addresses)

unfoldable pub get_address : String → String → Store → Option Address
get_address user_id address_id s = elim (find (λ a. a.id == address_id) s.addresses) [
  | none ↦ none
  | some address ↦ if address.user_id == user_id then some address else none
]
