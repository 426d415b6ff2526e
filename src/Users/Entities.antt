-- ===== src/Users/Entities.antt =====
-- The rows of the user service's database (user-service/src/domain/entities), and the state that
-- it works on.
use ecommerce_microservices.Common.{ℕ, String, Bool, Option, List, Exec}

pub record User : Type 0 where
  pub id : String
  pub email : String
  pub phone : Option String
  pub first_name : String
  pub last_name : String
  pub password_hash : Option String
  pub is_active : Bool
  pub created_at : ℕ
  pub updated_at : ℕ

pub data AddressType : Type 0 where
  home work billing other : AddressType

pub record Address : Type 0 where
  pub id : String
  pub user_id : String
  pub line1 : String
  pub line2 : Option String
  pub city : String
  pub state : Option String
  pub country : String
  pub postal_code : String
  pub type : AddressType
  pub is_default : Bool
  pub created_at : ℕ
  pub updated_at : ℕ

pub record Store : Type 0 where
  pub users : List User
  pub addresses : List Address

pub data UserError : Type 0 where
  email_taken : UserError
  user_not_found : String → UserError
  no_user_with_email : String → UserError
  invalid_credentials : UserError
  account_deactivated : UserError
  invalid_refresh_token : UserError
  query_failed : UserError

-- The surroundings of one call: the clock, new identifiers, and whether a write goes through.
pub record Env : Type 0 where
  pub now : ℕ
  pub user_id : String
  pub address_id : String
  pub saved : Bool

abbrev pub Call : Type 0 → Type 0
Call A = Exec Store UserError A
