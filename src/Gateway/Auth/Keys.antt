-- ===== src/Gateway/Auth/Keys.antt =====
-- The key that tokens are checked with (api-gateway/src/auth/jwt.strategy.ts).
use ecommerce_microservices.Common.{
  String, ◌≡◌, inl, inr, Option, none, arith, truthy, Option-cases,
}
use ecommerce_microservices.Gateway.Auth.{Config, secret_or_key}

-- The public key is never used: whatever path `JWT_PUBLIC_KEY` holds and whatever the file says,
-- the key, or the error, is the one that a configuration without a public key gives.
pub public_key_ignored :
    (read_file : String → Option String) (config : Config)
    → secret_or_key read_file config
      ≡ secret_or_key (λ path. none) (record config { jwt_public_key = none })
unfolding secret_or_key
public_key_ignored read_file config = elim (Option-cases (truthy config.jwt_public_key)) [
  | inl missing ↦ ground arith
  | inr (path, there) ↦ ground arith
]
