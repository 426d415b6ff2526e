-- ===== src/Users/Addresses/Owners.antt =====
-- The addresses of user-service/src/user/address.application.service.ts and their users.
use ecommerce_microservices.Common.{
  String, false, ◌≡◌, sym, ap, ◌∙◌, none, some, [], ◌∷◌, ◌++◌, arith, ◌==◌, eq_refl, find,
  find-append_none, subst, ok,
}
use ecommerce_microservices.Users.Entities.{Address, Store, Env}
use ecommerce_microservices.Users.Addresses.{
  CreateAddressDto, new_address, add_address, get_address,
}

add_address-ok :
    (env : Env) (user_id : String) (dto : CreateAddressDto) (s s' : Store) (address : Address)
    → add_address env user_id dto s ≡ (ok address, s')
    → (address ≡ new_address env user_id dto)
      × (s'.addresses ≡ s.addresses ++ new_address env user_id dto ∷ [])
unfolding add_address
add_address-ok env user_id dto s s' address h = ground arith

-- An address that has been added, under a new identifier, is shown to its user and to nobody else.
pub own_address :
    (env : Env) (user_id other : String) (dto : CreateAddressDto) (s s' : Store) (address : Address)
    → find (λ a. a.id == env.address_id) s.addresses ≡ none
    → add_address env user_id dto s ≡ (ok address, s')
    → (get_address user_id address.id s' ≡ some address)
      × ((user_id == other) ≡ false → get_address other address.id s' ≡ none)
unfolding get_address new_address
own_address env user_id other dto s s' address unused h =
    let (made, kept) = add_address-ok env user_id dto s s' address h in
    let new = new_address env user_id dto in
    let own = eq_refl env.address_id in
    let same = eq_refl user_id in
    let found : find (λ a. a.id == env.address_id) s'.addresses ≡ some new =
      ap (find (λ a. a.id == env.address_id)) kept
      ∙ find-append_none (λ a. a.id == env.address_id) s.addresses (new ∷ []) unused
      ∙ ground arith in
    subst
      (λ a.
        (get_address user_id a.id s' ≡ some a)
        × ((user_id == other) ≡ false → get_address other a.id s' ≡ none))
      (sym made) (ground arith, λ differs. ground arith)
