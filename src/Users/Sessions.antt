-- ===== src/Users/Sessions.antt =====
-- The tokens of user-service/src/auth/auth.application.service.ts, through several calls.
use ecommerce_microservices.Common.{
  ℕ, get_or, refl, String, true, false, ◌≡◌, sym, ap, ◌∙◌, inl, inr, Option, none, some, [], ◌∷◌,
  ◌++◌, arith, ◌==◌, eq_refl, truthy, find, find-append_none, find_sound, find-replace,
  update_where, subst, Bool-cases, Option-cases, ok, err,
}
use ecommerce_microservices.Users.Entities.{
  User, Store, account_deactivated, invalid_refresh_token, Env,
}
use ecommerce_microservices.Users.Accounts.{
  Bcrypt, CreateUserDto, UpdateUserDto, new_user, create, by_email, by_id, find_by_id, assign,
  update,
}
use ecommerce_microservices.Users.Auth.{
  JwtService, Config, AuthTokenPair, access_claims, refresh_claims, issue_token_pair, register,
  login, refresh_subject, resolve_refresh_token, renew_token,
}

truthy-some : (o : Option String) (a : String) → truthy o ≡ some a → o ≡ some a
truthy-some o a h = ground arith

module _ (jwt : JwtService) (config : Config) (bcrypt : Bcrypt) where
  register-ok :
      (env : Env) (dto : CreateUserDto) (s s' : Store) (pair : AuthTokenPair)
      → register jwt config bcrypt env dto s ≡ (ok pair, s')
      → (by_email dto.email s ≡ none)
        × (pair ≡ issue_token_pair jwt config env.now (new_user bcrypt env dto))
        × (s'.users ≡ s.users ++ new_user bcrypt env dto ∷ [])
  unfolding register create
  register-ok env dto s s' pair h = ground arith

  -- Who has registered with a password can log in with it, at any moment: the log in
  -- changes nothing and is of the registered user, and its tokens are signed at that moment, both for
  -- the user, the one to use with the role of a customer and the other to refresh with no role. The
  -- hash of a password is not empty and matches it.
  pub register_then_login :
      (env : Env) (now : ℕ) (dto : CreateUserDto) (password : String) (s s' : Store)
      (pair : AuthTokenPair)
      → truthy dto.password ≡ some password
      → bcrypt.compare password (bcrypt.hash password) ≡ true
      → (bcrypt.hash password == "") ≡ false
      → register jwt config bcrypt env dto s ≡ (ok pair, s')
      → (next : AuthTokenPair) × (login jwt config bcrypt now dto.email password s' ≡ (ok next, s'))
        × (next.user ≡ pair.user)
        × (next.user.email ≡ dto.email)
        × (next.access_token
            ≡ jwt.sign now
                (record { sub = some pair.user.id; role = some "customer"; type = some "access" })
                (get_or config.access_expires_in "15m"))
        × (next.refresh_token
            ≡ jwt.sign now
                (record { sub = some pair.user.id; role = none; type = some "refresh" })
                (get_or config.refresh_expires_in "7d"))
  unfolding login new_user issue_token_pair access_claims refresh_claims
  register_then_login env now dto password s s' pair given matches there h =
      let (free, issued, users) = register-ok env dto s s' pair h in
      let own = eq_refl dto.email in
      let found : by_email dto.email s' ≡ some (new_user bcrypt env dto) =
        ap (find (λ u. u.email == dto.email)) users
        ∙ find-append_none (λ u. u.email == dto.email) s.users (new_user bcrypt env dto ∷ []) free
        ∙ ground arith in
      let same : new_user bcrypt env dto ≡ pair.user = ap (λ p. p.user) (sym issued) in
      let id : (new_user bcrypt env dto).id ≡ pair.user.id = ap (λ u. u.id) same in
      (
        issue_token_pair jwt config now (new_user bcrypt env dto),
        ground arith,
        same,
        refl,
        ap
            (λ i.
              jwt.sign now (record { sub = some i; role = some "customer"; type = some "access" })
                (get_or config.access_expires_in "15m"))
            id,
        ap
            (λ i.
              jwt.sign now (record { sub = some i; role = none; type = some "refresh" })
                (get_or config.refresh_expires_in "7d"))
            id,
      )

  -- The tokens of a log in are made for its user.
  pub login-issued :
      (now : ℕ) (email password : String) (s s' : Store) (pair : AuthTokenPair)
      → login jwt config bcrypt now email password s ≡ (ok pair, s')
      → pair ≡ issue_token_pair jwt config now pair.user
  unfolding login issue_token_pair
  login-issued now email password s s' pair h = elim (Option-cases (by_email email s)) [
    | inl missing ↦ absurd (ground arith)
    | inr (user, found) ↦
        let issued : pair ≡ issue_token_pair jwt config now user = ground arith in
        subst (λ u. pair ≡ issue_token_pair jwt config now u) (sym (ap (λ p. p.user) issued)) issued
  ]

  -- A log in that succeeds is one to an active account, found by its address, whose hash the
  -- password matches; and it changes nothing.
  pub login-ok :
      (now : ℕ) (email password : String) (s s' : Store) (pair : AuthTokenPair)
      → login jwt config bcrypt now email password s ≡ (ok pair, s')
      → (s' ≡ s)
        × (by_email email s ≡ some pair.user)
        × (pair.user.is_active ≡ true)
        × ((hash : String) × (pair.user.password_hash ≡ some hash)
            × (bcrypt.compare password hash ≡ true))
  unfolding login issue_token_pair
  login-ok now email password s s' pair h = elim (Option-cases (by_email email s)) [
    | inl missing ↦ absurd (ground arith)
    | inr (user, found) ↦ elim (Option-cases (truthy user.password_hash)) [
      | inl blank ↦ absurd (ground arith)
      | inr (hash, there) ↦ elim (Bool-cases user.is_active) [
        | inr inactive ↦ absurd (ground arith)
        | inl active ↦ elim (Bool-cases (bcrypt.compare password hash)) [
          | inr wrong ↦ absurd (ground arith)
          | inl matches ↦
              let issued : pair ≡ issue_token_pair jwt config now user = ground arith in
              let same : user ≡ pair.user = ap (λ p. p.user) (sym issued) in
              (
                ground arith,
                found ∙ ap some same,
                subst (λ u. u.is_active ≡ true) same active,
                (
                  hash,
                  subst (λ u. u.password_hash ≡ some hash) same
                      (truthy-some user.password_hash hash there),
                  matches,
                ),
              )
        ]
      ]
    ]
  ]

  -- The refresh token of an active account gives new tokens for it, and its access token gives none,
  -- if the token library reads the two as it has signed them.
  pub renew-issue :
      (now later : ℕ) (user : User) (s : Store)
      → jwt.verify later (issue_token_pair jwt config now user).refresh_token
        ≡ some (refresh_claims user)
      → jwt.verify later (issue_token_pair jwt config now user).access_token
        ≡ some (access_claims user)
      → (user.id == "") ≡ false
      → by_id user.id s ≡ some user
      → user.is_active ≡ true
      → (renew_token jwt config later (issue_token_pair jwt config now user).refresh_token s
          ≡ (ok (issue_token_pair jwt config later user), s))
        × (renew_token jwt config later (issue_token_pair jwt config now user).access_token s
            ≡ (err invalid_refresh_token, s))
  unfolding renew_token resolve_refresh_token refresh_subject find_by_id issue_token_pair
      access_claims refresh_claims
  renew-issue now later user s refresh access named known active = (ground arith, ground arith)

  -- Once an update has deactivated an account, no refresh token for it is accepted.
  pub deactivated_locked_out :
      (env : Env) (now : ℕ) (id token : String) (dto : UpdateUserDto) (s s' : Store) (user : User)
      → dto.is_active ≡ some false
      → update env id dto s ≡ (ok user, s')
      → refresh_subject jwt config now token ≡ some id
      → renew_token jwt config now token s' ≡ (err account_deactivated, s')
  unfolding renew_token resolve_refresh_token find_by_id update assign
  deactivated_locked_out env now id token dto s s' user off h subject =
      elim (Option-cases (by_id id s)) [
        | inl missing ↦ absurd (ground arith)
        | inr (before, found) ↦
            let after = assign env dto before in
            let users : s'.users ≡ update_where (λ u. u.id == id) (λ u. after) s.users =
              ground arith in
            let there : by_id id s' ≡ some after =
              ap (find (λ u. u.id == id)) users
              ∙ find-replace (λ u. u.id == id) after s.users before
                  (find_sound (λ u. u.id == id) s.users before found) found in
            ground arith
      ]
