-- ===== src/Handlers/Session.antt =====
-- Logging in, and what the token is good for (src/handlers.rs, `login`, with src/auth.rs and
-- src/extract.rs).
use rhel9_app_micro.Prelude.{
  String, ◌<>◌, ◌≡◌, refl, ◌⊎◌, inl, inr, true, false, Bool-cases, none, some, Option-cases,
}
use rhel9_app_micro.Prelude.Int.{◌≤ℤ◌}
use rhel9_app_micro.Outcome.{Except, ok, err, Except-cases, bind-ensures, map_err-ensures}
use rhel9_app_micro.Text.Trim.{NoSpace, trim_of_NoSpace}
use rhel9_app_micro.Text.Prefix.{strip_prefix-append}
use rhel9_app_micro.HashMap.{lookup}
use rhel9_app_micro.Models.{User, role_as_str, LoginRequest, LoginResponse}
use rhel9_app_micro.Models.Names.{role_from_str-role_as_str}
use rhel9_app_micro.Errors.{AppError, unauthorized, IsInternal}
use rhel9_app_micro.Platform.{Platform, Claims}
use rhel9_app_micro.Auth.{
  token_ttl_seconds, claims_role, verify_password, issue_token, decode_token,
}
use rhel9_app_micro.Extract.{Headers, visible, AuthUser, bearer_token, auth_user}
use rhel9_app_micro.Handlers.{AppState, login}

module _ (P : Platform) where
  -- What the program relies on of jsonwebtoken: a token that it signed is read back until it
  -- expires, and is made of the letters of base64url and dots.
  pub record ReadsTokens : Type 0 where
    pub decode_encode :
        (c : Claims) (secret token : String) (w : P.World)
        → P.jwt_encode c secret ≡ ok token
        → P.timestamp (P.utc_now w).0 ≤ℤ c.exp
        → (P.jwt_decode token secret (record { validate_exp = true }) w).0 ≡ ok c
    pub encode-NoSpace :
        (c : Claims) (secret token : String) → P.jwt_encode c secret ≡ ok token → NoSpace token

  -- The claims that a session of this user starts with, at the time of `w`.
  abbrev pub claims_of : User → P.World → Claims
  claims_of u w = record {
    sub = u.username;
    role = role_as_str u.role;
    exp = P.timestamp (P.add_seconds (P.utc_now w).0 token_ttl_seconds);
    iat = P.timestamp (P.utc_now w).0;
  }

  -- The response to a user of these credentials.
  pub record Session (state : AppState) (u : User) (w : P.World) (r : LoginResponse) : Type 0 where
    pub token : P.jwt_encode (claims_of u w) state.config.jwt_secret ≡ ok r.token
    pub token_type : r.token_type ≡ "Bearer"
    pub expires_in : r.expires_in ≡ token_ttl_seconds
    pub role : r.role ≡ role_as_str u.role

  -- The name is not known, or the password is not that user's.
  abbrev pub WrongCredentials : AppState → LoginRequest → Type 0
  WrongCredentials state req =
      (lookup req.username state.users ≡ none)
      ⊎ ((u : User) × (lookup req.username state.users ≡ some u)
          × (verify_password P req.password u.password_hash ≡ false))

  abbrev pub Known : AppState → LoginRequest → User → Type 0
  Known state req u =
      (lookup req.username state.users ≡ some u)
      × (verify_password P req.password u.password_hash ≡ true)

  abbrev pub LoginOutcome :
      AppState → LoginRequest → P.World → Except AppError LoginResponse × P.World → Type 0
  LoginOutcome state req w (ok r, w') =
      (u : User) × Known state req u × Session state u w r × (w' ≡ (P.utc_now w).1)
  LoginOutcome state req w (err e, w') =
      ((w' ≡ w) × WrongCredentials state req × (e ≡ unauthorized "invalid credentials"))
      ⊎ (IsInternal e
          × (w' ≡ (P.utc_now w).1)
          × ((u : User) × Known state req u
              × ((m : String) × (P.jwt_encode (claims_of u w) state.config.jwt_secret ≡ err m))))

  -- Logging in succeeds for a known user with that user's password, and returns a signed token
  -- with the user's name and role, which expires 3600 seconds from now, unless the signing fails. An
  -- unknown name and a wrong password get one and the same 401, and leave the world alone.
  pub login-LoginOutcome :
      (state : AppState) (req : LoginRequest) (w : P.World)
      → LoginOutcome state req w (login P state req w)
  unfolding login issue_token
  login-LoginOutcome state req w = elim (Option-cases (lookup req.username state.users)) [
    | inl unknown ↦ rw unknown (inl (refl, inl unknown, refl))
    | inr (u, f) ↦ rw f (elim (Bool-cases (verify_password P req.password u.password_hash)) [
      | inl right ↦
          rw right (elim (Except-cases (P.jwt_encode (claims_of u w) state.config.jwt_secret)) [
            | inl (t, signed) ↦ rw signed (
              u,
              (f, right),
              record { token = signed; token_type = refl; expires_in = refl; role = refl },
              refl,
            )
            | inr (e, failed) ↦ rw failed (inr (tt, refl, (u, (f, right), (e, failed))))
          ])
      | inr wrong ↦ rw wrong (inl (refl, inr (u, f, wrong), refl))
    ])
  ]

  -- The headers carry the token as a client sends it.
  abbrev pub Carries : Headers → String → Type 0
  Carries headers token = headers "authorization" ≡ some (visible ("Bearer " <> token))

  -- The user that a session of `u` authenticates.
  abbrev pub session_user : User → P.World → AuthUser
  session_user u w = record { username = u.username; role = u.role; claims = claims_of u w }

  module _ (J : ReadsTokens) where
    bearer_token-Carries :
        (headers : Headers) (token : String) (w : P.World)
        → Carries headers token
        → NoSpace token
        → bearer_token headers w ≡ (ok token, w)
    unfolding bearer_token
    bearer_token-Carries headers token w h n =
        rw (h, strip_prefix-append "Bearer " token, trim_of_NoSpace token n)

    decode_token-signed :
        (c : Claims) (secret token : String) (w : P.World)
        → P.jwt_encode c secret ≡ ok token
        → P.timestamp (P.utc_now w).0 ≤ℤ c.exp
        → (decode_token P secret token w).0 ≡ ok c
    unfolding decode_token
    decode_token-signed c secret token w signed time =
        map_err-ensures (λ e. unauthorized "invalid or expired token")
          (P.jwt_decode token secret (record { validate_exp = true })) w (λ r. r.0 ≡ ok c)
          (λ r. r.0 ≡ ok c) (J.decode_encode c secret token w signed time) (λ a w' e. cc)
          (λ a w' e. cc)

    -- A response to a login is good for authentication: until the expiry in its claims, requests
    -- that carry its token are the user's own, with the user's role; provided that jsonwebtoken
    -- reads what it signs.
    pub Session-auth_user :
        (state : AppState) (u : User) (w v : P.World) (r : LoginResponse) (headers : Headers)
        → Session state u w r
        → Carries headers r.token
        → P.timestamp (P.utc_now v).0 ≤ℤ (claims_of u w).exp
        → (auth_user P state.config headers v).0 ≡ ok (session_user u w)
    unfolding auth_user claims_role
    Session-auth_user state u w v r headers s h time =
        rw (bearer_token-Carries headers r.token v h (J.encode-NoSpace _ _ _ s.token)) (
          bind-ensures (decode_token P state.config.jwt_secret r.token) _ v
            (λ x. x.0 ≡ ok (claims_of u w)) (λ x. x.0 ≡ ok (session_user u w))
            (decode_token-signed (claims_of u w) state.config.jwt_secret r.token v s.token time)
            (λ c v' e.
              let same : c ≡ claims_of u w = cc in rw (same, role_from_str-role_as_str u.role))
            (λ e v' h. cc))
