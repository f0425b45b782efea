-- ===== src/Observe/Keys.antt =====
-- Which bucket a request is counted in (src/observe.rs, `client_key`, beside src/extract.rs).
use rhel9_app_micro.Prelude.{true, String, ◌<>◌, ◌≡◌, refl, ◌⊎◌, inl, inr, Option, none, some}
use rhel9_app_micro.Outcome.{Except, ok, err, ok_or, pure, ◌>>=◌, bind-ensures, map_err-ensures}
use rhel9_app_micro.Text.{trim}
use rhel9_app_micro.Models.{Role}
use rhel9_app_micro.Errors.{AppError, unauthorized}
use rhel9_app_micro.Config.{Config}
use rhel9_app_micro.Platform.{Platform, Claims}
use rhel9_app_micro.Auth.{claims_role, decode_token}
use rhel9_app_micro.Extract.{
  HeaderValue, visible, opaque, Headers, to_str, strip_bearer, bearer_token, AuthUser, auth_user,
}
use rhel9_app_micro.Observe.{header_token, decoded_key, anonymous_key, client_key}

-- The error is a 401.
abbrev pub IsUnauthorized : AppError → Type 0
IsUnauthorized e = (m : String) × (e ≡ unauthorized m)

-- The outcome of `bearer_token`, beside what the limiter reads in the same header.
abbrev pub Bears : {W : Type 0} → Option HeaderValue → W → Except AppError String × W → Type 0
Bears o w (ok token, w') = (w' ≡ w) × ((t : String) × (header_token o ≡ some t) × (token ≡ trim t))
Bears o w (err e, w') = (w' ≡ w) × (header_token o ≡ none) × IsUnauthorized e

module _ {W : Type 0} (w : W) where
  stripped-Bears :
      (value : String) (o : Option String)
      → strip_bearer value ≡ o
      → Bears
          (some (visible value))
          w
          ((ok_or o (unauthorized "expected Bearer token") >>= λ token. pure (trim token)) w)
  stripped-Bears value none h = (refl, h, ("expected Bearer token", refl))
  stripped-Bears value (some t) h = (refl, (t, h, refl))

  value-Bears :
      (o : Option HeaderValue)
      → Bears o w (
          (ok_or o (unauthorized "missing Authorization header") >>= λ header.
          ok_or (to_str header) (unauthorized "invalid Authorization header") >>= λ value.
          ok_or (strip_bearer value) (unauthorized "expected Bearer token") >>= λ token.
          pure (trim token))
            w)
  value-Bears none = (refl, refl, ("missing Authorization header", refl))
  value-Bears (some opaque) = (refl, refl, ("invalid Authorization header", refl))
  value-Bears (some (visible value)) = stripped-Bears value (strip_bearer value) refl

  -- The extractor and the limiter find a token in the same headers, the same one.
  pub bearer_token-Bears :
      (headers : Headers) → Bears (headers "authorization") w (bearer_token headers w)
  unfolding bearer_token
  bearer_token-Bears headers = value-Bears (headers "authorization")

module _ (P : Platform) where
  -- What the bucket of a request has to do with the outcome of its authentication.
  abbrev pub Keyed : Config → Headers → P.World → Except AppError AuthUser × P.World → Type 0
  Keyed config headers w (ok user, w') =
      client_key P config headers w ≡ ("sub:" <> user.username, w')
  Keyed config headers w (err e, w') =
      IsUnauthorized e
      × ((client_key P config headers w ≡ (anonymous_key headers, w'))
          ⊎ ((c : Claims) × (claims_role c ≡ none)
              × (client_key P config headers w ≡ ("sub:" <> c.sub, w'))))

  module _ (config : Config) (headers : Headers) (w : P.World) where
    -- The outcome of decoding the token, and the key made of it.
    abbrev Decoded : String → Except AppError Claims × P.World → Type 0
    Decoded t (ok c, w') =
        decoded_key P headers (decode_token P config.jwt_secret (trim t) w) ≡ ("sub:" <> c.sub, w')
    Decoded t (err e, w') =
        IsUnauthorized e
        × (decoded_key P headers (decode_token P config.jwt_secret (trim t) w)
            ≡ (anonymous_key headers, w'))

    token-Decoded : (t : String) → Decoded t (decode_token P config.jwt_secret (trim t) w)
    unfolding decode_token
    token-Decoded t =
        map_err-ensures (λ e. unauthorized "invalid or expired token")
          (P.jwt_decode (trim t) config.jwt_secret
            (record P.default_validation { validate_exp = true }))
          w
          (λ r.
            P.jwt_decode (trim t) config.jwt_secret
              (record P.default_validation { validate_exp = true }) w
            ≡ r)
          (Decoded t) refl (λ c w' h. rw h) (λ e w' h. (("invalid or expired token", refl), rw h))

    role-Keyed :
        (c : Claims) (w' : P.World) (o : Option Role)
        → claims_role c ≡ o
        → client_key P config headers w ≡ ("sub:" <> c.sub, w')
        → Keyed config headers w (
            (ok_or o (unauthorized "unknown role in token") >>= λ role.
            pure (record { username = c.sub; role = role; claims = c }))
              w')
    role-Keyed c w' none h k = (("unknown role in token", refl), inr (c, h, k))
    role-Keyed c w' (some role) h k = k

    -- The rate limiter and the extractor agree on who the client is. A request that is
    -- authenticated is counted in the bucket of its user. A request whose authentication fails gets
    -- a 401, and is counted by its address headers, or, where the token decodes but names no role,
    -- by the token's subject. Both leave the world the same.
    pub auth_user-Keyed : Keyed config headers w (auth_user P config headers w)
    unfolding auth_user client_key
    auth_user-Keyed =
        bind-ensures (bearer_token headers) _ w (Bears (headers "authorization") w)
          (Keyed config headers w) (bearer_token-Bears w headers)
          (λ token w₁ (same, (t, found, is)).
            rw (same, is)
              (bind-ensures (decode_token P config.jwt_secret (trim t)) _ w (Decoded t)
                (Keyed config headers w) (token-Decoded t)
                (λ c w₂ h. role-Keyed c w₂ (claims_role c) refl (rw found h))
                (λ e w₂ h. (h.0, inl (rw found (h.1))))))
          (λ e w₁ h. (h.2, inl (rw (h.1, h.0))))
