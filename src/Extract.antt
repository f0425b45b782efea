-- ===== src/Extract.antt =====
-- src/extract.rs: the authenticated user of a request.
use rhel9_app_micro.Prelude.{String, Bool, Option, none, some, not, if◌then◌else◌}
use rhel9_app_micro.Outcome.{Act, pure, raise, ok_or, ◌>>=◌}
use rhel9_app_micro.Text.{strip_prefix, trim}
use rhel9_app_micro.Models.{Role, is_admin_role}
use rhel9_app_micro.Errors.{AppError, unauthorized, forbidden}
use rhel9_app_micro.Config.{Config}
use rhel9_app_micro.Platform.{Platform, Claims}
use rhel9_app_micro.Auth.{claims_role, decode_token}

-- The headers of a request: `headers.get(name)`, and then `to_str()`, which fails on a value that
-- is not visible ASCII.
pub data HeaderValue : Type 0 where
  visible : String → HeaderValue
  opaque : HeaderValue

abbrev pub Headers : Type 0
Headers = String → Option HeaderValue

abbrev pub to_str : HeaderValue → Option String
to_str (visible s) = some s
to_str opaque = none

pub record AuthUser : Type 0 where
  pub username : String
  pub role : Role
  pub claims : Claims

-- `AuthUser::is_admin`
unfoldable pub is_admin : AuthUser → Bool
is_admin u = is_admin_role u.role

-- Rust's `Option::or_else`.
abbrev pub or_else : {A : Type 0} → Option A → Option A → Option A
or_else none b = b
or_else (some a) b = some a

-- `strip_prefix("Bearer ")`, or else `strip_prefix("bearer ")`.
abbrev pub strip_bearer : String → Option String
strip_bearer value = or_else (strip_prefix "Bearer " value) (strip_prefix "bearer " value)

-- `bearer_token`
unfoldable pub bearer_token : {W : Type 0} → Headers → Act AppError W String
bearer_token headers = do
  header ← ok_or (headers "authorization") (unauthorized "missing Authorization header")
  value ← ok_or (to_str header) (unauthorized "invalid Authorization header")
  token ← ok_or (strip_bearer value) (unauthorized "expected Bearer token")
  pure (trim token)

module _ (P : Platform) where
  -- `AuthUser::from_request_parts`
  unfoldable pub auth_user : Config → Headers → Act AppError P.World AuthUser
  auth_user config headers = do
    token ← bearer_token headers
    claims ← decode_token P config.jwt_secret token
    role ← ok_or (claims_role claims) (unauthorized "unknown role in token")
    pure (record { username = claims.sub; role = role; claims = claims })

  abbrev pub require_admin : AuthUser → Act AppError P.World AuthUser
  require_admin user =
      if not (is_admin_role user.role) then raise (forbidden "admin role required") else pure user

  -- `AdminUser::from_request_parts`; the wrapper `AdminUser` is left out.
  unfoldable pub admin_user : Config → Headers → Act AppError P.World AuthUser
  admin_user config headers = do user ← auth_user config headers; require_admin user
