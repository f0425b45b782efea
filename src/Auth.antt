-- ===== src/Auth.antt =====
-- src/auth.rs: passwords, the seeded users, and signed tokens.
pub mod Units
use rhel9_app_micro.Prelude.{String, ◌<>◌, Bool, true, false, Option, none, some, []}
use rhel9_app_micro.Prelude.Int.{ℤ, pos}
use rhel9_app_micro.Outcome.{Act, pure, lift, run, map_err, ◌>>=◌}
use rhel9_app_micro.HashMap.{Map, insert}
use rhel9_app_micro.Models.{Role, User, admin, user, role_as_str, role_from_str}
use rhel9_app_micro.Errors.{AppError, unauthorized, internal}
use rhel9_app_micro.Platform.{Platform, Claims}

abbrev pub token_ttl_seconds : ℤ
token_ttl_seconds = pos 3600

-- `Claims::role`
unfoldable pub claims_role : Claims → Option Role
claims_role c = role_from_str c.role

module _ (P : Platform) where
  -- `hash_password`
  unfoldable pub hash_password : String → Act AppError P.World String
  hash_password plain = do
    salt ← run P.generate_salt
    map_err (λ e. internal ("hash error: " <> e)) (lift (P.argon2_hash plain salt))

  abbrev verify_parsed : String → Option P.PasswordHash → Bool
  verify_parsed plain none = false
  verify_parsed plain (some parsed) = P.argon2_verify plain parsed

  -- `verify_password`
  unfoldable pub verify_password : String → String → Bool
  verify_password plain stored_hash = verify_parsed plain (P.parse_hash stored_hash)

  -- `seed_users`; an error here is the panic of `expect`.
  unfoldable pub seed_users : Act AppError P.World (Map User)
  unfolding hash_password
  seed_users = do
    admin_hash ← hash_password "admin123"
    let users =
        insert "admin" (record { username = "admin"; password_hash = admin_hash; role = admin }) []
    user_hash ← hash_password "user123"
    pure
        (insert "user" (record { username = "user"; password_hash = user_hash; role = user }) users)

  -- `issue_token`
  unfoldable pub issue_token : String → String → Role → Act AppError P.World String
  issue_token secret username role = do
    now ← run P.utc_now
    let exp = P.add_seconds now token_ttl_seconds
    let claims : Claims = record {
      sub = username;
      role = role_as_str role;
      exp = P.timestamp exp;
      iat = P.timestamp now;
    }
    map_err (λ e. internal ("jwt encode error: " <> e)) (lift (P.jwt_encode claims secret))

  -- `decode_token`
  unfoldable pub decode_token : String → String → Act AppError P.World Claims
  decode_token secret token = do
    let validation = record P.default_validation { validate_exp = true }
    map_err (λ _. unauthorized "invalid or expired token") (P.jwt_decode token secret validation)
