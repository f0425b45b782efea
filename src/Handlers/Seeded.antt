-- ===== src/Handlers/Seeded.antt =====
-- The users that src/auth.rs seeds can log in (`seed_users`, with `login` of src/handlers.rs).
use rhel9_app_micro.Prelude.{String, ◌<>◌, ◌≡◌, refl, true, some}
use rhel9_app_micro.Outcome.{Except, ok, err, bind-ensures, map_err-ensures}
use rhel9_app_micro.HashMap.{Map, lookup, insert}
use rhel9_app_micro.Models.{Role, User, admin, user}
use rhel9_app_micro.Errors.{AppError, internal, IsInternal}
use rhel9_app_micro.Config.{Config}
use rhel9_app_micro.Platform.{Platform}
use rhel9_app_micro.Auth.{hash_password, verify_password, seed_users}
use rhel9_app_micro.Handlers.Session.{Known}

module _ (P : Platform) where
  -- What the program relies on of argon2: the text of a hash that it made is one of a hash, against
  -- which it verifies the password.
  pub record VerifiesHashes : Type 0 where
    pub verify_hash :
        (plain salt hash : String)
        → P.argon2_hash plain salt ≡ ok hash
        → (parsed : P.PasswordHash) × (P.parse_hash hash ≡ some parsed)
          × (P.argon2_verify plain parsed ≡ true)

  -- The user is known under this name, password and role.
  abbrev pub CanLogIn : Config → Map User → String → String → Role → Type 0
  CanLogIn config users name password role =
      (u : User) × Known P (record { config = config; users = users })
        (record { username = name; password = password }) u
      × (u.username ≡ name)
      × (u.role ≡ role)

  abbrev pub Seeded : Config → Except AppError (Map User) × P.World → Type 0
  Seeded config (ok users, w') =
      CanLogIn config users "admin" "admin123" admin × CanLogIn config users "user" "user123" user
  Seeded config (err e, w') = IsInternal e

  module _ (V : VerifiesHashes) where
    -- The outcome of hashing.
    abbrev Hashes : String → Except AppError String × P.World → Type 0
    Hashes plain (ok hash, w') = verify_password P plain hash ≡ true
    Hashes plain (err e, w') = IsInternal e

    verify_password-made :
        (plain salt hash : String)
        → P.argon2_hash plain salt ≡ ok hash
        → verify_password P plain hash ≡ true
    unfolding verify_password
    verify_password-made plain salt hash e =
        let (parsed, reads, verifies) = V.verify_hash plain salt hash e in rw reads verifies

    hash_password-Hashes : (plain : String) (w : P.World) → Hashes plain (hash_password P plain w)
    unfolding hash_password
    hash_password-Hashes plain w =
        let (salt, w₁) = P.generate_salt w in
        map_err-ensures (λ e. internal ("hash error: " <> e)) (λ w'. (P.argon2_hash plain salt, w'))
          w₁ (λ r. P.argon2_hash plain salt ≡ r.0) (Hashes plain) refl
          (λ hash w' e. verify_password-made plain salt hash e) (λ e w' k. tt)

    -- Seeding fails with an internal error, or the users `admin` and `user` can log in with their
    -- passwords, as an admin and as a user; provided that argon2 verifies the hashes that it made.
    pub seed_users-Seeded : (config : Config) (w : P.World) → Seeded config (seed_users P w)
    unfolding seed_users lookup insert
    seed_users-Seeded config w =
        bind-ensures (hash_password P "admin123") _ w (Hashes "admin123") (Seeded config)
          (hash_password-Hashes "admin123" w)
          (λ a w₁ h.
            bind-ensures (hash_password P "user123") _ w₁ (Hashes "user123") (Seeded config)
              (hash_password-Hashes "user123" w₁)
              (λ b w₂ k. ((_, (refl, h), refl, refl), (_, (refl, k), refl, refl))) (λ e w₂ k. k))
          (λ e w₁ h. h)
