-- ===== src/Auth/Units.antt =====
-- The unit tests of src/auth.rs, and why they pass on any platform.
use rhel9_app_micro.Prelude.{String, ◌≡◌, refl, Bool, true, false, not, Option, none, some, str_eq}
use rhel9_app_micro.Prelude.Int.{◌≤ℤ◌}
use rhel9_app_micro.Outcome.{
  Except, ok, err, Act, lift, run, map_err, ◌>>=◌, ◌>>◌, bind-ensures, map_err-ok, map_err-ensures,
}
use rhel9_app_micro.Outcome
use rhel9_app_micro.Assertions.{Checked, assert, unwrap, is_err, result_is_err}
use rhel9_app_micro.Models.{Role, admin, user, role_as_str}
use rhel9_app_micro.Models.Names.{role_from_str-role_as_str}
use rhel9_app_micro.Errors.{AppError, unauthorized}
use rhel9_app_micro.Platform.{Platform, Claims}
use rhel9_app_micro.Auth.{
  hash_password, verify_password, issue_token, decode_token, claims_role, token_ttl_seconds,
}

-- `claims.role() == Some(role)`
abbrev role_is : Role → Option Role → Bool
role_is r none = false
role_is r (some r') = str_eq (role_as_str r') (role_as_str r)

abbrev pub IsErr : {E A : Type 0} → Except E A → Type 0
IsErr (ok a) = ⊥
IsErr (err e) = Unit

module _ (P : Platform) where
  -- `password_roundtrip`
  unfoldable pub password_roundtrip : Checked P.World Unit
  password_roundtrip = do
    h ← unwrap (hash_password P "secret")
    assert (verify_password P "secret" h)
    assert (not (verify_password P "wrong" h))

  -- `token_roundtrip`
  unfoldable pub token_roundtrip : Checked P.World Unit
  token_roundtrip = do
    let secret : String = "test-secret"
    tok ← unwrap (issue_token P secret "alice" admin)
    claims ← unwrap (decode_token P secret tok)
    assert (str_eq claims.sub "alice")
    assert (role_is admin (claims_role claims))

  -- `token_rejects_bad_secret`
  unfoldable pub token_rejects_bad_secret : Checked P.World Unit
  token_rejects_bad_secret = do
    tok ← unwrap (issue_token P "secret-a" "bob" user)
    rejected ← is_err (decode_token P "secret-b" tok)
    assert rejected

  -- What the crates document, as far as the tests rely on it: a password can be hashed, and its
  -- hash is verified by it and by no other; claims can be signed, and a token is read back under
  -- its own secret until it expires, and under no other.
  pub record Documented : Type 0 where
    pub hashes : (plain salt : String) → (hash : String) × (P.argon2_hash plain salt ≡ ok hash)
    pub verifies :
        (plain salt hash other : String)
        → P.argon2_hash plain salt ≡ ok hash
        → verify_password P other hash ≡ str_eq other plain
    pub signs : (c : Claims) (secret : String) → (t : String) × (P.jwt_encode c secret ≡ ok t)
    pub reads :
        (c : Claims) (secret token : String) (w : P.World)
        → P.jwt_encode c secret ≡ ok token
        → P.timestamp (P.utc_now w).0 ≤ℤ c.exp
        → (P.jwt_decode token secret (record { validate_exp = true }) w).0 ≡ ok c
    pub rejects :
        (c : Claims) (secret token other : String) (w : P.World)
        → P.jwt_encode c secret ≡ ok token
        → str_eq other secret ≡ false
        → (e : String) × ((P.jwt_decode token other (record { validate_exp = true }) w).0 ≡ err e)

  module _ (D : Documented) where
    -- A password can be hashed, and its hash is verified by this password and by no other.
    pub hash_password-verify_password :
        (plain : String) (w : P.World)
        → (hash : String) × ((hash_password P plain w).0 ≡ ok hash)
          × ((other : String) → verify_password P other hash ≡ str_eq other plain)
    unfolding hash_password
    hash_password-verify_password plain w =
        let (salt, w₁) = P.generate_salt w in
        let (hash, hashed) = D.hashes plain salt in
        (hash, rw hashed refl, λ other. D.verifies plain salt hash other hashed)

    -- A token can be issued. Under its secret it is decoded to its user's name and role, as long as
    -- it has not expired, and under every other secret it is an error.
    pub issue_token-decode_token :
        (secret username : String) (role : Role) (w : P.World)
        → (token : String) × ((issue_token P secret username role w).0 ≡ ok token)
          × ((w' : P.World)
              → P.timestamp (P.utc_now w').0
                ≤ℤ P.timestamp (P.add_seconds (P.utc_now w).0 token_ttl_seconds)
              → (c : Claims) × ((decode_token P secret token w').0 ≡ ok c)
                × (c.sub ≡ username)
                × (claims_role c ≡ some role))
          × ((w' : P.World) (other : String)
              → str_eq other secret ≡ false
              → IsErr (decode_token P other token w').0)
    unfolding issue_token decode_token claims_role
    issue_token-decode_token secret username role w =
        let claims : Claims = record {
          sub = username;
          role = role_as_str role;
          exp = P.timestamp (P.add_seconds (P.utc_now w).0 token_ttl_seconds);
          iat = P.timestamp (P.utc_now w).0;
        } in
        let (token, signed) = D.signs claims secret in
        (
          token,
          rw signed refl,
          λ w' in_time. (
            claims,
            map_err-ok (λ e. unauthorized "invalid or expired token")
                (P.jwt_decode token secret (record { validate_exp = true })) w' claims
                (D.reads claims secret token w' signed in_time),
            refl,
            role_from_str-role_as_str role,
          ),
          λ w' other differs.
              let (e, no_claims) = D.rejects claims secret token other w' signed differs in
              map_err-ensures (λ e. unauthorized "invalid or expired token")
                (P.jwt_decode token other (record { validate_exp = true })) w' (λ x. x.0 ≡ err e)
                (λ x. IsErr x.0) no_claims (λ c w₁ h. cc) (λ e' w₁ h. tt),
        )

    -- The tests pass, from any state of the world.
    password_roundtrip-passes : (w : P.World) → (password_roundtrip w).0 ≡ ok tt
    unfolding password_roundtrip
    password_roundtrip-passes w =
        let (hash, hashed, only) = hash_password-verify_password "secret" w in
        bind-ensures (unwrap (hash_password P "secret")) _ w (λ x. x.0 ≡ ok hash) (λ x. x.0 ≡ ok tt)
          (map_err-ok (λ e. tt) (hash_password P "secret") w hash hashed)
          (λ h w₁ e. let same : h ≡ hash = cc in rw (same, only "secret", only "wrong") refl)
          (λ e w₁ h. cc)

    -- The second reading of the clock comes within the hour that a token lives.
    token_roundtrip-passes :
        (w : P.World)
        → ((w' : P.World)
            → P.timestamp (P.utc_now w').0
              ≤ℤ P.timestamp (P.add_seconds (P.utc_now w).0 token_ttl_seconds))
        → (token_roundtrip w).0 ≡ ok tt
    unfolding token_roundtrip
    token_roundtrip-passes w in_time =
        let secret : String = "test-secret" in
        let (token, issued, reads, _) = issue_token-decode_token secret "alice" admin w in
        bind-ensures (unwrap (issue_token P secret "alice" admin)) _ w (λ x. x.0 ≡ ok token)
          (λ x. x.0 ≡ ok tt)
          (map_err-ok (λ e. tt) (issue_token P secret "alice" admin) w token issued)
          (λ t w₁ e.
            let same : t ≡ token = cc in
            let (claims, decoded, sub, role) = reads w₁ (in_time w₁) in
            rw same (
              bind-ensures (unwrap (decode_token P secret token)) _ w₁ (λ x. x.0 ≡ ok claims)
                (λ x. x.0 ≡ ok tt)
                (map_err-ok (λ e. tt) (decode_token P secret token) w₁ claims decoded)
                (λ c w₂ e'.
                  let it : c ≡ claims = cc in rw (it, sub, role) (unfold role_as_str in refl))
                (λ e w₂ h. cc)))
          (λ e w₁ h. cc)

    token_rejects_bad_secret-passes : (w : P.World) → (token_rejects_bad_secret w).0 ≡ ok tt
    unfolding token_rejects_bad_secret
    token_rejects_bad_secret-passes w =
        let (token, issued, _, rejects) = issue_token-decode_token "secret-a" "bob" user w in
        bind-ensures (unwrap (issue_token P "secret-a" "bob" user)) _ w (λ x. x.0 ≡ ok token)
          (λ x. x.0 ≡ ok tt)
          (map_err-ok (λ e. tt) (issue_token P "secret-a" "bob" user) w token issued)
          (λ t w₁ e.
            let same : t ≡ token = cc in
            rw same (rejected (decode_token P "secret-b" token w₁) (rejects w₁ "secret-b" refl)))
          (λ e w₁ h. cc)
      where
        rejected :
            (x : Except AppError Claims × P.World)
            → IsErr x.0
            → (Outcome.◌>>=◌ (λ w. result_is_err x) (λ b. assert b) x.1).0 ≡ ok tt
        rejected (ok c, w') h = absurd h
        rejected (err e, w') h = refl
