-- ===== src/Memory/Sessions.antt =====
-- Sessions over the in-memory platform, whose toy tokens can be read back.
use Prim.Native.String.{[], ◌∷◌}
use rhel9_app_micro.Prelude.{
  ◌<>◌, sym, ℕ, String, ◌≡◌, refl, true, some, none, [], ◌∷◌, arith, str_eq, eq_iff, if◌then◌else◌,
  Bool-cases, inl, inr,
}
use rhel9_app_micro.Prelude.Int.{ℤ, pos, negsuc}
use rhel9_app_micro.Outcome.{ok}
use rhel9_app_micro.Text.{is_whitespace}
use rhel9_app_micro.Models.{User, user, role_as_str, LoginRequest, LoginResponse}
use rhel9_app_micro.Platform.{Claims}
use rhel9_app_micro.Extract.{Headers, visible, auth_user}
use rhel9_app_micro.Handlers.{AppState, login}
use rhel9_app_micro.Handlers.Session.{
  ReadsTokens, Session, LoginOutcome, login-LoginOutcome, session_user, Session-auth_user,
}
use rhel9_app_micro.Auth.{seed_users}
use rhel9_app_micro.Handlers.Seeded.{VerifiesHashes, Seeded, seed_users-Seeded}
use rhel9_app_micro.Memory.{Disk, memory, is_number, is_user_claims, user_claims, mem_encode}

is_number_plain : (z : ℤ) (m : ℕ) → is_number z m ≡ true → z ≡ pos m
is_number_plain (pos n) m h = ground arith
is_number_plain (negsuc n) m h = ground arith

is_user_claims_plain : (c : Claims) → is_user_claims c ≡ true → c ≡ user_claims
is_user_claims_plain c h = ground (
  arith,
  eq_iff c.sub "user",
  eq_iff c.role "user",
  is_number_plain c.exp 3600,
  is_number_plain c.iat 0,
)

encoded :
    (c : Claims) (secret token : String)
    → mem_encode c secret ≡ ok token
    → (c ≡ user_claims) × (token ≡ "Uuser")
encoded c secret token h = elim (Bool-cases (is_user_claims c)) [
  | inl known ↦ (is_user_claims_plain c known, cc (rw known at h))
  | inr other ↦ cc (rw other at h)
]

memory-ReadsTokens : ReadsTokens memory
unfolding is_whitespace
memory-ReadsTokens = record {
  decode_encode =
      λ c secret token w h time. let (known, is) = encoded c secret token h in rw (known, is);
  encode-NoSpace = λ c secret token h.
      let (known, is) = encoded c secret token h in
      rw is (refl, (refl, (refl, (refl, (refl, tt)))));
}

abbrev known_user : User
known_user = record { username = "user"; password_hash = "saltuser123"; role = user }

abbrev state : AppState
state = record {
  config = record { jwt_secret = "s"; db_path = "db"; bind_addr = "0"; rate_limit_per_min = 5 };
  users = ("user", known_user) ∷ [];
}

abbrev credentials : LoginRequest
credentials = record { username = "user"; password = "user123" }

abbrev at_start : Disk
at_start = record { tasks = []; audits = []; clock = 0; ids = 0; outages = [] }

login-LoginOutcome_example :
    LoginOutcome memory state credentials at_start (login memory state credentials at_start)
login-LoginOutcome_example = login-LoginOutcome memory state credentials at_start

abbrev response : LoginResponse
response = record { token = "Uuser"; token_type = "Bearer"; expires_in = pos 3600; role = "user" }

response-Session : Session memory state known_user at_start response
unfolding role_as_str
response-Session = record { token = refl; token_type = refl; expires_in = refl; role = refl }

abbrev with_token : Headers
with_token name = if str_eq name "authorization" then some (visible "Bearer Uuser") else none

Session-auth_user_example :
    (auth_user memory state.config with_token (record at_start { clock = 1800 })).0
    ≡ ok (session_user memory known_user at_start)
Session-auth_user_example =
    Session-auth_user memory memory-ReadsTokens state known_user at_start
      (record at_start { clock = 1800 }) response with_token response-Session refl (omega arith)

memory-VerifiesHashes : VerifiesHashes memory
memory-VerifiesHashes = record {
  verify_hash = λ plain salt hash h.
      let same : "salt" <> plain ≡ hash = cc in
      (hash, refl, (eq_iff hash ("salt" <> plain)).1 (sym same));
}

seed_users-Seeded_example : Seeded memory state.config (seed_users memory at_start)
seed_users-Seeded_example = seed_users-Seeded memory memory-VerifiesHashes state.config at_start
