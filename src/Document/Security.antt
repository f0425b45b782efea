-- ===== src/Document/Security.antt =====
-- Which routes of src/lib.rs take a user, by what they do, for the security of the document.
use rhel9_app_micro.Prelude.{String, ◌≡◌, refl, Option, none, some}
use rhel9_app_micro.Outcome.{err}
use rhel9_app_micro.Models.{LoginRequest}
use rhel9_app_micro.Errors.{AppError}
use rhel9_app_micro.Platform.{Platform}
use rhel9_app_micro.Extract.{Headers, auth_user}
use rhel9_app_micro.Handlers.{AppState}
use rhel9_app_micro.Api.Guard.{NeedsUser, Answers, route_unauthenticated}
use rhel9_app_micro.Api.{Extracted, refuse, answer, route, Endpoint, login, healthz, readyz}

module _ (P : Platform) where
  -- Without a user the route answers with the error of the authentication, and does nothing more.
  abbrev pub TakesUser : Endpoint → Type 0
  TakesUser e =
      (state : AppState) (headers : Headers) (w w' : P.World) (x : AppError)
      → auth_user P state.config headers w ≡ (err x, w')
      → Answers P state headers e w (refuse x, w')

  -- The route answers alike, whatever the headers.
  abbrev pub IgnoresHeaders : Endpoint → Type 0
  IgnoresHeaders e =
      (state : AppState) (headers headers' : Headers) (w : P.World)
      → Answers P state headers e w (route P state (record { headers = headers'; endpoint = e }) w)

  -- The scheme of an operation, beside what the route does.
  abbrev pub Secures : Option String → Endpoint → Type 0
  Secures none e = IgnoresHeaders e
  Secures (some scheme) e = (scheme ≡ "bearer_auth") × TakesUser e

  pub taken :
      (e : Endpoint) → NeedsUser e → ◌≡◌ {A = String} "bearer_auth" "bearer_auth" × TakesUser e
  taken e n =
      (refl, λ state headers w w' x h. (route_unauthenticated P state headers e w w' x n h).1)

  pub ignored_healthz : IgnoresHeaders healthz
  unfolding route answer
  ignored_healthz state headers headers' w = refl

  pub ignored_readyz : IgnoresHeaders readyz
  unfolding route answer
  ignored_readyz state headers headers' w = refl

  pub ignored_login : (body : Extracted LoginRequest) → IgnoresHeaders (login body)
  unfolding route answer
  ignored_login body state headers headers' w = refl
