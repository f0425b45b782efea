-- ===== src/Api/Concurrent/AuditLog.antt =====
-- The audit log only grows, where requests are served together (src/lib.rs over src/db.rs).
use rhel9_app_micro.Prelude.{
  ℕ, String, ◌≡◌, refl, inl, inr, List, [], ◌∷◌, All-everywhere, map, ◌++◌, ◌⊎◌,
}
use rhel9_app_micro.Process.{interleave}
use rhel9_app_micro.Models.{Task}
use rhel9_app_micro.Config.{Config}
use rhel9_app_micro.Platform.{Platform}
use rhel9_app_micro.Extract.{Headers}
use rhel9_app_micro.Observe.{Server}
use rhel9_app_micro.Db.Lawful.{Tables, IsLawful}
use rhel9_app_micro.Db.Lawful.Rows.{AuditRow}
use rhel9_app_micro.Handlers.{AppState}
use rhel9_app_micro.Api.{Request}
use rhel9_app_micro.Api.AuditLog.{Grows, extends-Grows, Grows-trans}
use rhel9_app_micro.Api.Steps.{handle_steps}
use rhel9_app_micro.Api.Concurrent.{IsStable}
use rhel9_app_micro.Api.Concurrent.Served.{requests-keep}

module _ (P : Platform) (T : Tables P) where
  abbrev pub Anything : String → Task P.DateTime → Type 0
  Anything id t = Unit

  -- The log goes on growing where a step leaves it alone or adds one event.
  more :
      (w₀ w w' : P.World)
      → (T.audits w' ≡ T.audits w) ⊎ ((e : AuditRow) × (T.audits w' ≡ T.audits w ++ e ∷ []))
      → Grows P T w₀ w
      → Grows P T w₀ w'
  more w₀ w w' step g = Grows-trans P T w₀ w w' g (extends-Grows P T step)

  Grows-IsStable :
      (config : Config) (headers : Headers) (w₀ : P.World)
      → IsStable P T config headers (Grows P T w₀) Anything
  Grows-IsStable config headers w₀ = record {
    quiet = λ w w' s. more w₀ w w' (inl s.audits);
    logged = λ e w w' rows log. more w₀ w w' (inr (e, log));
    found = λ id t w n g. tt;
    created = λ user input t w w' a v n fresh rows log. more w₀ w w' (inl log);
    updated = λ user id existing input now w w' a v k p rows log. more w₀ w w' (inl log);
    deleted = λ user id existing w w' a k p rows log. more w₀ w w' (inl log);
  }

module _ (P : Platform) (T : Tables P) (L : IsLawful P T) (state : AppState) where
  -- Over a lawful database, requests served together only add events at the end of the audit log,
  -- in whatever order their steps follow one another and whatever fails on the way.
  pub requests-Grows :
      (reqs : List Request) (schedule : List ℕ) (s : Server P)
      → Grows P T s.world (interleave schedule (map (handle_steps P state) reqs) s).1.world
  requests-Grows reqs schedule s =
      requests-keep P T L state (Grows P T s.world) (Anything P T) reqs schedule s
        (All-everywhere
          (λ (req : Request).
            IsStable P T state.config req.headers (Grows P T s.world) (Anything P T))
          (λ req. Grows-IsStable P T state.config req.headers s.world) reqs)
        (extends-Grows P T (inl refl))
