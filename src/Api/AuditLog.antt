-- ===== src/Api/AuditLog.antt =====
-- The audit log is append-only (src/lib.rs over src/db.rs).
use mathlib.Core.List.{append-nil, append_assoc}
use rhel9_app_micro.Prelude.{◌≡◌, refl, ◌∙◌, sym, ap, ◌⊎◌, inl, inr, List, [], ◌∷◌, ◌++◌}
use rhel9_app_micro.Config.{Config}
use rhel9_app_micro.Platform.{Platform}
use rhel9_app_micro.Extract.{Headers}
use rhel9_app_micro.Db.Lawful.{Tables, IsLawful}
use rhel9_app_micro.Db.Lawful.Rows.{AuditRow}
use rhel9_app_micro.Observe.{Server}
use rhel9_app_micro.Handlers.{AppState}
use rhel9_app_micro.Api.{Request, handle, serve}
use rhel9_app_micro.Api.Answers.{handle-Effect}
use rhel9_app_micro.Api.Effects.{Effect, quiet, created, updated, deleted}

module _ (P : Platform) (T : Tables P) where
  -- The audit log of `w'` is that of `w` with events added at the end.
  abbrev pub Grows : P.World → P.World → Type 0
  Grows w w' = (es : List AuditRow) × (T.audits w' ≡ T.audits w ++ es)

  pub extends-Grows :
      {w w' : P.World}
      → (T.audits w' ≡ T.audits w) ⊎ ((e : AuditRow) × (T.audits w' ≡ T.audits w ++ e ∷ []))
      → Grows w w'
  extends-Grows (inl e) = ([], e ∙ sym (append-nil _))
  extends-Grows (inr (e, h)) = (e ∷ [], h)

  Effect-Grows :
      {config : Config} {headers : Headers} {w w' : P.World}
      → Effect P T config headers w w'
      → Grows w w'
  Effect-Grows (quiet s) = extends-Grows (inl s.audits)
  Effect-Grows (created user input t a st x) = extends-Grows x
  Effect-Grows (updated user id input t a v c x) = extends-Grows x
  Effect-Grows (deleted user id a c x) = extends-Grows x

  pub Grows-trans : (u v w : P.World) → Grows u v → Grows v w → Grows u w
  Grows-trans u v w (es, e) (fs, f) = (es ++ fs, f ∙ ap (λ l. l ++ fs) e ∙ append_assoc _ es fs)

module _ (P : Platform) (T : Tables P) (L : IsLawful P T) (state : AppState) where
  -- Over a lawful database, whatever the requests, and whatever fails on the way, no event of the audit log is changed,
  -- moved or removed: the log afterwards is the log before with events added at its end.
  pub serve-Grows :
      (reqs : List Request) (s : Server P) → Grows P T s.world (serve P state reqs s).world
  unfolding serve
  serve-Grows [] s = extends-Grows P T (inl refl)
  serve-Grows (req ∷ reqs) s =
      Grows-trans P T s.world (handle P state req s).1.world _
        (Effect-Grows P T (handle-Effect P T L state req.headers req.endpoint s))
        (serve-Grows reqs (handle P state req s).1)
