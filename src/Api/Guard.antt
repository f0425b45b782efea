-- ===== src/Api/Guard.antt =====
-- Requests without a valid token, and users without the role (src/extract.rs under src/lib.rs).
use rhel9_app_micro.Prelude.{◌≡◌, false}
use rhel9_app_micro.Outcome.{ok, err}
use rhel9_app_micro.Errors.{AppError, forbidden}
use rhel9_app_micro.Platform.{Platform}
use rhel9_app_micro.Extract.{Headers, AuthUser, is_admin, auth_user, admin_user}
use rhel9_app_micro.Observe.Keys.{IsUnauthorized, Keyed, auth_user-Keyed}
use rhel9_app_micro.Handlers.{AppState, AuditQuery}
use rhel9_app_micro.Api.{
  undecodable, Extracted, Endpoint, login, list_tasks, create_task, get_task, update_task,
  delete_task, list_audit, healthz, openapi_json, swagger_ui, metrics, readyz, Reply, refuse,
  answer, route,
}

-- The endpoint takes an `AuthUser` or an `AdminUser`.
abbrev pub NeedsUser : Endpoint → Type 0
NeedsUser (login body) = ⊥
NeedsUser (list_tasks query) = Unit
NeedsUser (create_task body) = Unit
NeedsUser (get_task id) = Unit
NeedsUser (update_task id body) = Unit
NeedsUser (delete_task id) = Unit
NeedsUser (undecodable handler status) = Unit
NeedsUser (list_audit query) = Unit
NeedsUser healthz = ⊥
NeedsUser openapi_json = ⊥
NeedsUser swagger_ui = ⊥
NeedsUser metrics = ⊥
NeedsUser readyz = ⊥

module _ (P : Platform) (state : AppState) (headers : Headers) where
  -- The route's answer to a request with these headers.
  abbrev pub Answers : Endpoint → P.World → Reply P.DateTime × P.World → Type 0
  Answers endpoint w r = route P state (record { headers = headers; endpoint = endpoint }) w ≡ r

  refused_by :
      (endpoint : Endpoint) (w w' : P.World) (e : AppError)
      → NeedsUser endpoint
      → auth_user P state.config headers w ≡ (err e, w')
      → Answers endpoint w (refuse e, w')
  unfolding route answer admin_user
  refused_by (login body) w w' e n h = absurd n
  refused_by (list_tasks query) w w' e n h = rw h
  refused_by (create_task body) w w' e n h = rw h
  refused_by (get_task id) w w' e n h = rw h
  refused_by (update_task id body) w w' e n h = rw h
  refused_by (delete_task id) w w' e n h = rw h
  refused_by (undecodable handler status) w w' e n h = rw h
  refused_by (list_audit query) w w' e n h = rw h
  refused_by healthz w w' e n h = absurd n
  refused_by openapi_json w w' e n h = absurd n
  refused_by swagger_ui w w' e n h = absurd n
  refused_by metrics w w' e n h = absurd n
  refused_by readyz w w' e n h = absurd n

  -- Where a request does not authenticate, every route on tasks or on the audit log answers with
  -- that error, a 401, and does nothing more: the world is the one that the authentication left,
  -- whatever the query or the body.
  pub route_unauthenticated :
      (endpoint : Endpoint) (w w' : P.World) (e : AppError)
      → NeedsUser endpoint
      → auth_user P state.config headers w ≡ (err e, w')
      → IsUnauthorized e × Answers endpoint w (refuse e, w')
  route_unauthenticated endpoint w w' e n h =
      let keyed : Keyed P state.config headers w (err e, w') =
        rw h at (auth_user-Keyed P state.config headers w) in
      (keyed.0, refused_by endpoint w w' e n h)

  -- The audit log is not shown to a user who is not an admin: the answer is 403 and the world is
  -- the one that the authentication left.
  pub route_not_admin :
      (query : Extracted AuditQuery) (w w' : P.World) (user : AuthUser)
      → auth_user P state.config headers w ≡ (ok user, w')
      → is_admin user ≡ false
      → Answers (list_audit query) w (refuse (forbidden "admin role required"), w')
  unfolding route answer admin_user is_admin
  route_not_admin query w w' user h plain = rw (h, plain)
