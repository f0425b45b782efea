-- ===== src/Api/Quiet.antt =====
-- The steps of a request that change no table: its authentication, and the reading handlers.
use rhel9_app_micro.Prelude.{
  ℕ, String, inl, inr, ◌∷◌, Option, none, some, List, [], true, Bool-cases,
}
use rhel9_app_micro.Outcome.{
  Except, ok, err, Act, lift, ok_or, map_err, ◌>>=◌, bind-ensures, map_err-ensures,
}
use rhel9_app_micro.Models.{Task, AuditEvent, LoginRequest, User, is_admin_role}
use rhel9_app_micro.Errors.{AppError, unauthorized, from_rusqlite}
use rhel9_app_micro.Config.{Config}
use rhel9_app_micro.HashMap.{lookup}
use rhel9_app_micro.Platform.{Platform, Row}
use rhel9_app_micro.Auth.{claims_role, decode_token, issue_token, verify_password}
use rhel9_app_micro.Extract.{
  Headers, AuthUser, to_str, strip_bearer, bearer_token, auth_user, admin_user,
}
use rhel9_app_micro.Db.{get_conn, sql, ping, first_row, ping_sql}
use rhel9_app_micro.Db.Lawful.{Tables, Same, IsLawful}
use rhel9_app_micro.Db.Lists.{ListsPage, ListsAudit, list_tasks-ListsPage, list_audit-ListsAudit}
use rhel9_app_micro.Db.Reads.{Same-refl, Same-trans, Connects, get_conn-Connects}
use rhel9_app_micro.Handlers
use rhel9_app_micro.Handlers.{AppState, Pagination, AuditQuery}
use rhel9_app_micro.Handlers.Clamp.{clamp_limit_pos, clamp_offset_pos}
use rhel9_app_micro.Handlers.Permission.{Finds, existing_task-Finds}

module _ (P : Platform) (T : Tables P) (L : IsLawful P T) where
  -- No table changes, whatever the action returns.
  abbrev pub Quiet : {E A : Type 0} → P.World → Except E A × P.World → Type 0
  Quiet w r = Same P T w r.1

  -- Two quiet steps, one after the other.
  pub bind-Quiet :
      {E A B : Type 0} (m : Act E P.World A) (f : A → Act E P.World B) (w : P.World)
      → Quiet w (m w)
      → ((a : A) (w' : P.World) → Quiet w' (f a w'))
      → Quiet w ((m >>= f) w)
  bind-Quiet m f w h k =
      bind-ensures m f w (Quiet w) (Quiet w) h (λ a w' q. Same-trans P T q (k a w')) (λ e w' q. q)

  pub map_err-Quiet :
      {E F A : Type 0} (f : E → F) (m : Act E P.World A) (w : P.World)
      → Quiet w (m w)
      → Quiet w (map_err f m w)
  map_err-Quiet f m w h = map_err-ensures f m w (Quiet w) (Quiet w) h (λ a w' q. q) (λ e w' q. q)

  ok_or-Quiet : {E A : Type 0} (o : Option A) (e : E) (w : P.World) → Quiet w (ok_or o e w)
  ok_or-Quiet none e w = Same-refl P T w
  ok_or-Quiet (some a) e w = Same-refl P T w

  bearer_token-Quiet : (headers : Headers) (w : P.World) → Quiet w (bearer_token headers w)
  unfolding bearer_token
  bearer_token-Quiet headers w =
      bind-Quiet (ok_or (headers "authorization") (unauthorized "missing Authorization header")) _ w
        (ok_or-Quiet (headers "authorization") (unauthorized "missing Authorization header") w)
        (λ header w₁.
          bind-Quiet (ok_or (to_str header) (unauthorized "invalid Authorization header")) _ w₁
            (ok_or-Quiet (to_str header) (unauthorized "invalid Authorization header") w₁)
            (λ value w₂.
              bind-Quiet (ok_or (strip_bearer value) (unauthorized "expected Bearer token")) _ w₂
                (ok_or-Quiet (strip_bearer value) (unauthorized "expected Bearer token") w₂)
                (λ token w₃. Same-refl P T w₃)))

  pub decode_token-Quiet :
      (secret token : String) (w : P.World) → Quiet w (decode_token P secret token w)
  unfolding decode_token
  decode_token-Quiet secret token w =
      map_err-Quiet (λ _. unauthorized "invalid or expired token")
        (P.jwt_decode token secret (record { validate_exp = true })) w (L.jwt_decode token secret w)

  pub auth_user-Quiet :
      (config : Config) (headers : Headers) (w : P.World) → Quiet w (auth_user P config headers w)
  unfolding auth_user
  auth_user-Quiet config headers w =
      bind-Quiet (bearer_token headers) _ w (bearer_token-Quiet headers w) (λ token w₁.
        bind-Quiet (decode_token P config.jwt_secret token) _ w₁
          (decode_token-Quiet config.jwt_secret token w₁)
          (λ claims w₂.
            bind-Quiet (ok_or (claims_role claims) (unauthorized "unknown role in token")) _ w₂
              (ok_or-Quiet (claims_role claims) (unauthorized "unknown role in token") w₂)
              (λ role w₃. Same-refl P T w₃)))

  pub admin_user-Quiet :
      (config : Config) (headers : Headers) (w : P.World) → Quiet w (admin_user P config headers w)
  unfolding admin_user
  admin_user-Quiet config headers w =
      bind-Quiet (auth_user P config headers) _ w (auth_user-Quiet config headers w) (λ user w₁.
        elim (Bool-cases (is_admin_role user.role)) [
          | inl admin ↦ rw admin (Same-refl P T w₁)
          | inr plain ↦ rw plain (Same-refl P T w₁)
        ])

  issue_token-Quiet :
      (secret username : String) (u : User) (w : P.World)
      → Quiet w (issue_token P secret username u.role w)
  unfolding issue_token
  issue_token-Quiet secret username u w =
      Same-trans P T (L.utc_now w)
        (map_err-Quiet _ (lift _) (P.utc_now w).1 (Same-refl P T (P.utc_now w).1))

  pub login-Quiet :
      (state : AppState) (req : LoginRequest) (w : P.World) → Quiet w (Handlers.login P state req w)
  unfolding Handlers.login
  login-Quiet state req w =
      bind-Quiet (ok_or (lookup req.username state.users) (unauthorized "invalid credentials")) _ w
        (ok_or-Quiet (lookup req.username state.users) (unauthorized "invalid credentials") w)
        (λ user w₁. elim (Bool-cases (verify_password P req.password user.password_hash)) [
          | inl good ↦ rw good (
              bind-Quiet (issue_token P state.config.jwt_secret user.username user.role) _ w₁
                (issue_token-Quiet state.config.jwt_secret user.username user w₁)
                (λ token w₂. Same-refl P T w₂))
          | inr bad ↦ rw bad (Same-refl P T w₁)
        ])

  page-Quiet :
      (limit offset : ℕ) (w : P.World) (r : Except AppError (List (Task P.DateTime)) × P.World)
      → ListsPage P T limit offset w r
      → Quiet w r
  page-Quiet l o w (ok ts, w') h = h.2.0
  page-Quiet l o w (err e, w') h = h.2.0

  pub list_tasks-Quiet :
      (user : AuthUser) (p : Pagination) (w : P.World) → Quiet w (Handlers.list_tasks P user p w)
  unfolding Handlers.list_tasks
  list_tasks-Quiet user p w =
      let (l, el, _, _) = clamp_limit_pos p.limit in
      let (o, eo) = clamp_offset_pos p.offset in
      rw (el, eo) (page-Quiet l o w _ (list_tasks-ListsPage P T L l o w))

  events-Quiet :
      (actor action : Option String) (limit : ℕ) (w : P.World)
      (r : Except AppError (List (AuditEvent P.DateTime)) × P.World)
      → ListsAudit P T actor action limit w r
      → Quiet w r
  events-Quiet a b l w (ok es, w') h = h.2.0
  events-Quiet a b l w (err e, w') h = h.2.0

  pub list_audit-Quiet :
      (user : AuthUser) (q : AuditQuery) (w : P.World) → Quiet w (Handlers.list_audit P user q w)
  unfolding Handlers.list_audit
  list_audit-Quiet user q w =
      let (l, el, _, _) = clamp_limit_pos q.limit in
      rw el (events-Quiet q.actor q.action l w _ (list_audit-ListsAudit P T L q.actor q.action l w))

  found-Quiet :
      (id : String) (w : P.World) (r : Except AppError (Task P.DateTime) × P.World)
      → Finds P T id w r
      → Quiet w r
  found-Quiet id w (ok t, w') h = h.0
  found-Quiet id w (err e, w') h = h.0

  pub get_task-Quiet :
      (user : AuthUser) (id : String) (w : P.World) → Quiet w (Handlers.get_task P user id w)
  unfolding Handlers.get_task
  get_task-Quiet user id w = found-Quiet id w _ (existing_task-Finds P T L id w)

  connect-Quiet :
      {A : Type 0} (w : P.World) (r : Except AppError A × P.World) → Connects P T w r → Quiet w r
  connect-Quiet w (ok a, w') h = h
  connect-Quiet w (err e, w') h = h.0

  first_row-Quiet : (rs : List (Except String Row)) (w : P.World) → Quiet w (first_row P rs w)
  first_row-Quiet [] w = Same-refl P T w
  first_row-Quiet (ok row ∷ rs) w = Same-refl P T w
  first_row-Quiet (err e ∷ rs) w = Same-refl P T w

  ping-Quiet : (w : P.World) → Quiet w (ping P w)
  unfolding ping
  ping-Quiet w =
      bind-Quiet (get_conn P) _ w (connect-Quiet w _ (get_conn-Connects P T L w)) (λ _ w₁.
        bind-Quiet (sql P (P.query ping_sql [] >>= first_row P)) _ w₁
          (map_err-Quiet from_rusqlite (P.query ping_sql [] >>= first_row P) w₁
            (bind-Quiet (P.query ping_sql []) (first_row P) w₁ (L.ping w₁) first_row-Quiet))
          (λ _ w₂. Same-refl P T w₂))

  pub readyz-Same : (w : P.World) → Same P T w (Handlers.readyz P w).1
  unfolding Handlers.readyz
  readyz-Same w = go (ping P w) (ping-Quiet w)
    where
      go :
          (r : Except AppError Unit × P.World)
          → Quiet w r
          → Same P T w (Handlers.ready_status P r).1
      go (ok a, w') q = q
      go (err e, w') q = q
