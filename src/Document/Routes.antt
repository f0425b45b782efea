-- ===== src/Document/Routes.antt =====
-- The document beside the routes (src/openapi.rs and src/handlers.rs beside src/lib.rs).
use rhel9_app_micro.Prelude.{
  ℕ, String, ◌≡◌, ◌≢◌, arith, str_eq, eq_iff, ◌||◌, [], ◌∷◌, refl, ◌⊎◌, inl, inr, Bool, false,
  Option, none, some, List, All,
}
use rhel9_app_micro.Platform.{Platform}
use rhel9_app_micro.Api.{
  undecodable, reading, updating, deleting, Endpoint, login, list_tasks, create_task, get_task,
  update_task, delete_task, list_audit, healthz, readyz, openapi_json, swagger_ui, metrics,
  template,
}
use rhel9_app_micro.Document.{
  Operation, OpenApi, login_doc, list_tasks_doc, get_task_doc, create_task_doc, update_task_doc,
  delete_task_doc, list_audit_doc, healthz_doc, readyz_doc, api_doc,
}
use rhel9_app_micro.Document.Paths.{openapi_path}
use rhel9_app_micro.Document.Security.{
  TakesUser, Secures, taken, ignored_healthz, ignored_readyz, ignored_login,
}

-- The value is among these.
abbrev pub OneOf : {A : Type 0} → A → List A → Type 0
OneOf a [] = ⊥
OneOf a (b ∷ bs) = (a ≡ b) ⊎ OneOf a bs

-- The operation that documents an endpoint, if one does.
abbrev pub operation : Endpoint → Option Operation
operation (login body) = some login_doc
operation (list_tasks query) = some list_tasks_doc
operation (create_task body) = some create_task_doc
operation (get_task id) = some get_task_doc
operation (update_task id body) = some update_task_doc
operation (delete_task id) = some delete_task_doc
operation (undecodable reading status) = some get_task_doc
operation (undecodable updating status) = some update_task_doc
operation (undecodable deleting status) = some delete_task_doc
operation (list_audit query) = some list_audit_doc
operation healthz = some healthz_doc
operation readyz = some readyz_doc
operation openapi_json = none
operation swagger_ui = none
operation metrics = none

-- A schema that is named, if one is, is declared.
abbrev pub Declared : OpenApi → Option String → Type 0
Declared doc none = Unit
Declared doc (some schema) = OneOf schema doc.schemas

-- The operation stands in the document, for this method and path, with a scheme exactly where the
-- route takes a user and without one where it answers whatever the headers, and names only tags, schemas and schemes that the document declares.
pub record Describes (P : Platform) (doc : OpenApi) (e : Endpoint) (o : Operation) : Type 0 where
  pub listed : OneOf o doc.paths
  pub method : o.method ≡ (template e).0
  pub path : o.path ≡ openapi_path (template e).1
  pub secured : Secures P o.security e
  pub scheme : OneOf "bearer_auth" doc.security_schemes
  pub tag : OneOf o.tag doc.tags
  pub request_body : Declared doc o.request_body
  pub responses : All (λ (r : ℕ × Option String). Declared doc r.1) o.responses

-- The operation describes the endpoint; without one, the document has none for its path.
abbrev pub Documents : Platform → OpenApi → Endpoint → Option Operation → Type 0
Documents P doc e none = All (λ (o : Operation). o.path ≢ openapi_path (template e).1) doc.paths
Documents P doc e (some o) = Describes P doc e o

-- Whether one of the operations has the path.
abbrev mentions : String → List Operation → Bool
mentions path [] = false
mentions path (o ∷ os) = str_eq o.path path || mentions path os

unmentioned :
    (path : String) (os : List Operation)
    → mentions path os ≡ false
    → All (λ (o : Operation). o.path ≢ path) os
unmentioned path [] h = tt
unmentioned path (o ∷ os) h =
    let same = eq_iff o.path path in (λ e. ground arith, unmentioned path os (ground arith))

-- The operations on one task, of the routes that take an id from the path.
get_task_doc-Describes :
    (P : Platform) (e : Endpoint)
    → template e ≡ ("GET", "/api/tasks/:id")
    → TakesUser P e
    → Describes P api_doc e get_task_doc
unfolding api_doc openapi_path
get_task_doc-Describes P e at_path takes = record {
  listed = inr (inr (inl refl));
  method = rw at_path refl;
  path = rw at_path refl;
  secured = (refl, takes);
  scheme = inl refl;
  tag = inr (inl refl);
  request_body = tt;
  responses = (inr (inr (inl refl)), (tt, tt));
}

update_task_doc-Describes :
    (P : Platform) (e : Endpoint)
    → template e ≡ ("PUT", "/api/tasks/:id")
    → TakesUser P e
    → Describes P api_doc e update_task_doc
unfolding api_doc openapi_path
update_task_doc-Describes P e at_path takes = record {
  listed = inr (inr (inr (inr (inl refl))));
  method = rw at_path refl;
  path = rw at_path refl;
  secured = (refl, takes);
  scheme = inl refl;
  tag = inr (inl refl);
  request_body = inr (inr (inr (inr (inr (inl refl)))));
  responses = (inr (inr (inl refl)), (tt, (tt, tt)));
}

delete_task_doc-Describes :
    (P : Platform) (e : Endpoint)
    → template e ≡ ("DELETE", "/api/tasks/:id")
    → TakesUser P e
    → Describes P api_doc e delete_task_doc
unfolding api_doc openapi_path
delete_task_doc-Describes P e at_path takes = record {
  listed = inr (inr (inr (inr (inr (inl refl)))));
  method = rw at_path refl;
  path = rw at_path refl;
  secured = (refl, takes);
  scheme = inl refl;
  tag = inr (inl refl);
  request_body = tt;
  responses = (tt, (tt, (tt, tt)));
}

-- The document describes each route that a handler answers: its method, its path in the notation
-- of OpenAPI, and a bearer token where the route answers a request that does not authenticate with
-- the error of the authentication, and none where it answers alike whatever the headers; and it
-- declares all that the description refers to. It has no operation for the three other routes:
-- its own, the redirect to it, and the metrics.
pub operation-Documents : (P : Platform) (e : Endpoint) → Documents P api_doc e (operation e)
unfolding api_doc template openapi_path
operation-Documents P (login body) = record {
  listed = inl refl;
  method = refl;
  path = refl;
  secured = ignored_login P body;
  scheme = inl refl;
  tag = inl refl;
  request_body = inl refl;
  responses = (inr (inl refl), (tt, tt));
}
operation-Documents P (list_tasks query) = record {
  listed = inr (inl refl);
  method = refl;
  path = refl;
  secured = taken P (list_tasks query) tt;
  scheme = inl refl;
  tag = inr (inl refl);
  request_body = tt;
  responses = (inr (inr (inl refl)), tt);
}
operation-Documents P (create_task body) = record {
  listed = inr (inr (inr (inl refl)));
  method = refl;
  path = refl;
  secured = taken P (create_task body) tt;
  scheme = inl refl;
  tag = inr (inl refl);
  request_body = inr (inr (inr (inr (inl refl))));
  responses = (inr (inr (inl refl)), (tt, tt));
}
operation-Documents P (get_task id) =
    get_task_doc-Describes P (get_task id) refl (taken P (get_task id) tt).1
operation-Documents P (update_task id body) =
    update_task_doc-Describes P (update_task id body) refl (taken P (update_task id body) tt).1
operation-Documents P (delete_task id) =
    delete_task_doc-Describes P (delete_task id) refl (taken P (delete_task id) tt).1
operation-Documents P (undecodable reading status) =
    get_task_doc-Describes P (undecodable reading status) refl
      (taken P (undecodable reading status) tt).1
operation-Documents P (undecodable updating status) =
    update_task_doc-Describes P (undecodable updating status) refl
      (taken P (undecodable updating status) tt).1
operation-Documents P (undecodable deleting status) =
    delete_task_doc-Describes P (undecodable deleting status) refl
      (taken P (undecodable deleting status) tt).1
operation-Documents P (list_audit query) = record {
  listed = inr (inr (inr (inr (inr (inr (inl refl))))));
  method = refl;
  path = refl;
  secured = taken P (list_audit query) tt;
  scheme = inl refl;
  tag = inr (inr (inl refl));
  request_body = tt;
  responses = (inr (inr (inr (inr (inr (inr (inl refl)))))), (tt, tt));
}
operation-Documents P healthz = record {
  listed = inr (inr (inr (inr (inr (inr (inr (inl refl)))))));
  method = refl;
  path = refl;
  secured = ignored_healthz P;
  scheme = inl refl;
  tag = inr (inr (inr (inl refl)));
  request_body = tt;
  responses = (tt, tt);
}
operation-Documents P readyz = record {
  listed = inr (inr (inr (inr (inr (inr (inr (inr (inl refl))))))));
  method = refl;
  path = refl;
  secured = ignored_readyz P;
  scheme = inl refl;
  tag = inr (inr (inr (inl refl)));
  request_body = tt;
  responses = (tt, (tt, tt));
}
operation-Documents P openapi_json = unmentioned "/api-docs/openapi.json" api_doc.paths refl
operation-Documents P swagger_ui = unmentioned "/swagger-ui" api_doc.paths refl
operation-Documents P metrics = unmentioned "/metrics" api_doc.paths refl
