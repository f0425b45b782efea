-- ===== src/Document.antt =====
-- src/openapi.rs with the `utoipa::path` attributes of src/handlers.rs: the document of the API, as
-- far as it says which operations there are. Descriptions and the types of parameters are left out.
pub mod Paths
pub mod Security
pub mod Routes
pub mod Failures
pub mod Statuses
pub mod Answers
use rhel9_app_micro.Prelude.{ℕ, String, Option, none, some, List, [], ◌∷◌}

-- One operation: its request body and the bodies of its responses are names of schemas, an array of
-- a schema too.
pub record Operation : Type 0 where
  pub method : String
  pub path : String
  -- Name and place of each parameter.
  pub params : List (String × String)
  pub request_body : Option String
  pub responses : List (ℕ × Option String)
  pub security : Option String
  pub tag : String

abbrev pub login_doc : Operation
login_doc = record {
  method = "POST";
  path = "/api/auth/login";
  params = [];
  request_body = some "LoginRequest";
  responses = (200, some "LoginResponse") ∷ (401, none) ∷ [];
  security = none;
  tag = "auth";
}

abbrev pub list_tasks_doc : Operation
list_tasks_doc = record {
  method = "GET";
  path = "/api/tasks";
  params = ("limit", "query") ∷ ("offset", "query") ∷ [];
  request_body = none;
  responses = (200, some "Task") ∷ [];
  security = some "bearer_auth";
  tag = "tasks";
}

abbrev pub get_task_doc : Operation
get_task_doc = record {
  method = "GET";
  path = "/api/tasks/{id}";
  params = ("id", "path") ∷ [];
  request_body = none;
  responses = (200, some "Task") ∷ (404, none) ∷ [];
  security = some "bearer_auth";
  tag = "tasks";
}

abbrev pub create_task_doc : Operation
create_task_doc = record {
  method = "POST";
  path = "/api/tasks";
  params = [];
  request_body = some "CreateTask";
  responses = (201, some "Task") ∷ (400, none) ∷ [];
  security = some "bearer_auth";
  tag = "tasks";
}

abbrev pub update_task_doc : Operation
update_task_doc = record {
  method = "PUT";
  path = "/api/tasks/{id}";
  params = ("id", "path") ∷ [];
  request_body = some "UpdateTask";
  responses = (200, some "Task") ∷ (403, none) ∷ (404, none) ∷ [];
  security = some "bearer_auth";
  tag = "tasks";
}

abbrev pub delete_task_doc : Operation
delete_task_doc = record {
  method = "DELETE";
  path = "/api/tasks/{id}";
  params = ("id", "path") ∷ [];
  request_body = none;
  responses = (204, none) ∷ (403, none) ∷ (404, none) ∷ [];
  security = some "bearer_auth";
  tag = "tasks";
}

abbrev pub list_audit_doc : Operation
list_audit_doc = record {
  method = "GET";
  path = "/api/audit";
  params = ("actor", "query") ∷ ("action", "query") ∷ ("limit", "query") ∷ [];
  request_body = none;
  responses = (200, some "AuditEvent") ∷ (403, none) ∷ [];
  security = some "bearer_auth";
  tag = "audit";
}

abbrev pub healthz_doc : Operation
healthz_doc = record {
  method = "GET";
  path = "/healthz";
  params = [];
  request_body = none;
  responses = (200, none) ∷ [];
  security = none;
  tag = "health";
}

abbrev pub readyz_doc : Operation
readyz_doc = record {
  method = "GET";
  path = "/readyz";
  params = [];
  request_body = none;
  responses = (200, none) ∷ (503, none) ∷ [];
  security = none;
  tag = "health";
}

-- The document: what `#[openapi(…)]` lists, and what the modifier adds.
pub record OpenApi : Type 0 where
  pub title : String
  pub version : String
  pub description : String
  pub paths : List Operation
  pub schemas : List String
  pub tags : List String
  pub security_schemes : List String

-- `SecurityAddon::modify`: the name of the scheme; that it is HTTP bearer is left out.
abbrev pub modify : OpenApi → OpenApi
modify doc = record doc { security_schemes = "bearer_auth" ∷ doc.security_schemes }

-- `ApiDoc`
unfoldable pub api_doc : OpenApi
api_doc = modify (record {
  title = "SecureLedger API";
  version = "0.1.0";
  description = "A secure task & audit REST API.";
  paths =
      login_doc ∷ list_tasks_doc ∷ get_task_doc ∷ create_task_doc ∷ update_task_doc
      ∷ delete_task_doc ∷ list_audit_doc ∷ healthz_doc ∷ readyz_doc ∷ [];
  schemas =
      "LoginRequest" ∷ "LoginResponse" ∷ "Task" ∷ "TaskStatus" ∷ "CreateTask" ∷ "UpdateTask"
      ∷ "AuditEvent" ∷ [];
  tags = "auth" ∷ "tasks" ∷ "audit" ∷ "health" ∷ [];
  security_schemes = [];
})
