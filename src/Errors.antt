-- ===== src/Errors.antt =====
-- src/error.rs: the application's error type and its HTTP response.
use rhel9_app_micro.Prelude.{ℕ, String, ◌<>◌}

pub data AppError : Type 0 where
  bad_request unauthorized forbidden not_found : String → AppError
  too_many_requests : AppError
  internal : String → AppError

-- An error that is the server's own, answered by 500.
abbrev pub IsInternal : AppError → Type 0
IsInternal (internal m) = Unit
IsInternal (bad_request m) = ⊥
IsInternal (unauthorized m) = ⊥
IsInternal (forbidden m) = ⊥
IsInternal (not_found m) = ⊥
IsInternal too_many_requests = ⊥

-- `impl Display`
unfoldable pub fmt : AppError → String
fmt (bad_request m) = "bad request: " <> m
fmt (unauthorized m) = "unauthorized: " <> m
fmt (forbidden m) = "forbidden: " <> m
fmt (not_found m) = "not found: " <> m
fmt too_many_requests = "too many requests"
fmt (internal m) = "internal error: " <> m

-- `AppError::parts`: the status code, the machine-readable code and the message.
unfoldable pub parts : AppError → ℕ × String × String
parts (bad_request m) = (400, "bad_request", m)
parts (unauthorized m) = (401, "unauthorized", m)
parts (forbidden m) = (403, "forbidden", m)
parts (not_found m) = (404, "not_found", m)
parts too_many_requests = (429, "too_many_requests", "rate limit exceeded")
parts (internal m) = (500, "internal", m)

pub record ErrorBody : Type 0 where
  pub error : String
  pub message : String

-- `impl IntoResponse`: the status and the JSON body.
unfoldable pub error_response : AppError → ℕ × ErrorBody
unfolding parts
error_response e =
    let (status, code, message) = parts e in (status, record { error = code; message = message })

-- `From<rusqlite::Error>` and `From<r2d2::Error>`, on the text of the foreign error.
unfoldable pub from_rusqlite : String → AppError
from_rusqlite e = internal ("database error: " <> e)

unfoldable pub from_r2d2 : String → AppError
from_r2d2 e = internal ("pool error: " <> e)
