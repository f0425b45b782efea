-- ===== src/Document/Paths.antt =====
-- The paths of the document (the attributes of src/handlers.rs) beside those of axum (src/lib.rs).
use Prim.Native.String.{[], ◌∷◌}
use rhel9_app_micro.Prelude.{String, code, ◌<>◌, Bool, true, false, ◌==◌, if◌then◌else◌}

-- A path as OpenAPI writes it: axum's parameter `:name` is `{name}` there. `inside` says that a
-- parameter is being read.
brace : Bool → String → String
brace true [] = "}"
brace false [] = ""
brace inside (c ∷ s) =
    let parameter = brace true s in
    let next = brace false s in
    if code c == b':'
    then "{" <> parameter
    else if code c == b'/'
    then (if inside then "}/" <> next else c ∷ next)
    else c ∷ (if inside then parameter else next)

unfoldable pub openapi_path : String → String
unfolding brace
openapi_path s = brace false s
