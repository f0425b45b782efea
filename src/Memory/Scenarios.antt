-- ===== src/Memory/Scenarios.antt =====
-- The tests of src/tests/api.rs, run over the in-memory platform.
use rhel9_app_micro.Prelude.{◌-◌, String, ◌<>◌, Option, none, some, [], str_eq, if◌then◌else◌}
use rhel9_app_micro.Prelude.Int.{pos, pos_part}
use rhel9_app_micro.Outcome.{Except, ok, err, IsOk}
use rhel9_app_micro.Text
use rhel9_app_micro.Text.{strip_prefix}
use rhel9_app_micro.Text.Decimal.{show}
use rhel9_app_micro.Text.Digits.{digits_value}
use rhel9_app_micro.Process.{◌>>=◌, run_alone}
use rhel9_app_micro.HashMap.{lookup, insert}
use rhel9_app_micro.Models.{
  role_from_str, role_as_str, status_as_str, status_from_str, validate_create, validate_update,
}
use rhel9_app_micro.Config.Number.{parse_u32, parse_digits}
use rhel9_app_micro.Db.Lawful.Rows.{
  task_columns, audit_columns, find_task, find_audit, patch_where, remove_where, matching,
}
use rhel9_app_micro.Handlers.{existing_task, is_stranger, clamp_limit, clamp_offset}
use rhel9_app_micro.Memory.Sorting.{sort}
use rhel9_app_micro.Errors.{error_response, parts}
use rhel9_app_micro.Platform.{Platform, Claims}
use rhel9_app_micro.RateLimit
use rhel9_app_micro.Auth.{
  claims_role, decode_token, issue_token, hash_password, verify_password, seed_users,
}
use rhel9_app_micro.Extract.{auth_user, admin_user, bearer_token, is_admin}
use rhel9_app_micro.Observe.{client_key, anonymous_key}
use rhel9_app_micro.Db
use rhel9_app_micro.Document.{api_doc}
use rhel9_app_micro.Db.{get_conn, init_schema}
use rhel9_app_micro.Handlers
use rhel9_app_micro.Api.{template}
use rhel9_app_micro.Api.Steps.{
  create_steps, update_steps, update_rest, delete_steps, delete_rest, handle_steps, answer_steps,
  respond, on_world, admit, timed, count, observe,
}
use rhel9_app_micro.Startup.{
  Host, Boot, build_test_app, build_metrics_handle, build_router, build_pool, new_state,
}
use rhel9_app_micro.Scenarios.{
  passes, login_returns_token_and_validates, tasks_require_auth, health_and_ready_are_public,
  openapi_json_is_served, task_crud_happy_path, invalid_task_input_is_rejected,
  rbac_user_cannot_access_audit, user_cannot_mutate_other_users_task,
  admin_can_read_audit_and_events_are_recorded,
}
use rhel9_app_micro.Db.{audit_query}
use rhel9_app_micro.Memory.{memory, is_audit_query, select_audit}

-- Tokens that hold the name of one of the two users and the expiry.
abbrev sign : Claims → String → Except String String
sign c secret =
    if str_eq c.sub "admin"
    then ok ("A" <> show (pos_part c.exp))
    else if str_eq c.sub "user"
    then ok ("U" <> show (pos_part c.exp))
    else err "InvalidKeyFormat"

abbrev claims_for : String → String → Except String Claims
claims_for name digits =
    let exp = digits_value 0 digits in
    ok (record { sub = name; role = name; exp = pos exp; iat = pos (exp - 3600) })

abbrev read_user : Option String → Except String Claims
read_user none = err "InvalidToken"
read_user (some digits) = claims_for "user" digits

abbrev read_token : Option String → String → Except String Claims
read_token none token = read_user (strip_prefix "U" token)
read_token (some digits) token = claims_for "admin" digits

abbrev signing : Platform
signing = record memory {
  jwt_encode = sign;
  jwt_decode = λ token secret v d. (read_token (strip_prefix "A" token) token, d);
}

-- A host on which everything works.
abbrev host : Host signing
host = record {
  var = λ d name. none;
  Filter = String;
  try_from_default_env = λ d. none;
  filter_new = λ s. s;
  parent = λ p. none;
  create_dir_all = λ dir d. (ok tt, d);
  PrometheusHandle = Unit {0};
  install_recorder = λ d. (ok tt, d);
  recorder_handle = tt;
  build = λ m n d. (ok tt, d);
  TcpListener = String;
  bind = λ addr d. (ok addr, d);
  serve = λ l app s. (ok tt, none, s);
}

abbrev boot : Boot signing host
boot = record {
  world = record { tasks = []; audits = []; clock = 0; ids = 0; outages = [] };
  filter = none;
  log = [];
}

public_tests_pass :
    IsOk (passes signing host (tasks_require_auth signing) boot)
    × IsOk (passes signing host (health_and_ready_are_public signing) boot)
    × IsOk (passes signing host (openapi_json_is_served signing) boot)
unfolding passes tasks_require_auth health_and_ready_are_public openapi_json_is_served
    build_test_app build_metrics_handle build_pool init_schema get_conn new_state build_router
    seed_users hash_password run_alone ◌>>=◌ handle_steps answer_steps respond on_world admit timed
    count observe client_key anonymous_key RateLimit.check RateLimit.new lookup insert auth_user
    bearer_token template error_response parts Handlers.readyz Db.ping api_doc is_audit_query
    audit_query
public_tests_pass = (tt, tt, tt)

login_test_passes : IsOk (passes signing host (login_returns_token_and_validates signing) boot)
unfolding passes login_returns_token_and_validates build_test_app build_metrics_handle build_pool
    init_schema get_conn new_state build_router seed_users hash_password run_alone ◌>>=◌
    handle_steps answer_steps respond on_world admit timed count observe client_key anonymous_key
    RateLimit.check RateLimit.new lookup insert template error_response parts Handlers.login
    verify_password issue_token role_as_str show
login_test_passes = tt

crud_test_passes : IsOk (passes signing host (task_crud_happy_path signing) boot)
unfolding passes task_crud_happy_path build_test_app build_metrics_handle build_pool init_schema
    get_conn new_state build_router seed_users hash_password run_alone ◌>>=◌ handle_steps
    answer_steps respond on_world admit timed count observe client_key anonymous_key RateLimit.check
    RateLimit.new lookup insert auth_user bearer_token template error_response parts Handlers.login
    verify_password issue_token role_as_str role_from_str show decode_token claims_role strip_prefix
    Text.trim Text.is_empty create_steps update_steps update_rest delete_steps delete_rest
    validate_create validate_update existing_task is_stranger is_admin Db.get_task Db.row_to_task
    Db.parse_ts Db.create_task Db.update_task Db.delete_task Db.record_audit task_columns find_task
    find_audit parse_u32 parse_digits status_as_str status_from_str patch_where remove_where
    Handlers.get_task Handlers.list_tasks clamp_limit clamp_offset Db.list_tasks Db.collect sort
crud_test_passes = tt

rejection_tests_pass :
    IsOk (passes signing host (invalid_task_input_is_rejected signing) boot)
    × IsOk (passes signing host (rbac_user_cannot_access_audit signing) boot)
unfolding passes invalid_task_input_is_rejected rbac_user_cannot_access_audit build_test_app
    build_metrics_handle build_pool init_schema get_conn new_state build_router seed_users
    hash_password run_alone ◌>>=◌ handle_steps answer_steps respond on_world admit timed count
    observe client_key anonymous_key RateLimit.check RateLimit.new lookup insert auth_user
    bearer_token template error_response parts Handlers.login verify_password issue_token
    role_as_str role_from_str show decode_token claims_role strip_prefix Text.trim Text.is_empty
    create_steps validate_create admin_user is_admin
rejection_tests_pass = (tt, tt)

ownership_test_passes :
    IsOk (passes signing host (user_cannot_mutate_other_users_task signing) boot)
unfolding passes user_cannot_mutate_other_users_task build_test_app build_metrics_handle build_pool
    init_schema get_conn new_state build_router seed_users hash_password run_alone ◌>>=◌
    handle_steps answer_steps respond on_world admit timed count observe client_key anonymous_key
    RateLimit.check RateLimit.new lookup insert auth_user bearer_token template error_response parts
    Handlers.login verify_password issue_token role_as_str role_from_str show decode_token
    claims_role strip_prefix Text.trim Text.is_empty create_steps delete_steps delete_rest
    validate_create existing_task is_stranger is_admin Db.get_task Db.row_to_task Db.parse_ts
    Db.create_task Db.record_audit task_columns find_task find_audit parse_u32 parse_digits
    status_as_str status_from_str
ownership_test_passes = tt

audit_test_passes :
    IsOk (passes signing host (admin_can_read_audit_and_events_are_recorded signing) boot)
unfolding passes admin_can_read_audit_and_events_are_recorded build_test_app build_metrics_handle
    build_pool init_schema get_conn new_state build_router seed_users hash_password run_alone ◌>>=◌
    handle_steps answer_steps respond on_world admit timed count observe client_key anonymous_key
    RateLimit.check RateLimit.new lookup insert auth_user bearer_token template error_response parts
    Handlers.login verify_password issue_token role_as_str role_from_str show decode_token
    claims_role strip_prefix Text.trim Text.is_empty create_steps validate_create admin_user
    is_admin Db.create_task Db.record_audit find_task find_audit status_as_str Handlers.list_audit
    clamp_limit Db.list_audit audit_query is_audit_query select_audit audit_columns matching sort
    parse_u32 parse_digits Db.parse_ts Db.collect Db.row_to_event
audit_test_passes = tt
