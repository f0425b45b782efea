-- ===== src/Memory/Documented.antt =====
-- The statuses of the document over the in-memory platform.
use rhel9_app_micro.Prelude.{none, some}
use rhel9_app_micro.Outcome.{ok}
use rhel9_app_micro.Api.{Endpoint, update_task, route}
use rhel9_app_micro.Document.Routes.{OneOf, Documents, operation, operation-Documents}
use rhel9_app_micro.Document.{api_doc}
use rhel9_app_micro.Document.Answers.{statuses, route-statuses}
use rhel9_app_micro.Memory.{memory}
use rhel9_app_micro.Memory.Interleavings.{state, as_user, disk}

-- An update that empties the title.
abbrev untitled : Endpoint
untitled = update_task "id-0" (ok (record { title = some ""; description = none; status = none }))

route-statuses_example :
    OneOf
      (route memory state (record { headers = as_user; endpoint = untitled }) disk).0.0
      (statuses untitled)
route-statuses_example = route-statuses memory state as_user untitled disk tt

operation-Documents_example : Documents memory api_doc untitled (operation untitled)
operation-Documents_example = operation-Documents memory untitled
