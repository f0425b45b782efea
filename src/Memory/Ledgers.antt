-- ===== src/Memory/Ledgers.antt =====
-- The application over the in-memory platform, as an implementation of the ledger.
use rhel9_app_micro.Prelude.{◌≡◌, none, List, [], ◌∷◌}
use rhel9_app_micro.Outcome.{ok}
use rhel9_app_micro.Api.{Request, Endpoint, serve}
use rhel9_app_micro.Ledger.{Call, replay}
use rhel9_app_micro.Ledger.View.{ledger}
use rhel9_app_micro.Ledger.Service.{Serves, serve-refines}
use rhel9_app_micro.Memory.{memory}
use rhel9_app_micro.Memory.Lawful.{on_disk, memory-IsLawful}
use rhel9_app_micro.Memory.Progress.{memory-IsAvailable}
use rhel9_app_micro.Memory.Interleavings.{state, server, by_user, rename}

abbrev paint : Request
paint =
    by_user
      (Endpoint.create_task (ok (record { title = "paint"; description = ""; status = none })))

abbrev requests : List Request
requests = paint ∷ rename ∷ by_user Endpoint.healthz ∷ by_user (Endpoint.delete_task "id-0") ∷ []

serve-refines_example :
    (calls : List Call) × Serves memory on_disk memory-IsLawful memory-IsAvailable state requests
      calls server
    × (ledger memory on_disk (serve memory state requests server).world
        ≡ replay calls (ledger memory on_disk server.world))
serve-refines_example =
    serve-refines memory on_disk memory-IsLawful memory-IsAvailable state requests server
