-- ===== src/Tests.antt =====
-- Runs of the definitions that need no platform, at which the theorems are applied.
use rhel9_app_micro.Prelude.{Option, String, str_eq, if◌then◌else◌, ◌≡◌, refl, ◌↔◌, none, some}
use rhel9_app_micro.Outcome.{ok}
use rhel9_app_micro.Text.{trim}
use rhel9_app_micro.Models.{CreateTask, UpdateTask, done, validate_create, validate_update}
use rhel9_app_micro.Models.Limits.{
  TitleFits, DescriptionFits, OnSome, validate_create_iff, validate_update_iff,
}
use rhel9_app_micro.Config.{from_env}
use rhel9_app_micro.Config.Number.{parse_digits, parse_u32}

abbrev body : CreateTask
body = record { title = "  patch "; description = "the oven"; status = none }

validate_create_iff_example :
    (validate_create body ≡ ok tt) ↔ (TitleFits (trim "  patch ") × DescriptionFits "the oven")
validate_create_iff_example = validate_create_iff body

abbrev retitle : UpdateTask
retitle = record { title = some "mend"; description = none; status = some done }

validate_update_iff_example :
    (validate_update retitle ≡ ok tt)
    ↔ (OnSome (λ s. TitleFits (trim s)) (some "mend") × OnSome DescriptionFits none)
validate_update_iff_example = validate_update_iff retitle

-- A number that is too large for the type.
abbrev environment : String → Option String
environment name = if str_eq name "RATE_LIMIT_PER_MIN" then some "4294967296" else none

default_taken : (from_env environment).rate_limit_per_min ≡ 100
unfolding from_env parse_u32 parse_digits
default_taken = refl
