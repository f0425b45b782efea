-- ===== src/Models/Limits.antt =====
-- What the validation of request bodies accepts (src/models.rs, `validate`).
use rhel9_app_micro.Prelude.{String, len, ◌≡◌, refl, ◌↔◌, ◌≤◌, false, Option, none, some, arith}
use rhel9_app_micro.Outcome.{ok}
use rhel9_app_micro.Text.{is_empty, trim}
use rhel9_app_micro.Models.{
  CreateTask, UpdateTask, validate_create, validate_title, validate_description, validate_update,
}

-- A title that may be stored, as it stands after trimming; limits are in bytes of UTF-8.
abbrev pub TitleFits : String → Type 0
TitleFits s = (is_empty s ≡ false) × (len s ≤ 200)

abbrev pub DescriptionFits : String → Type 0
DescriptionFits s = len s ≤ 2000

-- `P` holds of the value, if there is one.
abbrev pub OnSome : {A : Type 0} → (A → Type 0) → Option A → Type 0
OnSome P none = Unit
OnSome P (some a) = P a

-- `CreateTask::validate` accepts exactly the bodies whose trimmed title is not empty and has at
-- most 200 bytes, and whose description has at most 2000 bytes.
pub validate_create_iff :
    (input : CreateTask)
    → (validate_create input ≡ ok tt)
      ↔ (TitleFits (trim input.title) × DescriptionFits input.description)
unfolding validate_create
validate_create_iff input = ground arith

validate_title_iff :
    (t : Option String) → (validate_title t ≡ ok tt) ↔ OnSome (λ s. TitleFits (trim s)) t
unfolding validate_title
validate_title_iff none = (λ _. tt, λ _. refl)
validate_title_iff (some t) = ground arith

validate_description_iff :
    (d : Option String) → (validate_description d ≡ ok tt) ↔ OnSome DescriptionFits d
unfolding validate_description
validate_description_iff none = (λ _. tt, λ _. refl)
validate_description_iff (some d) = ground arith

-- `UpdateTask::validate` accepts exactly the bodies whose title, if given, is not empty after
-- trimming and then has at most 200 bytes, and whose description, if given, has at most 2000.
pub validate_update_iff :
    (input : UpdateTask)
    → (validate_update input ≡ ok tt)
      ↔ (OnSome (λ s. TitleFits (trim s)) input.title × OnSome DescriptionFits input.description)
unfolding validate_update
validate_update_iff input =
    ground (arith, validate_title_iff input.title, validate_description_iff input.description)
