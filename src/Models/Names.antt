-- ===== src/Models/Names.antt =====
-- The texts of roles and statuses (src/models.rs, `as_str` and `from_str`).
use rhel9_app_micro.Prelude.{String, ◌≡◌, refl, ◌↔◌, some, arith, eq_iff}
use rhel9_app_micro.Models.{
  Role, admin, user, role_as_str, role_from_str, TaskStatus, todo, doing, done, status_as_str,
  status_from_str,
}

pub role_from_str-role_as_str : (r : Role) → role_from_str (role_as_str r) ≡ some r
unfolding role_from_str role_as_str
role_from_str-role_as_str admin = refl
role_from_str-role_as_str user = refl

role_as_str_of_from_str : (s : String) (r : Role) → role_from_str s ≡ some r → role_as_str r ≡ s
unfolding role_from_str role_as_str
role_as_str_of_from_str s admin h = ground (arith, eq_iff s "admin", eq_iff s "user")
role_as_str_of_from_str s user h = ground (arith, eq_iff s "admin", eq_iff s "user")

-- `Role::from_str` accepts a text exactly when it is what `Role::as_str` gives for that role.
pub role_from_str_iff : (s : String) (r : Role) → (role_from_str s ≡ some r) ↔ (role_as_str r ≡ s)
role_from_str_iff s r = (role_as_str_of_from_str s r, λ h. rw (← h) (role_from_str-role_as_str r))

pub status_from_str-status_as_str : (t : TaskStatus) → status_from_str (status_as_str t) ≡ some t
unfolding status_from_str status_as_str
status_from_str-status_as_str todo = refl
status_from_str-status_as_str doing = refl
status_from_str-status_as_str done = refl

status_as_str_of_from_str :
    (s : String) (t : TaskStatus) → status_from_str s ≡ some t → status_as_str t ≡ s
unfolding status_from_str status_as_str
status_as_str_of_from_str s todo h =
    ground (arith, eq_iff s "todo", eq_iff s "doing", eq_iff s "done")
status_as_str_of_from_str s doing h =
    ground (arith, eq_iff s "todo", eq_iff s "doing", eq_iff s "done")
status_as_str_of_from_str s done h =
    ground (arith, eq_iff s "todo", eq_iff s "doing", eq_iff s "done")

-- `TaskStatus::from_str` accepts a text exactly when it is what `TaskStatus::as_str` gives for
-- that status.
pub status_from_str_iff :
    (s : String) (t : TaskStatus) → (status_from_str s ≡ some t) ↔ (status_as_str t ≡ s)
unfolding status_from_str status_as_str
status_from_str_iff s t =
    (status_as_str_of_from_str s t, λ h. rw (← h) (status_from_str-status_as_str t))
