-- ===== src/Api/Rows.antt =====
-- The rows of the task table under the three statements that change it.
use rhel9_app_micro.Prelude.{
  String, ◌≡◌, refl, none, some, List, [], ◌∷◌, ◌++◌, arith, str_eq, eq_iff, if◌then◌else◌,
  map_option, All, Bool-cases, inl, inr,
}
use rhel9_app_micro.Extract.{or_else}
use rhel9_app_micro.Db.Lawful.Rows.{
  TaskRow, Patch, patch_row, find_task, patch_where, remove_where, UniqueIds,
}

-- A row that is found has the id that was looked for.
pub find_task-id :
    (id : String) (r : TaskRow) (rs : List TaskRow) → find_task id rs ≡ some r → r.id ≡ id
unfolding find_task
find_task-id id r [] h = cc
find_task-id id r (x ∷ rs) h = ground (arith, eq_iff x.id id, find_task-id id r rs)

pub find_task-append :
    (id : String) (r : TaskRow) (rs : List TaskRow)
    → find_task id (rs ++ r ∷ [])
      ≡ or_else (find_task id rs) (if str_eq r.id id then some r else none)
unfolding find_task
find_task-append id r [] = refl
find_task-append id r (x ∷ rs) = ground (arith, find_task-append id r rs)

pub find_task-patch_where :
    (id j : String) (p : Patch) (rs : List TaskRow)
    → find_task id (patch_where j p rs)
      ≡ (if str_eq j id then map_option (patch_row p) (find_task id rs) else find_task id rs)
unfolding find_task patch_where
find_task-patch_where id j p [] = ground arith
find_task-patch_where id j p (x ∷ rs) =
    ground (arith, find_task-patch_where id j p rs, eq_iff x.id j, eq_iff x.id id, eq_iff j id)

pub find_task-remove_where :
    (id j : String) (rs : List TaskRow)
    → find_task id (remove_where j rs) ≡ (if str_eq j id then none else find_task id rs)
unfolding find_task remove_where
find_task-remove_where id j [] = ground arith
find_task-remove_where id j (x ∷ rs) =
    ground (arith, find_task-remove_where id j rs, eq_iff x.id j, eq_iff x.id id, eq_iff j id)

pub UniqueIds-append :
    (r : TaskRow) (rs : List TaskRow)
    → find_task r.id rs ≡ none
    → UniqueIds rs
    → UniqueIds (rs ++ r ∷ [])
unfolding find_task
UniqueIds-append r [] f u = (refl, tt)
UniqueIds-append r (x ∷ rs) f u =
    ground
      (arith, UniqueIds-append r rs, find_task-append x.id r rs, eq_iff x.id r.id, eq_iff r.id x.id)

pub UniqueIds-patch_where :
    (j : String) (p : Patch) (rs : List TaskRow) → UniqueIds rs → UniqueIds (patch_where j p rs)
unfolding patch_where
UniqueIds-patch_where j p [] u = tt
UniqueIds-patch_where j p (x ∷ rs) u =
    ground (arith, UniqueIds-patch_where j p rs u.1, find_task-patch_where x.id j p rs)

pub UniqueIds-remove_where :
    (j : String) (rs : List TaskRow) → UniqueIds rs → UniqueIds (remove_where j rs)
unfolding remove_where
UniqueIds-remove_where j [] u = tt
UniqueIds-remove_where j (x ∷ rs) u =
    ground (arith, UniqueIds-remove_where j rs u.1, find_task-remove_where x.id j rs)

module _ (F : TaskRow → Type 0) where
  pub All-patch_where :
      (j : String) (p : Patch) (rs : List TaskRow)
      → ((r : TaskRow) → F r → F (patch_row p r))
      → All F rs
      → All F (patch_where j p rs)
  unfolding patch_where
  All-patch_where j p [] keep h = tt
  All-patch_where j p (x ∷ rs) keep h = elim (Bool-cases (str_eq x.id j)) [
    | inl same ↦ rw same (keep x h.0, All-patch_where j p rs keep h.1)
    | inr other ↦ rw other (h.0, All-patch_where j p rs keep h.1)
  ]

  pub All-remove_where : (j : String) (rs : List TaskRow) → All F rs → All F (remove_where j rs)
  unfolding remove_where
  All-remove_where j [] h = tt
  All-remove_where j (x ∷ rs) h = elim (Bool-cases (str_eq x.id j)) [
    | inl same ↦ rw same (All-remove_where j rs h.1)
    | inr other ↦ rw other (h.0, All-remove_where j rs h.1)
  ]
