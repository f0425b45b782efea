-- ===== src/Api/Valid.antt =====
-- Every stored task is valid, after any sequence of requests (src/lib.rs over src/models.rs).
use rhel9_app_micro.Prelude.{
  String, ◌≡◌, refl, inl, inr, Option, none, some, List, [], ◌∷◌, str_eq, All, All-append,
  unwrap_or, map_option, Bool-cases,
}
use rhel9_app_micro.Outcome.{ok}
use rhel9_app_micro.Text.{trim}
use rhel9_app_micro.Text.Trim.{IsTrimmed, trim-IsTrimmed}
use rhel9_app_micro.Models.{
  Task, TaskStatus, status_as_str, CreateTask, UpdateTask, validate_create, validate_update,
}
use rhel9_app_micro.Models.Limits.{
  TitleFits, DescriptionFits, OnSome, validate_create_iff, validate_update_iff,
}
use rhel9_app_micro.Config.{Config}
use rhel9_app_micro.Platform.{Platform}
use rhel9_app_micro.Extract.{Headers}
use rhel9_app_micro.Db.Lawful.{Tables, IsLawful}
use rhel9_app_micro.Db.Lawful.Rows.{TaskRow, patch_row, find_task, UniqueIds}
use rhel9_app_micro.Db.Outcomes.{task_row, task_patch, IsNew}
use rhel9_app_micro.Observe.{Server}
use rhel9_app_micro.Handlers.{AppState}
use rhel9_app_micro.Handlers.Update.{IsPatched}
use rhel9_app_micro.Api.{Request, handle, serve}
use rhel9_app_micro.Api.Rows.{
  UniqueIds-append, UniqueIds-patch_where, UniqueIds-remove_where, All-patch_where,
  All-remove_where,
}
use rhel9_app_micro.Api.Answers.{handle-Effect}
use rhel9_app_micro.Api.Effects.{Effect, quiet, created, updated, deleted}

-- A row that the validation lets through: a trimmed title of 1 to 200 bytes, a description of at
-- most 2000 bytes, and the name of a status.
pub record RowFits (r : TaskRow) : Type 0 where
  pub title : TitleFits r.title
  pub trimmed : IsTrimmed r.title
  pub description : DescriptionFits r.description
  pub status : (t : TaskStatus) × (r.status ≡ status_as_str t)

-- The task table: valid rows, no id twice.
abbrev pub IsValid : List TaskRow → Type 0
IsValid rs = All RowFits rs × UniqueIds rs

pub RowFits-find :
    (id : String) (r : TaskRow) (rs : List TaskRow)
    → All RowFits rs
    → find_task id rs ≡ some r
    → RowFits r
unfolding find_task
RowFits-find id r [] h f = cc
RowFits-find id r (x ∷ rs) h f = elim (Bool-cases (str_eq x.id id)) [
  | inl same ↦ let e : x ≡ r = cc (rw same at f) in rw (← e) h.0
  | inr other ↦ RowFits-find id r rs h.1 (rw other at f)
]

module _ (P : Platform) where
  pub task_row-RowFits :
      (owner : String) (input : CreateTask) (t : Task P.DateTime)
      → validate_create input ≡ ok tt
      → IsNew P owner input t
      → RowFits (task_row P t)
  task_row-RowFits owner input t v n =
      let fits = (validate_create_iff input).0 v in
      record {
        title = rw n.title fits.0;
        trimmed = rw n.title (trim-IsTrimmed input.title);
        description = rw n.description fits.1;
        status = (t.status, refl);
      }

  title_patched :
      (o : Option String) (r : TaskRow)
      → OnSome (λ s. TitleFits (trim s)) o
      → RowFits r
      → TitleFits (unwrap_or (map_option trim o) r.title)
        × IsTrimmed (unwrap_or (map_option trim o) r.title)
  title_patched none r h f = (f.title, f.trimmed)
  title_patched (some s) r h f = (h, trim-IsTrimmed s)

  description_patched :
      (o : Option String) (r : TaskRow)
      → OnSome DescriptionFits o
      → RowFits r
      → DescriptionFits (unwrap_or o r.description)
  description_patched none r h f = f.description
  description_patched (some s) r h f = h

  pub patch_row-RowFits :
      (input : UpdateTask) (t : Task P.DateTime) (r x : TaskRow)
      → validate_update input ≡ ok tt
      → IsPatched P r input t
      → RowFits r
      → RowFits (patch_row (task_patch P t) x)
  patch_row-RowFits input t r x v p f =
      let fits = (validate_update_iff input).0 v in
      let titled = title_patched input.title r fits.0 f in
      record {
        title = rw p.title titled.0;
        trimmed = rw p.title titled.1;
        description = rw p.description (description_patched input.description r fits.1 f);
        status = (t.status, refl);
      }

module _ (P : Platform) (T : Tables P) (config : Config) (headers : Headers) where
  Effect-IsValid :
      {w w' : P.World} → Effect P T config headers w w' → IsValid (T.tasks w) → IsValid (T.tasks w')
  Effect-IsValid (quiet s) h = rw s.tasks h
  Effect-IsValid {w} (created user input t a st x) h = rw (st.3) (
    All-append RowFits (T.tasks w) (task_row P t ∷ []) h.0
        (task_row-RowFits P user.username input t st.0 st.1, tt),
    UniqueIds-append (task_row P t) (T.tasks w) st.2 h.1,
  )
  Effect-IsValid {w} (updated user id input t a v ((r, f, p, made), e) x) h = rw e (
    All-patch_where RowFits t.id (task_patch P t) (T.tasks w)
        (λ y _. patch_row-RowFits P input t r y v made (RowFits-find id r (T.tasks w) h.0 f)) h.0,
    UniqueIds-patch_where t.id (task_patch P t) (T.tasks w) h.1,
  )
  Effect-IsValid {w} (deleted user id a (c, e) x) h =
      rw e (All-remove_where RowFits id (T.tasks w) h.0, UniqueIds-remove_where id (T.tasks w) h.1)

module _ (P : Platform) (T : Tables P) (L : IsLawful P T) (state : AppState) where
  -- Over a lawful database, any sequence of requests keeps a valid task table valid: each title is trimmed, not empty and of at
  -- most 200 bytes, each description of at most 2000 bytes, each status the name of one, and no id
  -- stands in two rows.
  pub serve-IsValid :
      (reqs : List Request) (s : Server P)
      → IsValid (T.tasks s.world)
      → IsValid (T.tasks (serve P state reqs s).world)
  unfolding serve
  serve-IsValid [] s h = h
  serve-IsValid (req ∷ reqs) s h = serve-IsValid reqs (handle P state req s).1 (
      Effect-IsValid P T state.config req.headers
        (handle-Effect P T L state req.headers req.endpoint s) h)
