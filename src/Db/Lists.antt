-- ===== src/Db/Lists.antt =====
-- What the listing functions of src/db.rs return, over a lawful database.
use mathlib.Core.List.{Perm}
use rhel9_app_micro.Prelude.{
  ℕ, String, ◌≡◌, refl, Option, none, some, List, [], ◌∷◌, map, arith, length, take, drop,
}
use rhel9_app_micro.Prelude.Int.{pos}
use rhel9_app_micro.Outcome.{Except, ok, err, bind-ensures, map_err-ensures}
use rhel9_app_micro.Models.{Task, AuditEvent}
use rhel9_app_micro.Errors.{AppError, from_rusqlite}
use rhel9_app_micro.Platform.{Platform, Row, text, integer}
use rhel9_app_micro.Db.{
  Sql, get_conn, sql, parse_ts, row_to_task, row_to_event, collect, list_tasks, list_audit,
  list_tasks_sql, audit_query, add_filter,
}
use rhel9_app_micro.Text.Decimal.{show, show_ℤ}
use rhel9_app_micro.Db.Lawful.{Tables, Same, Yields, IsLawful}
use rhel9_app_micro.Db.Lawful.Rows.{
  TaskRow, AuditRow, task_columns, audit_columns, IsDescending, matching, IsDescendingAudit,
  audit_select,
}
use rhel9_app_micro.Db.Reads.{
  Decodes, Same-refl, Same-trans, row_to_task-ReadsRow, ParsesTs, parse_ts-ParsesTs, Fails,
  Connects, SelectsApp, get_conn-Connects, sql-SelectsApp,
}

-- The two lists match, element by element.
abbrev pub Matches : {R A : Type 0} → (R → A → Type 0) → List R → List A → Type 0
Matches D [] [] = Unit
Matches D [] (a ∷ as') = ⊥
Matches D (x ∷ xs) [] = ⊥
Matches D (x ∷ xs) (a ∷ as') = D x a × Matches D xs as'

pub length-Matches :
    {R A : Type 0} (D : R → A → Type 0) (xs : List R) (as' : List A)
    → Matches D xs as'
    → length as' ≡ length xs
length-Matches D [] [] h = omega arith
length-Matches D [] (a ∷ as') h = absurd h
length-Matches D (x ∷ xs) [] h = absurd h
length-Matches D (x ∷ xs) (a ∷ as') h = omega (arith, length-Matches D xs as' h.1)

module _ (P : Platform) (T : Tables P) where
  -- The outcome of reading a row, and of reading rows.
  abbrev ReadsOne :
      {R A : Type 0} → (R → A → Type 0) → R → P.World → Except String A × P.World → Type 0
  ReadsOne D x w (ok a, w') = Same P T w w' × D x a
  ReadsOne D x w (err e, w') = Same P T w w'

  abbrev ReadsAll :
      {R A : Type 0}
      → (R → A → Type 0)
      → List R
      → P.World
      → Except String (List A) × P.World
      → Type 0
  ReadsAll D xs w (ok as', w') = Same P T w w' × Matches D xs as'
  ReadsAll D xs w (err e, w') = Same P T w w'

  -- The same under `?`.
  abbrev pub Lists :
      {R A : Type 0}
      → (R → A → Type 0)
      → List R
      → P.World
      → Except AppError (List A) × P.World
      → Type 0
  Lists D xs w (ok as', w') = Same P T w w' × Matches D xs as'
  Lists D xs w (err e, w') = Fails P T w e w'

  module _ {R A : Type 0} (columns : R → Row) (read : Row → Sql P A) (D : R → A → Type 0)
      (one : (x : R) (w : P.World) → ReadsOne D x w (read (columns x) w)) where
    collect-ReadsAll :
        (rs : List (Except String Row)) (xs : List R) (w : P.World)
        → Yields P T columns rs xs
        → ReadsAll D xs w (collect P read rs w)
    unfolding collect
    collect-ReadsAll [] [] w y = (Same-refl P T w, tt)
    collect-ReadsAll [] (x ∷ xs) w y = absurd y
    collect-ReadsAll (ok row ∷ rs) [] w y = absurd y
    collect-ReadsAll (err e ∷ rs) xs w y = Same-refl P T w
    collect-ReadsAll (ok row ∷ rs) (x ∷ xs) w y = rw (y.0) (
        bind-ensures (read (columns x)) _ w (ReadsOne D x w) (ReadsAll D (x ∷ xs) w) (one x w)
          (λ a w₁ h₁.
            bind-ensures (collect P read rs) _ w₁ (ReadsAll D xs w₁) (ReadsAll D (x ∷ xs) w)
              (collect-ReadsAll rs xs w₁ y.1)
              (λ as' w₂ h₂. (Same-trans P T h₁.0 h₂.0, (h₁.1, h₂.1)))
              (λ e w₂ h₂. Same-trans P T h₁.0 h₂))
          (λ e w₁ h₁. h₁))

module _ (P : Platform) where
  -- An event as it is read from its row.
  pub record DecodesEvent (r : AuditRow) (e : AuditEvent P.DateTime) : Type 0 where
    pub id : e.id ≡ r.id
    pub actor : e.actor ≡ r.actor
    pub action : e.action ≡ r.action
    pub entity_type : e.entity_type ≡ r.entity_type
    pub entity_id : e.entity_id ≡ r.entity_id
    pub detail : e.detail ≡ r.detail
    pub timestamp : (c : P.DateTime) → P.parse_from_rfc3339 r.timestamp ≡ some c → e.timestamp ≡ c

module _ (P : Platform) (T : Tables P) where
  -- A page of the tasks, by falling `created_at`; equal times in any order.
  abbrev pub Page : ℕ → ℕ → P.World → List TaskRow → Type 0
  Page limit offset w page =
      (ordered : List TaskRow) × Perm ordered (T.tasks w)
      × IsDescending ordered
      × (page ≡ take limit (drop offset ordered))

  -- The latest events that match the filters, by falling `timestamp`.
  abbrev pub AuditPage : Option String → Option String → ℕ → P.World → List AuditRow → Type 0
  AuditPage actor action limit w page =
      (ordered : List AuditRow) × Perm ordered (matching actor action (T.audits w))
      × IsDescendingAudit ordered
      × (page ≡ take limit ordered)

  abbrev pub ListsPage :
      ℕ → ℕ → P.World → Except AppError (List (Task P.DateTime)) × P.World → Type 0
  ListsPage limit offset w r =
      (page : List TaskRow) × Page limit offset w page × Lists P T (Decodes P) page w r

  abbrev pub ListsAudit :
      Option String
      → Option String
      → ℕ
      → P.World
      → Except AppError (List (AuditEvent P.DateTime)) × P.World
      → Type 0
  ListsAudit actor action limit w r =
      (page : List AuditRow) × AuditPage actor action limit w page
      × Lists P T (DecodesEvent P) page w r

  module _ (L : IsLawful P T) where
    row_to_event-ReadsOne :
        (r : AuditRow) (w : P.World)
        → ReadsOne P T (DecodesEvent P) r w (row_to_event P (audit_columns r) w)
    unfolding row_to_event audit_columns
    row_to_event-ReadsOne r w =
        bind-ensures (parse_ts P r.timestamp) _ w (ParsesTs P T r.timestamp w)
          (ReadsOne P T (DecodesEvent P) r w) (parse_ts-ParsesTs P T L r.timestamp w)
          (λ t w₁ h₁. (
            h₁.0,
            record {
              id = refl;
              actor = refl;
              action = refl;
              entity_type = refl;
              entity_id = refl;
              detail = refl;
              timestamp = h₁.1;
            },
          ))
          (λ e w₁ h₁. h₁)

    sql-Lists :
        {R A : Type 0} (D : R → A → Type 0) (xs : List R) (m : Sql P (List A)) (w w₁ : P.World)
        → Same P T w w₁
        → ReadsAll P T D xs w₁ (m w₁)
        → Lists P T D xs w (sql P m w₁)
    unfolding from_rusqlite
    sql-Lists D xs m w w₁ s h =
        map_err-ensures from_rusqlite m w₁ (ReadsAll P T D xs w₁) (Lists P T D xs w) h
          (λ as' w₂ h₂. (Same-trans P T s h₂.0, h₂.1)) (λ e w₂ h₂. (Same-trans P T s h₂, tt))

    -- Over a lawful database, `list_tasks` writes nothing, and returns a page of the tasks as they are stored, or an
    -- internal error.
    pub list_tasks-ListsPage :
        (limit offset : ℕ) (w : P.World)
        → ListsPage limit offset w (list_tasks P (pos limit) (pos offset) w)
    unfolding list_tasks
    list_tasks-ListsPage limit offset w =
        bind-ensures (get_conn P) _ w (Connects P T w) (ListsPage limit offset w)
          (get_conn-Connects P T L w)
          (λ _ w₁ h₁.
            let (ordered, perm, falling, law) = L.list_tasks limit offset w₁ in
            let page = take limit (drop offset ordered) in
            (
              page,
              (ordered, (rw h₁.tasks at perm), falling, refl),
              bind-ensures
                  (sql P (P.query list_tasks_sql (integer (pos limit) ∷ integer (pos offset) ∷ [])))
                  _ w₁ (SelectsApp P T task_columns page w) (Lists P T (Decodes P) page w)
                  (sql-SelectsApp P T L task_columns page
                    (P.query list_tasks_sql (integer (pos limit) ∷ integer (pos offset) ∷ [])) w w₁
                    h₁ law)
                  (λ rs w₂ h₂. sql-Lists (Decodes P) page (collect P (row_to_task P) rs) w w₂ h₂.0 (
                    collect-ReadsAll P T task_columns (row_to_task P) (Decodes P)
                      (row_to_task-ReadsRow P T L) rs page w₂ h₂.1))
                  (λ e w₂ h₂. h₂),
            ))
          (λ e w₁ h₁.
            let (ordered, perm, falling, _) = L.list_tasks limit offset w in
            (take limit (drop offset ordered), (ordered, perm, falling, refl), h₁))

    -- The statement that `list_audit` builds is the documented one.
    audit_query-audit_select :
        (actor action : Option String) (limit : ℕ)
        → audit_query actor action (pos limit) ≡ audit_select actor action (show limit)
    unfolding audit_query add_filter show show_ℤ
    audit_query-audit_select none none limit = refl
    audit_query-audit_select none (some b) limit = refl
    audit_query-audit_select (some a) none limit = refl
    audit_query-audit_select (some a) (some b) limit = refl

    -- Over a lawful database, `list_audit` writes nothing, and returns the latest events that match
    -- the filters as they are stored, or an internal error.
    pub list_audit-ListsAudit :
        (actor action : Option String) (limit : ℕ) (w : P.World)
        → ListsAudit actor action limit w (list_audit P actor action (pos limit) w)
    unfolding list_audit
    list_audit-ListsAudit actor action limit w =
        bind-ensures (get_conn P) _ w (Connects P T w) (ListsAudit actor action limit w)
          (get_conn-Connects P T L w)
          (λ _ w₁ h₁.
            let (ordered, perm, falling, law) = L.list_audit actor action limit w₁ in
            let page = take limit ordered in
            let q = audit_select actor action (show limit) in
            rw (audit_query-audit_select actor action limit) (
              page,
              (ordered, (rw h₁.audits at perm), falling, refl),
              bind-ensures (sql P (P.query q.0 (map text q.1))) _ w₁
                  (SelectsApp P T audit_columns page w) (Lists P T (DecodesEvent P) page w)
                  (sql-SelectsApp P T L audit_columns page (P.query q.0 (map text q.1)) w w₁ h₁ law)
                  (λ rs w₂ h₂.
                    sql-Lists (DecodesEvent P) page (collect P (row_to_event P) rs) w w₂ h₂.0 (
                      collect-ReadsAll P T audit_columns (row_to_event P) (DecodesEvent P)
                        row_to_event-ReadsOne rs page w₂ h₂.1))
                  (λ e w₂ h₂. h₂),
            ))
          (λ e w₁ h₁.
            let (ordered, perm, falling, _) = L.list_audit actor action limit w in
            (take limit ordered, (ordered, perm, falling, refl), h₁))
