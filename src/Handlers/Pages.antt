-- ===== src/Handlers/Pages.antt =====
-- The size of the listings of src/handlers.rs.
use rhel9_app_micro.Prelude.{ℕ, ◌≤◌, ◌≡◌, List, arith, length, take, drop, length-take-le}
use rhel9_app_micro.Outcome.{Except, ok, err}
use rhel9_app_micro.Errors.{AppError}
use rhel9_app_micro.Platform.{Platform}
use rhel9_app_micro.Extract.{AuthUser}
use rhel9_app_micro.Db.Lawful.{Tables, IsLawful}
use rhel9_app_micro.Db.Reads.{Decodes}
use rhel9_app_micro.Db.Lists.{
  length-Matches, Lists, DecodesEvent, list_tasks-ListsPage, list_audit-ListsAudit,
}
use rhel9_app_micro.Handlers.{Pagination, AuditQuery, list_tasks, list_audit}
use rhel9_app_micro.Handlers.Clamp.{clamp_limit_pos, clamp_offset_pos}

-- A list that is returned has at most `n` elements.
abbrev pub AtMost : {A : Type 0} → ℕ → Except AppError (List A) → Type 0
AtMost n (ok xs) = length xs ≤ n
AtMost n (err e) = Unit

module _ (P : Platform) (T : Tables P) where
  Lists-AtMost :
      {R A : Type 0} (D : R → A → Type 0) (n : ℕ) (rows page : List R) (w : P.World)
      (r : Except AppError (List A) × P.World)
      → page ≡ take n rows
      → Lists P T D page w r
      → AtMost n r.0
  Lists-AtMost D n rows page w (ok xs, w') e h =
      let short : length page ≤ n = rw e (length-take-le n rows) in
      omega (arith, short, length-Matches D page xs h.1)
  Lists-AtMost D n rows page w (err e, w') is h = tt

  AtMost-le :
      {A : Type 0} (n m : ℕ) (r : Except AppError (List A)) → n ≤ m → AtMost n r → AtMost m r
  AtMost-le n m (ok xs) h k = omega arith
  AtMost-le n m (err e) h k = tt

  module _ (L : IsLawful P T) where
    -- Whatever limit and offset a client asks for, `list_tasks` returns at most 500 tasks, over a
    -- lawful database.
    pub list_tasks-AtMost :
        (user : AuthUser) (p : Pagination) (w : P.World) → AtMost 500 (list_tasks P user p w).0
    unfolding list_tasks
    list_tasks-AtMost user p w =
        let (n, limit, low, high) = clamp_limit_pos p.limit in
        let (m, offset) = clamp_offset_pos p.offset in
        let (page, (ordered, perm, falling, is), lists) = list_tasks-ListsPage P T L n m w in
        rw (limit, offset)
          (AtMost-le n 500 _ high (Lists-AtMost (Decodes P) n (drop m ordered) page w _ is lists))

    -- Whatever filters and limit an admin asks for, `list_audit` returns at most 500 events, over a
    -- lawful database.
    pub list_audit-AtMost :
        (admin : AuthUser) (q : AuditQuery) (w : P.World) → AtMost 500 (list_audit P admin q w).0
    unfolding list_audit
    list_audit-AtMost admin q w =
        let (n, limit, low, high) = clamp_limit_pos q.limit in
        let (page, (ordered, perm, falling, is), lists) =
          list_audit-ListsAudit P T L q.actor q.action n w in
        rw limit
          (AtMost-le n 500 _ high (Lists-AtMost (DecodesEvent P) n ordered page w _ is lists))
