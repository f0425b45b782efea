-- ===== src/Ledger/Verdicts.antt =====
-- What a verdict of the ledger looks like over HTTP.
use rhel9_app_micro.Prelude.{ℕ, String, ◌≡◌}
use rhel9_app_micro.Outcome.{Except, ok, err}
use rhel9_app_micro.Models.{Task}
use rhel9_app_micro.Errors.{AppError, bad_request, not_found, forbidden, IsInternal}
use rhel9_app_micro.Platform.{Platform}
use rhel9_app_micro.Extract.{AuthUser}
use rhel9_app_micro.Db.Lawful.{Tables, IsLawful}
use rhel9_app_micro.Db.Available.{IsReadable}
use rhel9_app_micro.Api.{Reply, refuse, task, plain}
use rhel9_app_micro.Ledger.{
  Entry, Command, Verdict, created, shown, gone, invalid, absent, denied, taken, unlogged, decide,
}
use rhel9_app_micro.Ledger.View.{task_entry, ledger, ledger-Same}
use rhel9_app_micro.Ledger.Located.{StopsWith}

-- The reply shows this task, with this status.
abbrev pub Shows : {D : Type 0} → ℕ → String → Entry → Reply D → Type 0
Shows {D} status id e reply =
    (t : Task D) × (reply ≡ (status, task t)) × (t.id ≡ id) × (task_entry t ≡ e)

-- What a verdict looks like over HTTP.
abbrev pub Matches : {D : Type 0} → Verdict → Reply D → Type 0
Matches (created id e) reply = Shows 201 id e reply
Matches (shown id e) reply = Shows 200 id e reply
Matches gone reply = reply ≡ (204, plain)
Matches (invalid m) reply = reply ≡ refuse (bad_request m)
Matches absent reply = reply ≡ refuse (not_found "task not found")
Matches (denied m) reply = reply ≡ refuse (forbidden m)
Matches taken reply = (e : AppError) × IsInternal e × (reply ≡ refuse e)
Matches unlogged reply = (e : AppError) × IsInternal e × (reply ≡ refuse e)

-- The reply to a handler's result.
abbrev pub replied : {W D B : Type 0} → (B → Reply D) → Except AppError B × W → Reply D × W
replied f (ok b, w) = (f b, w)
replied f (err e, w) = (refuse e, w)

-- The id is one that the crate uuid drew.
abbrev pub Drawn : (P : Platform) → String → Type 0
Drawn P id = (v : P.World) × (id ≡ (P.new_v4 v).0)

module _ (P : Platform) (T : Tables P) where
  -- A reply and the world beside it are as the ledger promises.
  abbrev pub Meets : AuthUser → Command → P.World → Reply P.DateTime × P.World → Type 0
  Meets user c w r =
      let (v, l) = decide user c (ledger P T w) in Matches v r.0 × (ledger P T r.1 ≡ l)

  -- So they are for a command whose event has some drawn id.
  abbrev pub MeetsLogged :
      AuthUser → (String → Command) → P.World → Reply P.DateTime × P.World → Type 0
  MeetsLogged user c w r = (event : String) × Drawn P event × Meets user (c event) w r

  module _ (L : IsLawful P T) (A : IsReadable P T) (user : AuthUser) where
    pub Stops-Meets :
        {B : Type 0} (c : Command) (w : P.World) (f : B → Reply P.DateTime) (e : AppError)
        (v : Verdict) (x : Except AppError B × P.World)
        → StopsWith P T L A e w x
        → decide user c (ledger P T w) ≡ (v, ledger P T w)
        → Matches {D = P.DateTime} v (refuse e)
        → Meets user c w (replied f x)
    Stops-Meets c w f e v (ok b, w') h d m = absurd h
    Stops-Meets c w f e v (err e', w') (s, is) d m = rw (d, is) (m, ledger-Same P T s)
