-- ===== src/Startup/Tables.antt =====
-- What a run of the whole process keeps of the database (src/main.rs around src/lib.rs).
use rhel9_app_micro.Prelude.{ℕ, String, ◌≡◌, List, map}
use rhel9_app_micro.Outcome.{Except}
use rhel9_app_micro.Process.{interleave}
use rhel9_app_micro.Config.{Config}
use rhel9_app_micro.Platform.{Platform}
use rhel9_app_micro.Observe.{Server}
use rhel9_app_micro.Db.{schema_sql}
use rhel9_app_micro.Db.Lawful.{Tables, Same, IsLawful}
use rhel9_app_micro.Api.{Request}
use rhel9_app_micro.Startup.{Manager, Router, Host, Boot}

module _ (P : Platform) (T : Tables P) (H : Host P) where
  -- What a start relies on: directories, sockets, the pool and the salts are no tables, the schema
  -- is only created `IF NOT EXISTS`, and the server does with the database what the requests that
  -- reach it do, in some interleaving of their steps.
  pub record IsLawfulHost : Type 0 where
    pub create_dir_all : (dir : String) (w : P.World) → Same P T w (H.create_dir_all dir w).1
    pub install_recorder : (w : P.World) → Same P T w (H.install_recorder w).1
    pub build : (m : Manager) (n : ℕ) (w : P.World) → Same P T w (H.build m n w).1
    pub create_tables : (w : P.World) → Same P T w (P.execute_batch schema_sql w).1
    pub generate_salt : (w : P.World) → Same P T w (P.generate_salt w).1
    pub bind : (addr : String) (w : P.World) → Same P T w (H.bind addr w).1
    pub serve :
        (l : H.TcpListener) (app : Router P) (s : Server P)
        → (reqs : List Request) × (schedule : List ℕ) × ((H.serve l app s).2
            ≡ (interleave schedule (map app reqs) s).1)

-- A statement about the world that the start keeps.
module _ (P : Platform) (T : Tables P) (L : IsLawful P T) (H : Host P) (lawful : IsLawfulHost P T H)
    (I : P.World → Type 0) (quiet : (w w' : P.World) → Same P T w w' → I w → I w') where
  record Holds {E A : Type 0} (r : Except E A × Boot P H) : Type 0 where
    held : I r.1.world
