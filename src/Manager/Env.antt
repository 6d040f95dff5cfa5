-- ===== src/Manager/Env.antt =====
-- What the manager works with: the configuration, the database, the handler classes and the text
-- of an error (`%r`).
use sunbeam_migrate.Prelude.{String}
use sunbeam_migrate.Config.{Config}
use sunbeam_migrate.Exec.{Error}
use sunbeam_migrate.Db.Models.{Backend, IsBackend}
use sunbeam_migrate.Handlers.Interface.{Handler, IsHandler}

pub record Env (W : Type 0) : Type 0 where
  pub conf : Config
  pub backend : Backend
  pub load : String → Handler W
  pub repr : Error → String

-- The laws of the parts that the repository does not contain, and of the handlers.
pub record IsEnv {W : Type 0} (env : Env W) : Type 1 where
  pub backend : IsBackend env.backend
  pub handlers : (path : String) → IsHandler (env.load path)
