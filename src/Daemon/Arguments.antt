-- ===== src/Daemon/Arguments.antt =====
-- crates/rfsd/src/lib.rs: the arguments of a daemon, and its client of the store. The texts of
-- errors are not kept.
use remotefs.Base.{Bool, Option, Result, map_err, ok_or, ◌>>=◌}
use remotefs.Base.Text.{Text, codes}
use remotefs.Digest.{DigestError}
use remotefs.Cas.Config.{ConnectError, CasConfig, new_config, connect}
use remotefs.Session.Types.{SessionError}
use remotefs.Mount.Filesystem.{FilesystemError}
use remotefs.Cli.Settings.{or_else}

pub data StartError : Type 0 where
  invalid_digest : DigestError → StartError
  cas : ConnectError → StartError
  session : SessionError → StartError
  root_directory : FilesystemError → StartError
  missing_setting missing_home logging join mounting socket : StartError

pub record Cli : Type 0 where
  pub root_digest : Text
  pub mountpoint : Text
  pub cas_url : Option Text
  pub instance_name : Option Text

module _ (env : Text → Option Text) where
  unfoldable pub connect_cas : (Text → Bool) → Cli → Result StartError CasConfig
  connect_cas connects cli = do
    cas_url ← ok_or missing_setting (or_else cli.cas_url (env (codes "RFS_CAS_URL")))
    instance_name ←
        ok_or missing_setting (or_else cli.instance_name (env (codes "RFS_INSTANCE_NAME")))
    config ← map_err cas (new_config cas_url instance_name)
    map_err cas (connect connects config)
