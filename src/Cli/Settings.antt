-- ===== src/Cli/Settings.antt =====
-- crates/rfs/src/cli.rs: the settings of a command, from its flags and the environment.
use mathlib.Core.Option
use remotefs.Base.{Option, none, some, [], ◌∷◌, Result, ok, err, ◌>>=◌, ◌>>◌, ok_or, map_err}
use remotefs.Base.{nat_eq, list_eq}
use remotefs.Base.Text.{Text, codes, strip_prefix}
use remotefs.Digest.{Digest, from_str}
use remotefs.Upload.Paths.{join}
use remotefs.Cli.Types.{CliError, invalid_config, invalid_digest}

pub record Flags : Type 0 where
  pub cas_url : Option Text
  pub instance_name : Option Text

pub record CliConfig : Type 0 where
  pub cas_url : Text
  pub instance_name : Text

abbrev pub or_else : Option Text → Option Text → Option Text
or_else none other = other
or_else (some text) other = some text

-- `filter(|value| !value.is_empty())`
abbrev pub non_empty : Option Text → Option Text
non_empty none = none
non_empty (some []) = none
non_empty (some (c ∷ text)) = some (c ∷ text)

unfoldable pub validate_cas_url : Text → Result CliError (Unit {0})
validate_cas_url cas_url = elim (non_empty (strip_prefix (codes "grpc://") cas_url)) [
  | none ↦ err invalid_config
  | some rest ↦ ok tt
]

-- The variables of the process.
module _ (env : Text → Option Text) where
  unfoldable pub resolve_cli_config : Flags → Result CliError CliConfig
  unfolding validate_cas_url
  resolve_cli_config cli = do
    cas_url ← ok_or invalid_config (non_empty (or_else cli.cas_url (env (codes "RFS_CAS_URL"))))
    validate_cas_url cas_url
    instance_name ←
        ok_or invalid_config
          (non_empty (or_else cli.instance_name (env (codes "RFS_INSTANCE_NAME"))))
    ok (record { cas_url = cas_url; instance_name = instance_name })

  -- crates/rfs-common/src/config.rs: `Config::new`, the home directory.
  unfoldable pub rfs_home : Option Text
  rfs_home = elim (env (codes "RFS_HOME")) [
    | some value ↦ some value
    | none ↦ Option.map (λ home. join home (codes ".rfs")) (env (codes "HOME"))
  ]

unfoldable pub parse_root_digest : Text → Result CliError Digest
parse_root_digest value = map_err (invalid_digest value) (from_str value)
