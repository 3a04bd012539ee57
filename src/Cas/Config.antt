-- ===== src/Cas/Config.antt =====
-- crates/rfs-common/src/cas.rs: the configuration of a client, and its connection. Times are in seconds.
use remotefs.Base.{ℕ, ◌*◌, Bool, not, Result, ok, map_err, ◌>>=◌, ◌>>◌, reject_if}
use remotefs.Base.Text.{Text}
use remotefs.Cas.Names.{NameError, validate_instance_name, endpoint_from_grpc_url}
use remotefs.Cas.Retry.{validate_retry_attempts}

pub data ConnectError : Type 0 where
  name : NameError → ConnectError
  attempts : ℕ → ConnectError
  transport : ConnectError

pub record CasConfig : Type 0 where
  pub cas_url : Text
  pub instance_name : Text
  pub download_blob_stream_threshold_bytes : ℕ
  pub batch_update_budget_bytes : ℕ
  pub find_missing_timeout : ℕ
  pub batch_read_timeout : ℕ
  pub batch_update_timeout : ℕ
  pub bytestream_idle_timeout : ℕ
  pub max_attempts : ℕ

-- What `new` and `connect` check of a configuration.
abbrev pub check_config : CasConfig → Result ConnectError (Unit {0})
check_config config = do
  map_err name (validate_instance_name config.instance_name)
  map_err attempts (validate_retry_attempts config.max_attempts)

-- `CasConfig::new`
unfoldable pub new_config : Text → Text → Result ConnectError CasConfig
new_config cas_url instance_name =
    let config : CasConfig = record {
      cas_url = cas_url;
      instance_name = instance_name;
      download_blob_stream_threshold_bytes = 4 * 1024 * 1024;
      batch_update_budget_bytes = 3500 * 1024;
      find_missing_timeout = 10;
      batch_read_timeout = 30;
      batch_update_timeout = 30;
      bytestream_idle_timeout = 30;
      max_attempts = 5;
    } in
    check_config config >> ok config

-- `CasClient::connect`, where the transport connects to an endpoint or does not.
unfoldable pub connect : (Text → Bool) → CasConfig → Result ConnectError CasConfig
connect connects config = do
  check_config config
  endpoint ← map_err name (endpoint_from_grpc_url config.cas_url)
  reject_if (not (connects endpoint)) transport
  ok config
