-- ===== src/Cas/Names.antt =====
-- crates/rfs-common/src/cas.rs: instance names, endpoints and resource names.
use remotefs.Base.{none, some, Bool, ◌||◌, [], ◌∷◌, ◌++◌}
use remotefs.Base.{Result, ok, err, ◌>>◌, reject_if, for_each, ◌==◌, nat_eq, list_eq}
use remotefs.Base.Text.{Text, codes, split, strip_prefix}
use remotefs.Base.Decimal.{decimal_ℤ}
use remotefs.Digest.{Digest}

-- `CasError::UnsupportedUrl` and `CasError::InvalidInstanceName`
pub data NameError : Type 0 where
  unsupported_url invalid_instance_name : Text → NameError

abbrev pub is_reserved : Text → Bool
is_reserved segment =
    segment == codes "blobs" || (segment == codes "uploads" || segment == codes "compressed-blobs")

unfoldable pub validate_segment : Text → Text → Result NameError (Unit {0})
validate_segment instance_name segment = do
  reject_if (segment == []) (invalid_instance_name instance_name)
  reject_if (is_reserved segment) (invalid_instance_name instance_name)

unfoldable pub validate_instance_name : Text → Result NameError (Unit {0})
validate_instance_name instance_name = do
  reject_if (instance_name == []) (invalid_instance_name instance_name)
  for_each (validate_segment instance_name) (split b'/' instance_name)

unfoldable pub endpoint_from_grpc_url : Text → Result NameError Text
endpoint_from_grpc_url cas_url = elim (strip_prefix (codes "grpc://") cas_url) [
  | none ↦ err (unsupported_url cas_url)
  | some rest ↦ do reject_if (rest == []) (unsupported_url cas_url); ok (codes "http://" ++ rest)
]

unfoldable pub bytestream_read_resource_name : Text → Digest → Text
bytestream_read_resource_name instance_name digest =
    instance_name ++ (codes "/blobs/" ++ (digest.hash ++ b'/' ∷ decimal_ℤ digest.size_bytes))

-- `uuid` is the fresh one.
unfoldable pub bytestream_write_resource_name : Text → Text → Digest → Text
bytestream_write_resource_name uuid instance_name digest =
    instance_name
    ++ (codes "/uploads/"
        ++ (uuid ++ (codes "/blobs/" ++ (digest.hash ++ b'/' ∷ decimal_ℤ digest.size_bytes))))
