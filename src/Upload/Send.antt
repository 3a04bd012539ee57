-- ===== src/Upload/Send.antt =====
-- crates/rfs-common/src/upload.rs: `upload_encoded_tree`, against any `BlobStore` of cas.rs.
use remotefs.Base.{ℕ, ◌-◌, Option, none, some, List, [], ◌∷◌, ◌++◌, map}
use remotefs.Base.{Result, ok_or, map_err, try_map, if◌then◌else◌, is_some, length}
use remotefs.Base.{nat_eq, list_eq}
use remotefs.Base.Int.{int_eq}
use remotefs.Base.Text.{Text}
use remotefs.Base.State.{Stateful, and_then, lift, pure}
use remotefs.Digest.{Digest, digest_beq, for_bytes}
use remotefs.Tree.Types.{EncodedDirectory}
use remotefs.Cas.Blobs.{CasError, Blob, bytes, file_path}
use remotefs.Upload.Types.{
  UploadError, cas, context, unexpected_missing_digest, EncodedDirectoryTree,
}

pub record UploadStats : Type 0 where
  pub uploaded_blobs : ℕ
  pub bytes_uploaded : ℕ

-- The two methods of the trait `BlobStore` that an upload calls, on a store with state `S`.
pub record BlobStore (S : Type 0) : Type 0 where
  pub find_missing_blobs : List Digest → Stateful CasError S (List Digest)
  pub upload_blobs : List Blob → Stateful CasError S UploadStats

pub record UploadObjectStats : Type 0 where
  pub uploaded_blobs : ℕ
  pub reused_blobs : ℕ
  pub bytes_uploaded : ℕ

-- `sources_by_digest`, in the order of insertion.
abbrev pub Sources : Type 0
Sources = List (Digest × Blob)

abbrev pub source_digest : Digest × Blob → Digest
source_digest (digest, blob) = digest

unfoldable pub get_source : Digest → Sources → Option Blob
get_source digest [] = none
get_source digest ((known, blob) ∷ rest) =
    if digest_beq known digest then some blob else get_source digest rest

-- `entry(digest).or_insert_with(…)`
unfoldable pub or_insert : Digest → Blob → Sources → Sources
unfolding get_source
or_insert digest blob sources =
    if is_some (get_source digest sources) then sources else sources ++ (digest, blob) ∷ []

unfoldable pub add_files : List (Digest × Text) → Sources → Sources
unfolding or_insert
add_files [] sources = sources
add_files ((digest, path) ∷ files) sources =
    add_files files
      (or_insert digest (record { digest = digest; contents = file_path path }) sources)

-- An error of the store, as an `UploadError` with its context.
abbrev pub of_store {ℓ} : {A : Type ℓ} → Result CasError A → Result UploadError A
of_store r = map_err context (map_err cas r)

module _ (sha256_hex : List ℕ → Text) where
  -- `Blob::from_bytes`
  unfoldable pub from_bytes : List ℕ → Blob
  from_bytes content = record { digest = for_bytes sha256_hex content; contents = bytes content }

  unfoldable pub add_directories : List EncodedDirectory → Sources → Sources
  unfolding or_insert from_bytes
  add_directories [] sources = sources
  add_directories (d ∷ directories) sources =
      add_directories directories (or_insert d.digest (from_bytes d.bytes) sources)

  unfoldable pub sources_of : EncodedDirectoryTree → Sources
  unfolding add_files add_directories
  sources_of tree = add_directories tree.directories (add_files tree.file_blobs [])

abbrev pub find_source : Sources → Digest → Result UploadError Blob
find_source sources digest = ok_or (unexpected_missing_digest digest) (get_source digest sources)

module _ {S : Type 0} (store : BlobStore S) (sha256_hex : List ℕ → Text) where
  -- The second half, for the digests that the store reports as missing.
  unfoldable pub upload_missing : Sources → List Digest → Stateful UploadError S UploadObjectStats
  unfolding get_source
  upload_missing sources missing = and_then (lift (try_map (find_source sources) missing)) λ blobs.
      and_then (λ s. (of_store (store.upload_blobs blobs s).0, (store.upload_blobs blobs s).1))
        λ stats. pure (record {
          uploaded_blobs = stats.uploaded_blobs;
          reused_blobs = length sources - length missing;
          bytes_uploaded = stats.bytes_uploaded;
        })

  unfoldable pub upload_encoded_tree :
      EncodedDirectoryTree → Stateful UploadError S UploadObjectStats
  unfolding sources_of upload_missing
  upload_encoded_tree tree =
      let sources = sources_of sha256_hex tree in
      let digests = map source_digest sources in
      and_then
        (λ s.
          (of_store (store.find_missing_blobs digests s).0, (store.find_missing_blobs digests s).1))
        (upload_missing sources)
