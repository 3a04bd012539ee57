-- ===== src/Upload/Pipeline.antt =====
-- crates/rfs-common/src/upload.rs: `upload_local_directory`, the phases one after the other.
use remotefs.Base.{ℕ, Option, List, length, map_err}
use remotefs.Base.Text.{Text}
use remotefs.Base.State.{Stateful, and_then, lift, pure, within}
use remotefs.Digest.{Digest}
use remotefs.Tree.Types.{Directory}
use remotefs.Upload.Types.{
  UploadOptions, UploadWarnings, merge_tree, UploadError, context, validate_options,
}
use remotefs.Upload.Scan.{Node, scan_local_directory_with_options}
use remotefs.Upload.Hash.{Reads, hash_files}
use remotefs.Upload.Encode.{encode_local_tree}
use remotefs.Upload.Send.{BlobStore, upload_encoded_tree}

pub record UploadSummary : Type 0 where
  pub root_digest : Digest
  pub files : ℕ
  pub directories : ℕ
  pub symlinks : ℕ
  pub uploaded_blobs : ℕ
  pub reused_blobs : ℕ
  pub bytes_uploaded : ℕ
  pub warnings : UploadWarnings

module _ {S : Type 0} (store : BlobStore S) (sha256_hex : List ℕ → Text)
    (encode_to_vec : Directory → List ℕ) (open_file : Text → ℕ → Option Reads) where
  unfoldable pub upload_local_directory :
      Node → Text → UploadOptions → Stateful UploadError S UploadSummary
  upload_local_directory node root options = and_then (lift (validate_options options)) λ _.
      and_then (lift (map_err context (scan_local_directory_with_options options node root)))
        λ tree.
          and_then (lift (map_err context (hash_files sha256_hex open_file tree.files options)))
            λ digests.
              and_then
                (lift (map_err context (encode_local_tree sha256_hex encode_to_vec tree digests)))
                λ encoded.
                  and_then (within context (upload_encoded_tree store sha256_hex encoded)) λ upload.
                    pure (record {
                      root_digest = encoded.root_digest;
                      files = length tree.files;
                      directories = length tree.directories;
                      symlinks = tree.symlinks;
                      uploaded_blobs = upload.uploaded_blobs;
                      reused_blobs = upload.reused_blobs;
                      bytes_uploaded = upload.bytes_uploaded;
                      warnings = merge_tree tree.warnings encoded.warnings;
                    })
