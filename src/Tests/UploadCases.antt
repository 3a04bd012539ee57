-- ===== src/Tests/UploadCases.antt =====
-- crates/rfs-common/src/upload.rs at concrete inputs.
use remotefs.Base.{
  ℕ, ◌≡◌, refl, true, Option, none, some, List, [], ◌∷◌, if◌then◌else◌, ◌==◌, nat_eq, list_eq,
}
use remotefs.Base.{Result, ok, err, arith, length}
use mathlib.Core.List.{Permᴰ}
use remotefs.Base.Int.{pos}
use remotefs.Base.Text.{Text, codes}
use remotefs.Digest.{for_bytes}
use remotefs.Tree.Types.{Directory, no_warnings}
use remotefs.Cas.Batch.{Transfer}
use remotefs.Cas.Client.{cas_client}
use remotefs.Cas.Refines.{cas_client-IsLawful}
use remotefs.Upload.Types.{
  UploadOptions, Metadata, LocalTree, LocalFile, FileDigest, no_upload_warnings,
  EncodedDirectoryTree,
}
use remotefs.Upload.Scan.{Node, gone, regular_file, folder, scan_local_directory_with_options}
use remotefs.Upload.Hash.{Reads, hash_files, hash_file}
use remotefs.Upload.Encode.{encode_local_tree}
use remotefs.Upload.Send.{BlobStore, upload_encoded_tree, UploadObjectStats}
use remotefs.Upload.Pipeline.{UploadSummary, upload_local_directory}
use remotefs.Upload.Iteration.{same, relisted, scan_local_directory-same}
use remotefs.Upload.Hashing.{hash_file-whole}
use remotefs.Upload.Scanned.{IsScanned, scan_local_directory-IsScanned}
use remotefs.Upload.BottomUp.{encode-scan_bottom_up}
use remotefs.Upload.Lookups.{FailsByTree}
use remotefs.Upload.Complete.{HoldsTree, upload_local_directory-HoldsTree}
use remotefs.Tests.Data.{abc, abc_digest-IsValid, hash_all}
use remotefs.Tests.Server.{disk_of, a_remote, a_remote-IsRemote, HeldThere}
use remotefs.Upload.Types.{validate_options}
use remotefs.Upload.Scan.{scan_node}
use remotefs.Digest.{new}
use remotefs.Digest.{check_hash}
use remotefs.Digest.{is_bad_hash_char}
use remotefs.Tree.Builder.{encode}
use remotefs.Tree.Builder.{reject_duplicate_names}
use remotefs.Tree.Builder.{sort_entries}
use remotefs.Tree.Metadata.{normalize_optional_metadata}
use remotefs.Tree.Metadata.{normalize}
use remotefs.Tree.Metadata.{validate_timestamp}
use remotefs.Tree.Builder.{encode_all}
use remotefs.Tree.Builder.{add_directory}
use remotefs.Base.Decimal.{decimal}
use remotefs.Base.Decimal.{decimal_ℤ}
use remotefs.Digest.{to_reapi}
use remotefs.Tree.Builder.{add_file}
use remotefs.Tree.Builder.{add_symlink}
use remotefs.Tree.Builder.{directory_node}
use remotefs.Tree.Builder.{file_node}
use remotefs.Tree.Builder.{insert_by}
use remotefs.Tree.Builder.{link_warnings}
use remotefs.Tree.Builder.{reject_seen}
use remotefs.Tree.Builder.{seal}
use remotefs.Tree.Builder.{sort_by}
use remotefs.Tree.Builder.{symlink_node}
use remotefs.Tree.Builder.{with_metadata}
use remotefs.Tree.Metadata.{escapes_from}
use remotefs.Tree.Metadata.{into_node_properties}
use remotefs.Tree.Metadata.{masked_mode}
use remotefs.Tree.Metadata.{mode_warnings}
use remotefs.Tree.Metadata.{next_depth}
use remotefs.Tree.Metadata.{properties_of}
use remotefs.Tree.Metadata.{target_escapes}
use remotefs.Tree.Metadata.{validate_mtime}
use remotefs.Tree.Metadata.{validate_name}
use remotefs.Tree.Types.{add}
use remotefs.Tree.Types.{merge}
use remotefs.Upload.Encode.{as_i32}
use remotefs.Upload.Encode.{collect}
use remotefs.Upload.Encode.{encode_directories}
use remotefs.Upload.Encode.{encode_directory}
use remotefs.Upload.Encode.{encode_entries}
use remotefs.Upload.Encode.{encode_entry}
use remotefs.Upload.Encode.{get}
use remotefs.Upload.Encode.{metadata_for}
use remotefs.Upload.Hash.{as_i64}
use remotefs.Upload.Hash.{finish_hash}
use remotefs.Upload.Hash.{hash_reads}
use remotefs.Upload.Paths.{component_name}
use remotefs.Upload.Paths.{digest_leb}
use remotefs.Upload.Paths.{directory_leb}
use remotefs.Upload.Paths.{insert_with}
use remotefs.Upload.Paths.{join}
use remotefs.Upload.Paths.{path_bytes}
use remotefs.Upload.Paths.{path_depth}
use remotefs.Upload.Paths.{sort_with}
use remotefs.Base.Utf8.{to_str}
use remotefs.Upload.Scan.{arranged}
use remotefs.Upload.Scan.{count_hard_link}
use remotefs.Upload.Scan.{node_type_name}
use remotefs.Upload.Scan.{scan_directory}
use remotefs.Upload.Scan.{scan_entries}
use remotefs.Upload.Scan.{scan_entry}
use remotefs.Upload.Send.{add_directories}
use remotefs.Upload.Send.{add_files}
use remotefs.Upload.Send.{from_bytes}
use remotefs.Upload.Send.{get_source}
use remotefs.Upload.Send.{or_insert}
use remotefs.Upload.Send.{sources_of}
use remotefs.Upload.Send.{upload_missing}
use remotefs.Upload.Types.{hash_chunk_bytes}
use remotefs.Upload.Types.{merge_tree}
use remotefs.Cas.Client.{find_missing_blobs}
use remotefs.Digest.{from_reapi}
use remotefs.Cas.Client.{upload_blobs}
use remotefs.Cas.Batch.{upload_blobs_to_cas}
use remotefs.Cas.Batch.{upload_each}
use remotefs.Cas.Batch.{upload_one}
use remotefs.Cas.Blobs.{digest_size_usize}
use remotefs.Cas.Batch.{add_to_batch}
use remotefs.Cas.Blobs.{load_blob_as_bytes}
use remotefs.Cas.Blobs.{load_contents}
use remotefs.Cas.Batch.{would_exceed_budget}
use remotefs.Cas.Batch.{push}
use remotefs.Cas.Batch.{flush_batch_update}
use remotefs.Cas.Batch.{upload_batch_to_cas}
use remotefs.Cas.Blobs.{batch_update_request}
use remotefs.Cas.Batch.{check_response}
use remotefs.Cas.Batch.{find_response}
use remotefs.Cas.Batch.{is_failure}
use remotefs.Cas.Batch.{is_for}
use remotefs.Cas.Batch.{reapi_beq}
use remotefs.Cas.Batch.{taken}
use remotefs.Cas.Batch.{upload_oversized_blob}
use remotefs.Cas.Client.{digest_size_u64}
use remotefs.Cas.Client.{parse_response_digests}
use remotefs.Cas.Client.{send}
use remotefs.Cas.Chunks.{read_all}
use remotefs.Cas.Client.{total_size}

abbrev some_metadata : ℕ → Metadata
some_metadata len = record {
  mode = 420;
  mtime = pos 7;
  mtime_nsec = pos 0;
  dev = 1;
  ino = 2;
  len = len;
}

-- Below the root, a file and an empty directory.
abbrev a_child : Text → Node
a_child name =
    if name == codes "f"
    then regular_file (some_metadata 3)
    else folder (some_metadata 0) (some []) (λ name. gone)

abbrev a_node : Node
a_node = folder (some_metadata 0) (some (codes "f" ∷ codes "d" ∷ [])) a_child

abbrev relisted_node : Node
relisted_node = folder (some_metadata 0) (some (codes "d" ∷ codes "f" ∷ [])) a_child

abbrev some_options : UploadOptions
some_options = record { hash_workers = 2; in_flight_bytes = 8; fail_on_unsupported_nodes = true }

-- Every file holds `abc`, and a read gives at most two bytes.
abbrev some_reads : Reads
some_reads = some (codes "ab") ∷ some (codes "c") ∷ []

abbrev some_files : Text → ℕ → Option Reads
some_files path chunk_bytes = some some_reads

abbrev an_encoding : Directory → List ℕ
an_encoding d = if length d.files == 0 then 0 ∷ [] else 0 ∷ 0 ∷ []

abbrev a_disk : Text → Option (List ℕ)
a_disk path = some abc

-- The client of the remote store, with a small budget.
abbrev a_client : BlobStore (List Transfer)
a_client = cas_client (disk_of a_disk) 4 a_remote

abbrev a_summary : UploadSummary
a_summary = record {
  root_digest = for_bytes hash_all (0 ∷ 0 ∷ []);
  files = 1;
  directories = 2;
  symlinks = 0;
  uploaded_blobs = 3;
  reused_blobs = 0;
  bytes_uploaded = 6;
  warnings = no_upload_warnings;
}

uploaded :
    (upload_local_directory a_client hash_all an_encoding some_files a_node
      (codes "/t")
      some_options
      []).0
    ≡ ok a_summary
unfolding upload_local_directory validate_options scan_local_directory_with_options scan_node
    hash_files hash_file new check_hash is_bad_hash_char encode_local_tree encode
    reject_duplicate_names sort_entries normalize_optional_metadata normalize validate_timestamp
    encode_all add_directory decimal decimal_ℤ for_bytes to_reapi add_file add_symlink
    directory_node file_node insert_by link_warnings reject_seen seal sort_by symlink_node
    with_metadata escapes_from into_node_properties masked_mode mode_warnings next_depth
    properties_of target_escapes validate_mtime validate_name add merge as_i32 collect
    encode_directories encode_directory encode_entries encode_entry get metadata_for as_i64
    finish_hash hash_reads component_name digest_leb directory_leb insert_with join path_bytes
    path_depth sort_with to_str arranged count_hard_link node_type_name scan_directory scan_entries
    scan_entry add_directories add_files from_bytes get_source or_insert sources_of
    upload_encoded_tree upload_missing hash_chunk_bytes merge_tree find_missing_blobs from_reapi
    upload_blobs upload_blobs_to_cas upload_each upload_one digest_size_usize add_to_batch
    load_blob_as_bytes load_contents would_exceed_budget push flush_batch_update upload_batch_to_cas
    batch_update_request check_response find_response is_failure is_for reapi_beq taken
    upload_oversized_blob digest_size_u64 parse_response_digests send total_size read_all
uploaded = refl

upload_local_directory-HoldsTree_example :
    HoldsTree a_client HeldThere hash_all an_encoding
      (upload_local_directory a_client hash_all an_encoding some_files a_node
        (codes "/t")
        some_options
        []).1
      a_summary.root_digest
upload_local_directory-HoldsTree_example =
    upload_local_directory-HoldsTree a_client HeldThere hash_all an_encoding
      (cas_client-IsLawful (disk_of a_disk) 4 a_remote HeldThere a_remote-IsRemote) some_files
      a_node (codes "/t") some_options [] a_summary uploaded

scan_local_directory-same_example :
    scan_local_directory_with_options some_options a_node (codes "/t")
    ≡ scan_local_directory_with_options some_options relisted_node (codes "/t")
scan_local_directory-same_example =
    scan_local_directory-same some_options a_node relisted_node
      (relisted (some_metadata 0) ∣ Permᴰ.swap refl refl ∣₁ (λ name. same (a_child name)))
      (codes "/t")

-- The value of a result that is known to succeed.
abbrev value_or {ℓ κ} : {E : Type ℓ} {A : Type κ} → A → Result E A → A
value_or a (ok b) = b
value_or a (err e) = a

abbrev a_local : LocalTree
a_local =
    value_or
      (record {
        root = [];
        directories = [];
        files = [];
        symlinks = 0;
        warnings = no_upload_warnings;
      })
      (scan_local_directory_with_options some_options a_node (codes "/t"))

scanned : scan_local_directory_with_options some_options a_node (codes "/t") ≡ ok a_local
unfolding scan_local_directory_with_options scan_node hash_files hash_file new check_hash
    is_bad_hash_char for_bytes upload_encoded_tree find_missing_blobs
scanned = refl

abbrev some_digests : List FileDigest
some_digests = value_or [] (hash_files hash_all some_files a_local.files some_options)

hashed : hash_files hash_all some_files a_local.files some_options ≡ ok some_digests
unfolding hash_files scan_local_directory_with_options scan_node hash_file new check_hash
    is_bad_hash_char for_bytes upload_encoded_tree find_missing_blobs
hashed = refl

scan_local_directory-IsScanned_example : IsScanned a_local
scan_local_directory-IsScanned_example =
    scan_local_directory-IsScanned some_options a_node (codes "/t") a_local scanned

encode-scan_bottom_up_example :
    FailsByTree (encode_local_tree hash_all an_encoding a_local some_digests)
encode-scan_bottom_up_example =
    encode-scan_bottom_up hash_all an_encoding some_files some_options a_node (codes "/t") a_local
      some_digests scanned hashed

abbrev a_file : LocalFile
a_file = record {
  name = codes "f";
  relative_path = codes "f" ∷ [];
  absolute_path = codes "/t/f";
  metadata = some_metadata 3;
}

hash_file-whole_example :
    hash_file hash_all some_files 2 a_file
    ≡ ok (record {
      relative_path = codes "f" ∷ [];
      absolute_path = codes "/t/f";
      digest = for_bytes hash_all abc;
      size_bytes = 3;
    })
unfolding for_bytes
hash_file-whole_example =
    hash_file-whole hash_all some_files 2 a_file some_reads abc refl
      (codes "c", refl, ([], refl, refl)) (omega arith) abc_digest-IsValid

-- One directory without entries, and no file.
abbrev one_directory : EncodedDirectoryTree
one_directory = record {
  root_digest = for_bytes hash_all (0 ∷ []);
  directories =
      record {
        digest = for_bytes hash_all (0 ∷ []);
        bytes = 0 ∷ [];
        directory = record { files = []; directories = []; symlinks = []; node_properties = none };
        warnings = no_warnings;
      }
      ∷ [];
  file_blobs = [];
  warnings = no_warnings;
}

abbrev one_sent : UploadObjectStats
one_sent = record { uploaded_blobs = 1; reused_blobs = 0; bytes_uploaded = 1 }
