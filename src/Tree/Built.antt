-- ===== src/Tree/Built.antt =====
-- crates/rfs-common/src/tree.rs: what `DirectoryBuilder::with_metadata` and the `add` methods guarantee.
use remotefs.Base.{◌≡◌, Option, [], ◌∷◌}
use remotefs.Base.{ok, map_err, map_err-eq-ok, >>=-eq-ok, ok_injective, subst, All}
use remotefs.Base.{All-append, nat_eq, list_eq}
use remotefs.Base.Int.{int_eq}
use remotefs.Base.Text.{Text}
use remotefs.Digest.Validity.{IsValid}
use remotefs.Tree.Types.{NodeMetadata}
use remotefs.Tree.Types.{FileEntry, DirectoryEntry, SymlinkEntry}
use remotefs.Tree.Types.{context}
use remotefs.Tree.Metadata.{validate_name}
use remotefs.Tree.Builder
use remotefs.Tree.Builder.{DirectoryBuilder, sort_entries, sort_by, builder_names, reject_seen}
use remotefs.Tree.Builder.{reject_duplicate_names, file_name, directory_name, symlink_name}
use remotefs.Tree.Builder.{file_node, directory_node, symlink_node, encode_all, seal, encode}

abbrev pub HasName {ℓ} : {A : Type ℓ} → (A → Text) → A → Type 0
HasName name a = validate_name (name a) ≡ ok tt

-- What the `add` methods and the type `Digest` guarantee of a builder.
pub record IsBuilt (b : DirectoryBuilder) : Type 0 where
  pub file_names : All (HasName file_name) b.files
  pub directory_names : All (HasName directory_name) b.directories
  pub symlink_names : All (HasName symlink_name) b.symlinks
  pub file_digests : All (λ (e : FileEntry). IsValid e.digest) b.files
  pub directory_digests : All (λ (e : DirectoryEntry). IsValid e.digest) b.directories

-- A new builder is well formed.
with_metadata-IsBuilt : (m : Option NodeMetadata) → IsBuilt (Builder.with_metadata m)
unfolding Builder.with_metadata
with_metadata-IsBuilt m = record {
  file_names = tt;
  directory_names = tt;
  symlink_names = tt;
  file_digests = tt;
  directory_digests = tt;
}

module _ (b c : DirectoryBuilder) (h : IsBuilt b) where
  -- A file that is added, with a valid digest, leaves a well-formed builder well formed: each name
  -- passes `validate_name` and each digest is valid.
  add_file-IsBuilt : (e : FileEntry) → IsValid e.digest → Builder.add_file e b ≡ ok c → IsBuilt c
  unfolding Builder.add_file
  add_file-IsBuilt e v added =
      let (_, named, made) = >>=-eq-ok (map_err context (validate_name e.name)) _ added in
      subst IsBuilt (ok_injective made) (record {
        file_names =
            All-append (HasName file_name) b.files (e ∷ []) h.file_names
              (map_err-eq-ok context (validate_name e.name) named, tt);
        directory_names = h.directory_names;
        symlink_names = h.symlink_names;
        file_digests =
            All-append (λ (x : FileEntry). IsValid x.digest) b.files (e ∷ []) h.file_digests
              (v, tt);
        directory_digests = h.directory_digests;
      })

  -- A directory that is added, with a valid digest, leaves a well-formed builder well formed.
  add_directory-IsBuilt :
      (e : DirectoryEntry) → IsValid e.digest → Builder.add_directory e b ≡ ok c → IsBuilt c
  unfolding Builder.add_directory
  add_directory-IsBuilt e v added =
      let (_, named, made) = >>=-eq-ok (map_err context (validate_name e.name)) _ added in
      subst IsBuilt (ok_injective made) (record {
        file_names = h.file_names;
        directory_names =
            All-append (HasName directory_name) b.directories (e ∷ []) h.directory_names
              (map_err-eq-ok context (validate_name e.name) named, tt);
        symlink_names = h.symlink_names;
        file_digests = h.file_digests;
        directory_digests =
            All-append (λ (x : DirectoryEntry). IsValid x.digest) b.directories (e ∷ [])
              h.directory_digests (v, tt);
      })

  -- A symlink that is added leaves a well-formed builder well formed.
  add_symlink-IsBuilt : (e : SymlinkEntry) → Builder.add_symlink e b ≡ ok c → IsBuilt c
  unfolding Builder.add_symlink
  add_symlink-IsBuilt e added =
      let (_, named, made) = >>=-eq-ok (map_err context (validate_name e.name)) _ added in
      subst IsBuilt (ok_injective made) (record {
        file_names = h.file_names;
        directory_names = h.directory_names;
        symlink_names =
            All-append (HasName symlink_name) b.symlinks (e ∷ []) h.symlink_names
              (map_err-eq-ok context (validate_name e.name) named, tt);
        file_digests = h.file_digests;
        directory_digests = h.directory_digests;
      })
