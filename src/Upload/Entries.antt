-- ===== src/Upload/Entries.antt =====
-- crates/rfs-common/src/upload.rs: what holds of the digests in the maps holds of a builder's entries.
use remotefs.Base.{◌≡◌, subst, Option, some, none, List, [], ◌∷◌}
use remotefs.Base.{All, All-append, ok, >>=-eq-ok, map_err, map_err-eq-ok, ok_injective, ok_or}
use remotefs.Base.{nat_eq, list_eq, arith, inl, inr, Bool-cases, ◌==◌}
use remotefs.Base.Int.{int_eq}
use remotefs.Base.Text.{codes}
use remotefs.Digest.{Digest}
use remotefs.Tree.Types
use remotefs.Tree.Types.{
  Directory, EncodedDirectory, TreeWarnings, no_warnings, merge, TreeError, FileEntry,
  DirectoryEntry, SymlinkEntry,
}
use remotefs.Tree.Metadata.{validate_name}
use remotefs.Tree.Builder.{DirectoryBuilder, add_file, add_directory, add_symlink}
use remotefs.Upload.Types.{
  tree, invalid_option, RelativePath, LocalDirectoryChild, file, directory, symlink,
}
use remotefs.Upload.Encode.{PathMap, get, encode_entry, encode_entries, metadata_for}
use remotefs.Upload.Sources.{digest_eq}

abbrev map_digest : RelativePath × Digest → Digest
map_digest (path, digest) = digest

-- What a map holds has the property.
abbrev pub Holds : (Digest → Type 0) → PathMap → Type 0
Holds P m = All (λ (x : RelativePath × Digest). P (map_digest x)) m

pub get-Holds :
    (P : Digest → Type 0) (path : RelativePath) (m : PathMap) (d : Digest)
    → Holds P m
    → get path m ≡ some d
    → P d
unfolding get
get-Holds P path [] d h e = cc
get-Holds P path ((known, k) ∷ m) d h e = elim (Bool-cases (known == path)) [
  | inl found ↦ subst P (ground arith) h.0
  | inr other ↦ get-Holds P path m d h.1 (rw other at e)
]

pub ok_or-some {ℓ κ} :
    {E : Type ℓ} {A : Type κ} (e : E) (o : Option A) {a : A} → ok_or e o ≡ ok a → o ≡ some a
ok_or-some e none h = cc
ok_or-some e (some a) h = cc

module _ (P Q : Digest → Type 0) where
  abbrev EntriesHold : DirectoryBuilder → Type 0
  EntriesHold b =
      All (λ (x : FileEntry). P x.digest) b.files
      × All (λ (x : DirectoryEntry). Q x.digest) b.directories

  add_file-EntriesHold :
      (e : FileEntry) (b c : DirectoryBuilder)
      → P e.digest
      → EntriesHold b
      → add_file e b ≡ ok c
      → EntriesHold c
  unfolding add_file
  add_file-EntriesHold e b c p h added =
      let (_, _, made) = >>=-eq-ok (map_err Types.context (validate_name e.name)) _ added in
      subst EntriesHold (ok_injective made)
        (All-append (λ (x : FileEntry). P x.digest) b.files (e ∷ []) h.0 (p, tt), h.1)

  add_directory-EntriesHold :
      (e : DirectoryEntry) (b c : DirectoryBuilder)
      → Q e.digest
      → EntriesHold b
      → add_directory e b ≡ ok c
      → EntriesHold c
  unfolding add_directory
  add_directory-EntriesHold e b c q h added =
      let (_, _, made) = >>=-eq-ok (map_err Types.context (validate_name e.name)) _ added in
      subst EntriesHold (ok_injective made)
        (h.0, All-append (λ (x : DirectoryEntry). Q x.digest) b.directories (e ∷ []) h.1 (q, tt))

  add_symlink-EntriesHold :
      (e : SymlinkEntry) (b c : DirectoryBuilder)
      → EntriesHold b
      → add_symlink e b ≡ ok c
      → EntriesHold c
  unfolding add_symlink
  add_symlink-EntriesHold e b c h added =
      let (_, _, made) = >>=-eq-ok (map_err Types.context (validate_name e.name)) _ added in
      subst EntriesHold (ok_injective made) h

  module _ (files known : PathMap) (hf : Holds P files) (hk : Holds Q known) where
    encode_entry-EntriesHold :
        (c : LocalDirectoryChild) (b b' : DirectoryBuilder)
        → EntriesHold b
        → encode_entry files known c b ≡ ok b'
        → EntriesHold b'
    unfolding encode_entry
    encode_entry-EntriesHold (file f) b b' h e =
        let missing = invalid_option (codes "file_digests") in
        let (d, found, e') = >>=-eq-ok (ok_or missing (get f.relative_path files)) _ e in
        let entry : FileEntry = record {
          name = f.name;
          digest = d;
          metadata = metadata_for Types.file f.metadata;
        } in
        add_file-EntriesHold entry b b'
          (get-Holds P f.relative_path files d hf
            (ok_or-some missing (get f.relative_path files) found))
          h (map_err-eq-ok tree (add_file entry b) e')
    encode_entry-EntriesHold (directory g) b b' h e =
        let missing = invalid_option (codes "directory_digests") in
        let (d, found, e') = >>=-eq-ok (ok_or missing (get g.relative_path known)) _ e in
        let entry : DirectoryEntry = record {
          name = g.name;
          digest = d;
          metadata = metadata_for Types.directory g.metadata;
        } in
        add_directory-EntriesHold entry b b'
          (get-Holds Q g.relative_path known d hk
            (ok_or-some missing (get g.relative_path known) found))
          h (map_err-eq-ok tree (add_directory entry b) e')
    encode_entry-EntriesHold (symlink l) b b' h e =
        let entry : SymlinkEntry = record {
          name = l.name;
          target = l.target;
          metadata = metadata_for Types.symlink l.metadata;
        } in
        add_symlink-EntriesHold entry b b' h (map_err-eq-ok tree (add_symlink entry b) e)

    pub encode_entries-EntriesHold :
        (cs : List LocalDirectoryChild) (b b' : DirectoryBuilder)
        → EntriesHold b
        → encode_entries files known cs b ≡ ok b'
        → EntriesHold b'
    unfolding encode_entries
    encode_entries-EntriesHold [] b b' h e = subst EntriesHold (ok_injective e) h
    encode_entries-EntriesHold (c ∷ cs) b b' h e =
        let (between, first, rest) = >>=-eq-ok (encode_entry files known c b) _ e in
        encode_entries-EntriesHold cs between b' (encode_entry-EntriesHold c b between h first) rest
