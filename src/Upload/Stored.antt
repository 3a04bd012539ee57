-- ===== src/Upload/Stored.antt =====
-- crates/rfs-common/src/upload.rs: what an upload leaves in the store, and what it sends.
use remotefs.Base.{ℕ, ◌-◌, ◌≡◌, refl, sym, subst, true, List, map, All}
use remotefs.Base.{
  Result, ok, map_err, map_err-eq-ok, ok_injective, try_map, contains, ◌⊎◌, inl, inr, nat_eq,
  list_eq, length,
}
use remotefs.Base.Int.{int_eq}
use remotefs.Base.Text.{Text}
use remotefs.Base.State.{and_then-eq-ok}
use remotefs.Digest.{Digest}
use remotefs.Tree.Types.{EncodedDirectory}
use remotefs.Cas.Blobs.{CasError, Blob}
use remotefs.Cas.Order.{digest_of}
use remotefs.Upload.Types.{cas, context, EncodedDirectoryTree}
use remotefs.Upload.Send.{
  UploadStats, BlobStore, UploadObjectStats, Sources, find_source, sources_of, of_store,
  upload_missing, upload_encoded_tree,
}
use remotefs.Upload.Sources.{
  digest_eq, digests_of, IsHonest, IsSealed, sources_of_complete, sources_of-IsHonest,
  find_sources-digests,
}
use remotefs.Upload.Members.{All-map}

-- What the documentation of `BlobStore` promises of a store in which some digests are stored.
pub record IsLawful {S : Type 0} (store : BlobStore S) (holds : S → Digest → Type 0) : Type 0 where
  -- What is asked for, and not reported as missing, is stored.
  pub reports_missing :
      (ds missing : List Digest) (s : S)
      → (store.find_missing_blobs ds s).0 ≡ ok missing
      → (d : Digest) → contains ds d ≡ true
      → (contains missing d ≡ true) ⊎ holds (store.find_missing_blobs ds s).1 d
  -- An upload that succeeds stores each blob that it was given.
  pub stores :
      (bs : List Blob) (s : S) (stats : UploadStats)
      → (store.upload_blobs bs s).0 ≡ ok stats
      → (d : Digest) → contains (map digest_of bs) d ≡ true
      → holds (store.upload_blobs bs s).1 d
  -- An upload removes nothing.
  pub keeps :
      (bs : List Blob) (s : S) (d : Digest) → holds s d → holds (store.upload_blobs bs s).1 d

of_store-ok {ℓ} : {A : Type ℓ} (r : Result CasError A) {a : A} → of_store r ≡ ok a → r ≡ ok a
of_store-ok r h = map_err-eq-ok cas r (map_err-eq-ok context (map_err cas r) h)

module _ {S : Type 0} (store : BlobStore S) (sha256_hex : List ℕ → Text) where
  -- One call of `upload_blobs` after one of `find_missing_blobs`: it was given a source for each
  -- digest that was reported, in that order, and the statistics are its own.
  pub record IsSent (sources : Sources) (s : S) (stats : UploadObjectStats) (after : S)
      : Type 0 where
    pub missing : List Digest
    pub blobs : List Blob
    pub sent : UploadStats
    pub reported : (store.find_missing_blobs (digests_of sources) s).0 ≡ ok missing
    pub found : try_map (find_source sources) missing ≡ ok blobs
    pub uploaded :
        (store.upload_blobs blobs (store.find_missing_blobs (digests_of sources) s).1).0 ≡ ok sent
    pub final :
        after ≡ (store.upload_blobs blobs (store.find_missing_blobs (digests_of sources) s).1).1
    pub counted : stats ≡ record {
      uploaded_blobs = sent.uploaded_blobs;
      reused_blobs = length sources - length missing;
      bytes_uploaded = sent.bytes_uploaded;
    }

  upload_encoded_tree-IsSent :
      (t : EncodedDirectoryTree) (s : S) (stats : UploadObjectStats)
      → (upload_encoded_tree store sha256_hex t s).0 ≡ ok stats
      → IsSent (sources_of sha256_hex t) s stats (upload_encoded_tree store sha256_hex t s).1
  unfolding upload_encoded_tree upload_missing
  upload_encoded_tree-IsSent t s stats h =
      let sources = sources_of sha256_hex t in
      let found_missing = store.find_missing_blobs (digests_of sources) s in
      let (missing, e1, h1) =
        and_then-eq-ok (of_store found_missing.0) (upload_missing store sha256_hex sources)
          found_missing.1 h in
      let (blobs, e2, h2) =
        and_then-eq-ok (try_map (find_source sources) missing) _ found_missing.1 h1 in
      let done = store.upload_blobs blobs found_missing.1 in
      let (sent, e3, made) = and_then-eq-ok (of_store done.0) _ done.1 h2 in
      record {
        missing = missing;
        blobs = blobs;
        sent = sent;
        reported = of_store-ok found_missing.0 e1;
        found = e2;
        uploaded = of_store-ok done.0 e3;
        final = rw (e1, e2, e3) refl;
        counted = sym (ok_injective made);
      }

  module _ (holds : S → Digest → Type 0) (lawful : IsLawful store holds) where
    sources-held :
        (sources : Sources) (s after : S) (stats : UploadObjectStats)
        → All IsHonest sources
        → IsSent sources s stats after
        → (d : Digest) → contains (digests_of sources) d ≡ true
        → holds after d
    sources-held sources s after stats honest r d listed =
        let before = (store.find_missing_blobs (digests_of sources) s).1 in
        let sent_digests = find_sources-digests sources r.missing r.blobs honest r.found in
        subst (λ (u : S). holds u d) (sym r.final)
          (elim (lawful.reports_missing (digests_of sources) r.missing s r.reported d listed) [
            | inl reported ↦
                lawful.stores r.blobs before r.sent r.uploaded d
                  (subst (λ (ds : List Digest). contains ds d ≡ true) (sym sent_digests) reported)
            | inr held ↦ lawful.keeps r.blobs before d held
          ])

    -- After an upload of an encoded tree that succeeds, a store that keeps the promises of
    -- `BlobStore` holds the blob of every file and of every directory of the tree, those that it had
    -- before included. The digest of each encoded directory is the one of its bytes.
    pub upload_encoded_tree-stored :
        (t : EncodedDirectoryTree) (s : S) (stats : UploadObjectStats)
        → All (IsSealed sha256_hex) t.directories
        → (upload_encoded_tree store sha256_hex t s).0 ≡ ok stats
        → let after = (upload_encoded_tree store sha256_hex t s).1 in
          All (λ (f : Digest × Text). holds after f.0) t.file_blobs
          × All (λ (d : EncodedDirectory). holds after d.digest) t.directories
    upload_encoded_tree-stored t s stats is_sealed h =
        let sources = sources_of sha256_hex t in
        let after = (upload_encoded_tree store sha256_hex t s).1 in
        let held =
          sources-held sources s after stats (sources_of-IsHonest sha256_hex t is_sealed)
            (upload_encoded_tree-IsSent t s stats h) in
        let (files, directories) = sources_of_complete sha256_hex t in
        (
          All-map (λ (f : Digest × Text). contains (digests_of sources) f.0 ≡ true)
              (λ (f : Digest × Text). holds after f.0) t.file_blobs
              (λ (f : Digest × Text). held f.0) files,
          All-map (λ (d : EncodedDirectory). contains (digests_of sources) d.digest ≡ true)
              (λ (d : EncodedDirectory). holds after d.digest) t.directories
              (λ (d : EncodedDirectory). held d.digest) directories,
        )
