-- ===== src/Session/Safety.antt =====
-- crates/rfs-common/src/session.rs: what the methods of a session leave true.
use remotefs.Session.Store.Validate.{is_directory_kind}
use remotefs.Base.{
  ℕ, ◌≡◌, sym, ◌++◌, Option-cases, subst, [], Bool, true, false, not, List, arith, inl, inr, ok_or,
  map_err, reject_if,
}
use remotefs.Base.Text.{Text, codes}
use remotefs.Tree.Decode.{decode_directory}
use remotefs.Session.Types.{InodeId, internal_error, not_directory}
use remotefs.Session.Action.{Action, lift}
use remotefs.Base.State.{Keeps, and_then-Keeps}
use remotefs.Session.Projection.{decoded_directory_children}
use remotefs.Session.Cache.{Files, read_blob, read_file_range}
use remotefs.Session.Cache
use remotefs.Session.Cache.Integrity.{Intact, reading-Intact}
use remotefs.Session.Store.Rows.{StoreInode}
use remotefs.Session.Store.Database.{Database, Sql}
use remotefs.Session.Store.Operations
use remotefs.Session.Store.Operations.{get_directory_children, get_or_create_remote_dir_children}
use remotefs.Session.Store.Keeps.{IsTableInvariant, reads_unchanged, get_or_create-Keeps}
use remotefs.Session.Facade.{Session, Environment, on_store, on_cache, on_overlay, visible}
use remotefs.Session.Facade.{get_visible_inode, get_inode, load_directory, ensure_directory_loaded}
use remotefs.Session.Facade.{lookup_child, list_directory, read_remote, read_range}
use remotefs.Session.Facade.{record_directory_read, record_file_read, require_file}

-- The tables meet `P`, every cached entry is the blob that its path names, and the overlay holds
-- these files.
pub record IsSafe (P : Database → Type 0) (sha256_hex : List ℕ → Text) (overlay : Files)
    (s : Session) : Type 0 where
  pub tables : P s.db
  pub cache : Intact sha256_hex s.cache
  pub same_overlay : s.overlay ≡ overlay

module _ (env : Environment) (P : Database → Type 0) (invariant : IsTableInvariant P)
    (overlay : Files) where
  abbrev pub Safe : Session → Type 0
  Safe = IsSafe P env.sha256_hex overlay

  on_store-Keeps : {A : Type 0} (m : Sql A) → Keeps P m → Keeps Safe (on_store m)
  on_store-Keeps m k s h = record {
    tables = k s.db h.tables;
    cache = h.cache;
    same_overlay = h.same_overlay;
  }

  on_cache-Keeps :
      {A : Type 0} (m : Action Files A) → Keeps (Intact env.sha256_hex) m → Keeps Safe (on_cache m)
  on_cache-Keeps m k s h = record {
    tables = h.tables;
    cache = k s.cache h.cache;
    same_overlay = h.same_overlay;
  }

  -- An operation of the store that only reads.
  reading-Keeps :
      {A : Type 0} (m : Sql A) → ((db : Database) → (m db).1 ≡ db) → Keeps Safe (on_store m)
  reading-Keeps m same = on_store-Keeps m (λ db h. subst P (sym (same db)) h)

  counting-Keeps :
      (downloaded : Bool)
      → Keeps Safe (record_directory_read downloaded) × Keeps Safe (record_file_read downloaded)
  unfolding record_directory_read record_file_read
  counting-Keeps true = (
    λ s h. record { tables = h.tables; cache = h.cache; same_overlay = h.same_overlay },
    λ s h. record { tables = h.tables; cache = h.cache; same_overlay = h.same_overlay },
  )
  counting-Keeps false = (
    λ s h. record { tables = h.tables; cache = h.cache; same_overlay = h.same_overlay },
    λ s h. record { tables = h.tables; cache = h.cache; same_overlay = h.same_overlay },
  )

  get_visible_inode-Keeps : (id : InodeId) → Keeps Safe (get_visible_inode env id)
  unfolding get_visible_inode
  get_visible_inode-Keeps id =
      and_then-Keeps (on_store (Operations.inode env.fault env.is_uuid id)) _
        (reading-Keeps (Operations.inode env.fault env.is_uuid id)
          (λ db. (reads_unchanged env.fault env.is_uuid db id []).0))
        (λ found s h. h)

  pub get_inode-Keeps : (id : InodeId) → Keeps Safe (get_inode env id)
  unfolding get_inode
  get_inode-Keeps id =
      and_then-Keeps (get_visible_inode env id) _ (get_visible_inode-Keeps id) (λ stored s h. h)

  load_directory-Keeps :
      (id : InodeId) (stored : StoreInode) → Keeps Safe (load_directory env id stored)
  unfolding load_directory
  load_directory-Keeps id stored =
      and_then-Keeps (lift (ok_or internal_error stored.directory_remote_digest)) _ (λ s h. h)
        λ digest.
          and_then-Keeps (on_cache (read_blob env.sha256_hex env.stream_blob digest)) _
            (on_cache-Keeps (read_blob env.sha256_hex env.stream_blob digest)
              (λ files h. (reading-Intact env.sha256_hex env.stream_blob digest 0 0 files h).0))
            λ blob.
              and_then-Keeps
                (lift (
                  map_err (λ _. internal_error)
                    (decode_directory env.sha256_hex env.decode digest blob.0)))
                _ (λ s h. h)
                λ decoded.
                  and_then-Keeps (lift (decoded_directory_children decoded)) _ (λ s h. h)
                    λ children.
                      and_then-Keeps
                        (on_store
                          (get_or_create_remote_dir_children env.fault env.is_uuid id children))
                        _
                        (on_store-Keeps
                          (get_or_create_remote_dir_children env.fault env.is_uuid id children)
                          (get_or_create-Keeps env.fault env.is_uuid P invariant id children))
                        λ _. (counting-Keeps blob.1).0

  ensure_directory_loaded-Keeps : (id : InodeId) → Keeps Safe (ensure_directory_loaded env id)
  unfolding ensure_directory_loaded
  ensure_directory_loaded-Keeps id =
      and_then-Keeps (get_visible_inode env id) _ (get_visible_inode-Keeps id) λ stored.
        and_then-Keeps (lift (reject_if (not (is_directory_kind stored.kind)) not_directory)) _
          (λ s h. h) λ _. λ s h. ground (arith, load_directory-Keeps id stored s h, h)

  pub lookup_child-Keeps :
      (parent : InodeId) (name : Text) → Keeps Safe (lookup_child env parent name)
  unfolding lookup_child
  lookup_child-Keeps parent name =
      and_then-Keeps (ensure_directory_loaded env parent) _ (ensure_directory_loaded-Keeps parent)
        λ _.
          and_then-Keeps (on_store (Operations.child env.fault env.is_uuid parent name)) _
            (reading-Keeps (Operations.child env.fault env.is_uuid parent name)
              (λ db. (reads_unchanged env.fault env.is_uuid db parent name).1))
            λ found. and_then-Keeps (lift (visible found)) _ (λ s h. h) (λ stored s h. h)

  pub list_directory-Keeps : (id : InodeId) → Keeps Safe (list_directory env id)
  unfolding list_directory
  list_directory-Keeps id =
      and_then-Keeps (ensure_directory_loaded env id) _ (ensure_directory_loaded-Keeps id) λ _.
        and_then-Keeps (on_store (get_directory_children env.fault env.is_uuid id)) _
          (reading-Keeps (get_directory_children env.fault env.is_uuid id)
            (λ db. (reads_unchanged env.fault env.is_uuid db id []).2))
          (λ children s h. h)

  read_remote-Keeps :
      (stored : StoreInode) (offset size : ℕ) → Keeps Safe (read_remote env stored offset size)
  unfolding read_remote
  read_remote-Keeps stored offset size =
      and_then-Keeps (lift (ok_or internal_error stored.file_remote_digest)) _ (λ s h. h)
        λ digest.
          and_then-Keeps
            (on_cache (Cache.read_range env.sha256_hex env.stream_blob digest offset size)) _
            (on_cache-Keeps (Cache.read_range env.sha256_hex env.stream_blob digest offset size)
              (λ files h.
                (reading-Intact env.sha256_hex env.stream_blob digest offset size files h).1))
            λ found.
              and_then-Keeps (record_file_read found.1) _ (counting-Keeps found.1).1 (λ _ s h. h)

  overlay-Keeps :
      (path : Text) (offset size : ℕ) → Keeps Safe (on_overlay (read_file_range path offset size))
  unfolding read_file_range
  overlay-Keeps path offset size s h = ground (arith, h)

  pub read_range-Keeps :
      (id : InodeId) (offset size : ℕ) → Keeps Safe (read_range env id offset size)
  unfolding read_range
  read_range-Keeps id offset size =
      and_then-Keeps (get_visible_inode env id) _ (get_visible_inode-Keeps id) λ stored.
        and_then-Keeps (lift (require_file stored.kind)) _ (λ s h. h)
          λ _. elim (Option-cases stored.file_overlay_path) [
            | inl remote ↦ rw remote (read_remote-Keeps stored offset size)
            | inr (path, local) ↦ rw local (overlay-Keeps (codes "data/" ++ path) offset size)
          ]
