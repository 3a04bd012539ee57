-- ===== src/Session/Facade.antt =====
-- crates/rfs-common/src/session.rs: the methods of `Session` over the store, the cache and the
-- overlay. The locks of the inodes are not modelled: a method runs alone.
use remotefs.Base.{ℕ, ◌+◌, Option, none, some, Bool, not, ◌++◌, List, [], ◌∷◌, Result, ok, err}
use remotefs.Base.{map_err, ok_or, reject_if, try_map, if◌then◌else◌}
use remotefs.Base.Text.{Text, codes}
use remotefs.Digest.{Digest}
use remotefs.Tree.Types.{NodeKind, file, directory, symlink, Directory}
use remotefs.Tree.Decode.{decode_directory}
use remotefs.Session.Types.{SessionError, internal_error, not_found, not_directory, is_directory}
use remotefs.Session.Types.{Operation, InodeId}
use remotefs.Session.Action.{Action, ◌>>=◌, ◌>>◌, lift, pure}
use remotefs.Session.Store.Rows.{StoreInode}
use remotefs.Session.Store.Validate.{is_some_true, is_directory_kind}
use remotefs.Session.Store.Database.{Database, Sql}
use remotefs.Session.Store.Operations
use remotefs.Session.Store.Operations.{get_directory_children, get_or_create_remote_dir_children}
use remotefs.Session.Projection.{Inode, project_inode, decoded_directory_children}
use remotefs.Session.Cache
use remotefs.Session.Cache.{Files, RemoteStream, read_blob, read_file_range}

pub record IoCounters : Type 0 where
  pub directory_downloads : ℕ
  pub directory_cache_hits : ℕ
  pub file_downloads : ℕ
  pub file_cache_hits : ℕ

-- What a session changes: the database, the cache directory and the counters. Nothing writes to
-- the overlay.
pub record Session : Type 0 where
  pub db : Database
  pub cache : Files
  pub overlay : Files
  pub counters : IoCounters

-- What the session takes from elsewhere: SQLite's failures, the crates `uuid`, `sha2` with `hex`,
-- and `prost`, and the remote store.
pub record Environment : Type 0 where
  pub fault : Operation → Database → Bool
  pub is_uuid : Text → Bool
  pub sha256_hex : List ℕ → Text
  pub decode : List ℕ → Option Directory
  pub stream_blob : Digest → RemoteStream

module _ {A : Type 0} where
  abbrev pub on_store : Sql A → Action Session A
  on_store m s = ((m s.db).0, record s { db = (m s.db).1 })

  abbrev pub on_cache : Action Files A → Action Session A
  on_cache m s = ((m s.cache).0, record s { cache = (m s.cache).1 })

  abbrev pub on_overlay : Action Files A → Action Session A
  on_overlay m s = ((m s.overlay).0, record s { overlay = (m s.overlay).1 })

unfoldable pub record_directory_read : Bool → Action Session (Unit {0})
record_directory_read downloaded s =
    if downloaded
    then (
      ok tt,
      record s {
        counters = record s.counters { directory_downloads = s.counters.directory_downloads + 1 };
      },
    )
    else (
      ok tt,
      record s {
        counters = record s.counters { directory_cache_hits = s.counters.directory_cache_hits + 1 };
      },
    )

unfoldable pub record_file_read : Bool → Action Session (Unit {0})
record_file_read downloaded s =
    if downloaded
    then (
      ok tt,
      record s { counters = record s.counters { file_downloads = s.counters.file_downloads + 1 } },
    )
    else (
      ok tt,
      record s {
        counters = record s.counters { file_cache_hits = s.counters.file_cache_hits + 1 };
      },
    )

-- A row that is there and was not deleted.
abbrev pub visible : Option StoreInode → Result SessionError StoreInode
visible none = err not_found
visible (some stored) = if stored.tombstone then err not_found else ok stored

abbrev pub keep_visible : List StoreInode → List StoreInode
keep_visible [] = []
keep_visible (i ∷ is) = let rest = keep_visible is in if i.tombstone then rest else i ∷ rest

-- The test of the kind in `read_range`.
abbrev pub require_file : NodeKind → Result SessionError (Unit {0})
require_file file = ok tt
require_file directory = err is_directory
require_file symlink = err internal_error

module _ (env : Environment) where
  unfoldable pub get_visible_inode : InodeId → Action Session StoreInode
  get_visible_inode id = do
    found ← on_store (Operations.inode env.fault env.is_uuid id)
    lift (visible found)

  -- `Session::get_inode`
  unfoldable pub get_inode : InodeId → Action Session Inode
  get_inode id = do stored ← get_visible_inode id; lift (project_inode stored)

  -- The part for a directory that is not loaded.
  unfoldable pub load_directory : InodeId → StoreInode → Action Session (Unit {0})
  load_directory id stored = do
    digest ← lift (ok_or internal_error stored.directory_remote_digest)
    (bytes, downloaded) ← on_cache (read_blob env.sha256_hex env.stream_blob digest)
    decoded ←
        lift
          (map_err (λ _. internal_error) (decode_directory env.sha256_hex env.decode digest bytes))
    children ← lift (decoded_directory_children decoded)
    stored_children ← on_store (get_or_create_remote_dir_children env.fault env.is_uuid id children)
    record_directory_read downloaded

  unfoldable pub ensure_directory_loaded : InodeId → Action Session (Unit {0})
  ensure_directory_loaded id = do
    stored ← get_visible_inode id
    lift (reject_if (not (is_directory_kind stored.kind)) not_directory)
    if is_some_true stored.directory_loaded then pure tt else load_directory id stored

  unfoldable pub lookup_child : InodeId → Text → Action Session Inode
  lookup_child parent name = do
    ensure_directory_loaded parent
    found ← on_store (Operations.child env.fault env.is_uuid parent name)
    stored ← lift (visible found)
    lift (project_inode stored)

  unfoldable pub list_directory : InodeId → Action Session (List Inode)
  list_directory id = do
    ensure_directory_loaded id
    children ← on_store (get_directory_children env.fault env.is_uuid id)
    lift (try_map project_inode (keep_visible children))

  unfoldable pub read_remote : StoreInode → ℕ → ℕ → Action Session (List ℕ)
  read_remote stored offset size = do
    digest ← lift (ok_or internal_error stored.file_remote_digest)
    (bytes, downloaded) ←
        on_cache (Cache.read_range env.sha256_hex env.stream_blob digest offset size)
    record_file_read downloaded
    pure bytes

  unfoldable pub read_range : InodeId → ℕ → ℕ → Action Session (List ℕ)
  unfolding read_remote
  read_range id offset size = do
    stored ← get_visible_inode id
    lift (require_file stored.kind)
    elim stored.file_overlay_path [
      | some path ↦ on_overlay (read_file_range (codes "data/" ++ path) offset size)
      | none ↦ read_remote stored offset size
    ]

  unfoldable pub close : Option ℕ → Action Session (Unit {0})
  close now = on_store (Operations.close env.fault env.is_uuid now)
