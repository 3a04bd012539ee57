-- ===== src/Session/Store/Creation.antt =====
-- crates/rfs-common/src/session/store.rs: `create` in a new database file.
use remotefs.Base.{ℕ, ◌≤◌, ◌<◌, ◌^◌, ◌≡◌, refl, none, some, Bool, true, false, [], ◌∷◌, ok}
use remotefs.Base.{arith, leb, lt→ltb, le→leb, ◌==◌, nat_eq, list_eq}
use remotefs.Base.Int.{pos, int_eq, i64_max, InI64}
use remotefs.Base.Utf8.{to_str}
use remotefs.Base.Text.{Text, codes}
use remotefs.Digest.{Digest}
use remotefs.Digest.Validity.{IsValid, new-eq-ok}
use remotefs.Session.Types.{root, active, from_sqlite, to_u32}
use remotefs.Session.Store.Rows.{InodeRow, NewRemoteInode, SessionMetadataRow, SessionMetadata}
use remotefs.Session.Store.Rows.{remote_directory}
use remotefs.Session.Store.Metadata.{validate_session, invalid_metadata, parse_lifecycle}
use remotefs.Session.Store.Metadata.{lifecycle_text, validate_close_time}
use remotefs.Session.Store.Database.{Database, empty_database, with_transaction}
use remotefs.Session.Store.Operations.{remote_row, create, prepare_schema, initialize_database}
use remotefs.Session.Store.Operations.{insert_session, insert_root_inode, insert_remote_inode}
use remotefs.Session.Store.Operations.{now_seconds, schema_version, record_version, when}
use remotefs.Session.Store.RowRoundTrip.{validate_inode_row-remote_row}
use remotefs.Session.Store.RemoteInode.{stored_inode}
use remotefs.Session.Store.Closing.{sound}
use remotefs.Session.Store.Children.{IsUnloaded}
use remotefs.Session.Store.Invariants.{IsNamespace}

abbrev root_node : Digest → NewRemoteInode
root_node d = record { name = []; mode = none; mtime = none; content = remote_directory d }

abbrev root_row : Digest → InodeRow
root_row d = record (remote_row none (root_node d)) { id = pos 1 }

module _ (session_id : Text) (pid : ℕ) (d : Digest) (mountpoint : Text) (now : ℕ) where
  unfoldable pub first_row : SessionMetadataRow
  first_row = record {
    singleton = pos 1;
    session_id = session_id;
    daemon_pid = pos pid;
    lifecycle = lifecycle_text active;
    root_digest_hash = d.hash;
    root_digest_size = d.size_bytes;
    mountpoint = mountpoint;
    created_at_seconds = pos now;
    closed_at_seconds = none;
    log_level = codes "info";
    log_format = codes "text";
  }

  -- The tables after `create`.
  unfoldable pub first_database : Database
  unfolding first_row
  first_database = record {
    user_version = schema_version;
    session_metadata = first_row ∷ [];
    inodes = root_row d ∷ [];
    last_rowid = 1;
  }

  unfoldable pub first_session : SessionMetadata
  first_session = record {
    daemon_pid = pid;
    lifecycle = active;
    root_digest = d;
    mountpoint = mountpoint;
  }

  module _ (is_uuid : Text → Bool) (uuid : is_uuid session_id ≡ true) (some_pid : 0 < pid)
      (valid : IsValid d) (fits : InI64 d.size_bytes) (late : now ≤ i64_max)
      (utf8 : to_str mountpoint ≡ some mountpoint) where
    pub create-first_database :
        create sound is_uuid session_id pid d mountpoint (some now) empty_database
        ≡ (ok tt, first_database)
    unfolding create prepare_schema initialize_database first_database insert_session
        insert_root_inode insert_remote_inode now_seconds record_version when with_transaction
        from_sqlite remote_row
    create-first_database =
        let named : (pid == 0) ≡ false = ground arith in
        rw (utf8, uuid, named, le→leb now i64_max late)

    pub first_row-valid : pid < 2 ^ 32 → validate_session is_uuid first_row ≡ ok first_session
    unfolding validate_session invalid_metadata validate_close_time first_row first_session to_u32
        parse_lifecycle lifecycle_text
    first_row-valid small =
        let positive : leb pid 0 ≡ false = ground arith in
        rw (uuid, positive, lt→ltb pid (2 ^ 32) small, (new-eq-ok d d).1 (refl, valid))

    -- For a UUID, a mountpoint in UTF-8, a process id other than 0, a valid digest, and a clock and a size that fit an `i64`,
    -- `create` in a new file succeeds when SQLite does: the session is active, and its root is a
    -- directory that is not loaded.
    pub create-IsUnloaded :
        pid < 2 ^ 32
        → let after = create sound is_uuid session_id pid d mountpoint (some now) empty_database in
          (after.0 ≡ ok tt) × IsUnloaded is_uuid root after.1
    create-IsUnloaded small = rw create-first_database (
      refl,
      unfold first_database in
          record {
            row = root_row d;
            stored = stored_inode root none (root_node d);
            session = record {
              row = first_row;
              session = first_session;
              stored = unfold first_row in refl;
              valid = first_row-valid small;
              tells = unfold first_session in refl;
            };
            found = refl;
            read =
                validate_inode_row-remote_row root none (root_node d) refl (refl, refl, refl)
                  (record { mode_fits = refl; timed = tt; digested = (valid, fits) });
            is_directory = unfold stored_inode in refl;
            unloaded = unfold stored_inode in refl;
            childless = unfold remote_row in refl;
            bounded = omega arith;
          },
    )

    -- The tables of a new session are a namespace with one inode.
    pub create-IsNamespace :
        let after = create sound is_uuid session_id pid d mountpoint (some now) empty_database in
        IsNamespace after.1.session_metadata after.1
    unfolding first_database remote_row
    create-IsNamespace = rw create-first_database (record {
      same_session = refl;
      bounded = omega arith;
      one_each = λ parent name. ground arith;
    })
