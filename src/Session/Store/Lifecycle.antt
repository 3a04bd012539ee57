-- ===== src/Session/Store/Lifecycle.antt =====
-- crates/rfs-common/src/session/store.rs: a session is closed once, and then nothing else works.
use remotefs.Base.{
  ℕ, ◌≤◌, le→leb, ◌≡◌, refl, ◌⊎◌, inl, inr, some, Bool, false, List, ok, err, arith,
}
use remotefs.Base.{Bool-cases}
use remotefs.Base.Int.{int_eq, i64_max}
use remotefs.Base.Text.{Text}
use remotefs.Tree.Metadata.{is_bad_name}
use remotefs.Session.Action.{in_context, ◌>>=◌}
use remotefs.Session.Types.{
  SessionError, Operation, InodeId, context, failed_precondition, database,
}
use remotefs.Session.Types.{read_session_metadata, begin_transaction, SessionLifecycle, closed}
use remotefs.Session.Store.Rows.{SessionMetadataRow, SessionMetadata, NewRemoteInode}
use remotefs.Session.Store.Validate.{validate_inode_name}
use remotefs.Session.Store.Metadata.{validate_session}
use remotefs.Session.Store.Database.{Database, Sql, select_session, with_transaction}
use remotefs.Session.Store.Operations.{read_stored_session, ensure_active, inode, child}
use remotefs.Session.Store.Operations.{get_directory_children, get_or_create_remote_dir_children}
use remotefs.Session.Store.Operations.{get_or_create_body, close, close_body, now_seconds}

-- The stored row of the session is valid and tells this lifecycle.
pub record SessionIs (is_uuid : Text → Bool) (l : SessionLifecycle) (db : Database) : Type 0 where
  pub row : SessionMetadataRow
  pub session : SessionMetadata
  pub stored : select_session db ≡ some row
  pub valid : validate_session is_uuid row ≡ ok session
  pub tells : session.lifecycle ≡ l

unfoldable pub root_cause : SessionError → SessionError
root_cause (context e) = root_cause e
root_cause e = e

-- The operation fails, for the lifecycle or for a failure of SQLite, and changes nothing.
pub record Refused {A : Type 0} (m : Sql A) (db : Database) : Type 0 where
  pub error : SessionError
  pub fails : m db ≡ (err error, db)
  pub cause :
      (root_cause error ≡ failed_precondition) ⊎ ((o : Operation) × (root_cause error ≡ database o))

module _ {A : Type 0} (m : Sql A) (db : Database) (h : Refused m db) where
  in_context-Refused : Refused (in_context m) db
  unfolding root_cause
  in_context-Refused = record {
    error = context h.error;
    fails = rw (h.fails) refl;
    cause = h.cause;
  }

  >>=-Refused : {B : Type 0} (f : A → Sql B) → Refused (m >>= f) db
  >>=-Refused f = record { error = h.error; fails = rw (h.fails) refl; cause = h.cause }

  with_transaction-Refused :
      (fault : Operation → Database → Bool) → Refused (with_transaction fault m) db
  unfolding with_transaction root_cause
  with_transaction-Refused fault = elim (Bool-cases (fault begin_transaction db)) [
    | inl broken ↦ record {
      error = database begin_transaction;
      fails = rw broken refl;
      cause = inr (begin_transaction, refl);
    }
    | inr sound ↦ record {
      error = context h.error;
      fails = rw (sound, h.fails) refl;
      cause = h.cause;
    }
  ]

module _ (fault : Operation → Database → Bool) (is_uuid : Text → Bool) where
  ensure_active-Refused :
      (db : Database) → SessionIs is_uuid closed db → Refused (ensure_active fault is_uuid) db
  unfolding ensure_active read_stored_session root_cause
  ensure_active-Refused db s = elim (Bool-cases (fault read_session_metadata db)) [
    | inl broken ↦ record {
      error = context (database read_session_metadata);
      fails = ground arith;
      cause = inr (read_session_metadata, refl);
    }
    | inr sound ↦ record {
      error = failed_precondition;
      fails = ground (arith, s.stored, s.valid, s.tells);
      cause = inl refl;
    }
  ]

  -- Once the session is closed, every operation of the store, with a valid name and a time that fits
  -- an `i64`, fails because of the lifecycle or because SQLite does, and leaves the database as it
  -- is: a second close too.
  pub closed-Refused :
      (db : Database) (id : InodeId) (name : Text) (children : List NewRemoteInode) (now : ℕ)
      → SessionIs is_uuid closed db
      → is_bad_name name ≡ false
      → now ≤ i64_max
      → Refused (inode fault is_uuid id) db
        × Refused (child fault is_uuid id name) db
        × Refused (get_directory_children fault is_uuid id) db
        × Refused (get_or_create_remote_dir_children fault is_uuid id children) db
        × Refused (close fault is_uuid (some now)) db
  unfolding inode child get_directory_children get_or_create_remote_dir_children get_or_create_body
      close close_body now_seconds validate_inode_name
  closed-Refused db id name children now s good fits =
      let active_checked = ensure_active fault is_uuid in
      let refused = in_context-Refused active_checked db (ensure_active-Refused db s) in
      (
        >>=-Refused (in_context active_checked) db refused _,
        rw good (>>=-Refused (in_context active_checked) db refused _),
        >>=-Refused (in_context active_checked) db refused _,
        with_transaction-Refused _ db (>>=-Refused (in_context active_checked) db refused _) fault,
        rw (le→leb now i64_max fits) (
            with_transaction-Refused _ db (>>=-Refused (in_context active_checked) db refused _)
              fault),
      )
