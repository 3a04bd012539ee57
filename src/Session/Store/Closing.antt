-- ===== src/Session/Store/Closing.antt =====
-- crates/rfs-common/src/session/store.rs: `close` takes an active session to closed.
use remotefs.Base.{
  ℕ, ◌≤◌, le→leb, ◌≡◌, refl, some, Bool, true, false, List, [], ◌∷◌, map, ok, arith,
}
use remotefs.Base.{◌==◌, nat_eq, list_eq, Bool-cases, inl, inr}
use remotefs.Base.Int.{ℤ, pos, int_eq, i64_max}
use remotefs.Base.Text.{Text}
use remotefs.Session.Types.{Operation, active, closed}
use remotefs.Session.Store.Rows.{SessionMetadataRow, SessionMetadata}
use remotefs.Session.Store.Metadata.{validate_session, invalid_metadata, parse_lifecycle}
use remotefs.Session.Store.Metadata.{lifecycle_text, validate_close_time}
use remotefs.Session.Store.Database.{Database, with_transaction, find, close_row}
use remotefs.Session.Store.Operations.{read_stored_session, ensure_active, close, close_body}
use remotefs.Session.Store.Operations.{now_seconds}
use remotefs.Session.Store.Lifecycle.{SessionIs}

-- SQLite never fails.
abbrev pub sound : Operation → Database → Bool
sound operation db = false

abbrev is_singleton : SessionMetadataRow → Bool
is_singleton row = row.singleton == pos 1

find-close_row :
    (seconds : ℤ) (rows : List SessionMetadataRow) (row : SessionMetadataRow)
    → find is_singleton rows ≡ some row
    → (find is_singleton (map (close_row seconds) rows) ≡ some (close_row seconds row))
      × (is_singleton row ≡ true)
find-close_row seconds [] row h = cc
find-close_row seconds (r ∷ rows) row h = elim (Bool-cases (is_singleton r)) [
  | inl one ↦ ground arith
  | inr other ↦ ground (arith, find-close_row seconds rows row)
]

parse_lifecycle-closed : parse_lifecycle (lifecycle_text closed) ≡ ok closed
unfolding parse_lifecycle
parse_lifecycle-closed = refl

abbrev closed_row : ℤ → SessionMetadataRow → SessionMetadataRow
closed_row seconds row = record row {
  lifecycle = lifecycle_text closed;
  closed_at_seconds = some seconds;
}

invalid_metadata-closed_row :
    (is_uuid : Text → Bool) (seconds : ℤ) (row : SessionMetadataRow)
    → invalid_metadata is_uuid (closed_row seconds row) ≡ invalid_metadata is_uuid row
unfolding invalid_metadata
invalid_metadata-closed_row is_uuid seconds row = refl

closed_row-valid :
    (is_uuid : Text → Bool) (seconds : ℕ) (row : SessionMetadataRow) (session : SessionMetadata)
    → validate_session is_uuid row ≡ ok session
    → validate_session is_uuid (closed_row (pos seconds) row)
      ≡ ok (record session { lifecycle = closed })
unfolding validate_session validate_close_time
closed_row-valid is_uuid seconds row session h =
    rw (invalid_metadata-closed_row, parse_lifecycle-closed) (ground arith)

close_row-valid :
    (is_uuid : Text → Bool) (seconds : ℕ) (row : SessionMetadataRow) (session : SessionMetadata)
    → is_singleton row ≡ true
    → validate_session is_uuid row ≡ ok session
    → validate_session is_uuid (close_row (pos seconds) row)
      ≡ ok (record session { lifecycle = closed })
close_row-valid is_uuid seconds row session one h =
    rw one (closed_row-valid is_uuid seconds row session h)

module _ (is_uuid : Text → Bool) where
  pub ensure_active-ok :
      (db : Database) → SessionIs is_uuid active db → ensure_active sound is_uuid db ≡ (ok tt, db)
  unfolding ensure_active read_stored_session
  ensure_active-ok db s = ground (arith, s.stored, s.valid, s.tells)

  -- Closing an active session, at a time that fits an `i64`, succeeds when SQLite does: the session
  -- is closed then, and the inodes are as they were.
  pub close-SessionIs :
      (db : Database) (now : ℕ)
      → SessionIs is_uuid active db
      → now ≤ i64_max
      → let after = close sound is_uuid (some now) db in
        (after.0 ≡ ok tt) × SessionIs is_uuid closed after.1 × (after.1.inodes ≡ db.inodes)
  unfolding close close_body now_seconds with_transaction
  close-SessionIs db now s fits =
      let (found, one) = find-close_row (pos now) db.session_metadata s.row s.stored in
      rw (le→leb now i64_max fits, ensure_active-ok db s)
        (
          refl,
          record {
            row = close_row (pos now) s.row;
            session = record s.session { lifecycle = closed };
            stored = found;
            valid = close_row-valid is_uuid now s.row s.session one s.valid;
            tells = refl;
          },
          refl,
        )

  -- The closing keeps the version of the schema.
  pub close-versioned :
      (db : Database) (now : ℕ)
      → SessionIs is_uuid active db
      → now ≤ i64_max
      → (close sound is_uuid (some now) db).1.user_version ≡ db.user_version
  unfolding close close_body now_seconds with_transaction
  close-versioned db now s fits = rw (le→leb now i64_max fits, ensure_active-ok db s) refl
