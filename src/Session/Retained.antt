-- ===== src/Session/Retained.antt =====
-- crates/rfs-common/src/session.rs: what `inspect` tells of a session that was opened, and then closed.
use remotefs.Base.{
  ℕ, ◌≡◌, refl, Bool, Bool-cases, true, false, Option, none, some, Result, map_err, ok, err, inl,
  inr, [], ◌≤◌, ◌<◌, ap, ◌∙◌, ◌^◌,
}
use remotefs.Base.Int.{i64_max, InI64}
use remotefs.Base.Utf8.{to_str}
use remotefs.Base.Text.{Text}
use remotefs.Base.State.{resume, pure}
use remotefs.Digest.{Digest}
use remotefs.Digest.Validity.{IsValid}
use remotefs.Session.Types.{SessionError, context, closed, active}
use remotefs.Session.Cache.{Files}
use remotefs.Session.Store.Database.{Database, Sql, empty_database}
use remotefs.Session.Store.Operations
use remotefs.Session.Store.Operations.{schema_version}
use remotefs.Session.Store.Lifecycle.{SessionIs}
use remotefs.Session.Store.Closing.{sound, close-SessionIs, close-versioned}
use remotefs.Session.Store.Creation.{
  create-first_database, first_database, first_session, first_row, first_row-valid,
}
use remotefs.Session.Facade
use remotefs.Session.Facade.{Session, Environment}
use remotefs.Session.Home.{
  Home, System, SessionDirectory, LockRecord, layout_of, validate_mountpoint, ensure_writable_home,
  acquire, write_record, remove_if_present, create_session_directory, create_empty_file, open_cache,
  open_overlay, in_session,
}
use remotefs.Session.Opening.{
  open_database, create_store, open_locked, open_session, inspect, inspect_store,
}
use remotefs.Daemon.Types.{SessionInfo}

-- No call fails.
abbrev pub flawless : System
flawless = record { fails = λ c. false; leftover = λ d. some d }

abbrev pub reliable : Environment → Environment
reliable env = record env { fault = sound }

-- The database of the session is the file in its directory.
abbrev pub saved : Database → Home → Home
saved db h = in_session flawless (λ d. record d { stored = some db }) h

abbrev cached : Option Files → Files
cached none = []
cached (some files) = files

abbrev fresh : Database → Files → Session
fresh db cache = record {
  db = db;
  cache = cache;
  overlay = [];
  counters = record {
    directory_downloads = 0;
    directory_cache_hits = 0;
    file_downloads = 0;
    file_cache_hits = 0;
  };
}

create_store-ok :
    (env : Environment) (create : Sql (Unit {0})) (db db' : Database) (h : Home) (o : Bool)
    → create db ≡ (ok tt, db')
    → h.session ≡ some (record { stored = some db; has_overlay = o })
    → create_store flawless (reliable env) create h
      ≡ (ok db', record h { session = some (record { stored = some db'; has_overlay = o }) })
unfolding create_store open_database
create_store-ok env create db db' h o made there = rw there (
    ap
      (λ (r : Result SessionError (Unit {0}) × Database). (
        elim r.0 [ ok _ ↦ ok r.1 | err e ↦ err e ],
        record h { session = some (record { stored = some r.1; has_overlay = o }) },
      ))
      made)

module _ (env : Environment) (d : Digest) (mountpoint session_id : Text) (pid now : ℕ)
    (uuid : env.is_uuid session_id ≡ true) (some_pid : 0 < pid) (small : pid < 2 ^ 32)
    (valid : IsValid d) (fits : InI64 d.size_bytes) (late : now ≤ i64_max)
    (utf8 : to_str mountpoint ≡ some mountpoint) where
  abbrev opened_database : Database
  opened_database = first_database session_id pid d mountpoint now

  abbrev taken_home : Option LockRecord → Option Files → Option SessionDirectory → Home
  taken_home lock_record cache session = record {
    is_there = true;
    lock_owner = some pid;
    lock_record = lock_record;
    cache = cache;
    session = session;
  }

  abbrev opened_home : Option Files → Home
  opened_home cache =
      taken_home (some (record { session_id = session_id; pid = pid })) (some (cached cache))
        (some (record { stored = some opened_database; has_overlay = true }))

  create_store-first :
      (files : Files)
      → create_store flawless
          (reliable env)
          (Operations.create sound env.is_uuid session_id pid d mountpoint (some now))
          (taken_home
            (some (record { session_id = session_id; pid = pid }))
            (some files)
            (some (record { stored = some empty_database; has_overlay = true })))
        ≡ (ok opened_database, opened_home (some files))
  create_store-first files =
      create_store-ok env
        (Operations.create sound env.is_uuid session_id pid d mountpoint (some now)) empty_database
        opened_database
        (taken_home (some (record { session_id = session_id; pid = pid })) (some files)
          (some (record { stored = some empty_database; has_overlay = true })))
        true
        (create-first_database session_id pid d mountpoint now env.is_uuid uuid some_pid valid fits
          late utf8)
        refl

  -- The last step, on what the store comes to.
  abbrev finished : Files → Result SessionError Database × Home → Result SessionError Session × Home
  finished files r = resume (map_err context r.0) (λ db. pure (fresh db files)) r.1

  open_locked-ok :
      (lock_record : Option LockRecord) (cache : Option Files) (session : Option SessionDirectory)
      → open_locked flawless
          (reliable env)
          d
          mountpoint
          session_id
          pid
          (some now)
          (taken_home lock_record cache session)
        ≡ (ok (fresh opened_database (cached cache)), opened_home cache)
  unfolding open_locked write_record remove_if_present create_session_directory create_empty_file
      open_cache open_overlay
  open_locked-ok lock_record none none = ap (finished []) (create_store-first [])
  open_locked-ok lock_record none (some directory) = ap (finished []) (create_store-first [])
  open_locked-ok lock_record (some files) none = ap (finished files) (create_store-first files)
  open_locked-ok lock_record (some files) (some directory) =
      ap (finished files) (create_store-first files)

  opened :
      (h : Home)
      → h.lock_owner ≡ none
      → open_session flawless (reliable env) d mountpoint session_id pid (some now) (some true) h
        ≡ (ok (fresh opened_database (cached h.cache)), opened_home h.cache)
  unfolding open_session ensure_writable_home acquire validate_mountpoint
  opened h free = elim (Bool-cases h.is_there) [
    | inl there ↦ rw (there, free, open_locked-ok h.lock_record h.cache h.session) refl
    | inr missing ↦ rw (missing, free, open_locked-ok h.lock_record h.cache h.session) refl
  ]

  abbrev pub info_of : Text → SessionInfo
  info_of home = record {
    root_digest = d;
    mountpoint = mountpoint;
    daemon_pid = pid;
    control_endpoint = (layout_of home).control_endpoint;
    is_closed = false;
  }

  opened-inspect :
      (home : Text) (cache : Option Files)
      → inspect (reliable env) home (opened_home cache) ≡ ok (some (info_of home))
  unfolding inspect inspect_store open_database Operations.inspect
      Operations.validate_schema_version Operations.read_stored_session first_database first_session
  opened-inspect home cache =
      rw
        (first_row-valid session_id pid d mountpoint now env.is_uuid uuid some_pid valid fits late
          utf8 small)
        refl

  closed-inspect :
      (home : Text) (cache : Option Files) (db : Database)
      → SessionIs env.is_uuid closed db
      → db.user_version ≡ schema_version
      → (info : SessionInfo) × (inspect (reliable env) home (saved db (opened_home cache))
          ≡ ok (some info))
        × (info.is_closed ≡ true)
  unfolding inspect inspect_store open_database Operations.inspect
      Operations.validate_schema_version Operations.read_stored_session
  closed-inspect home cache db is_closed versioned =
      rw (versioned, is_closed.stored, is_closed.valid, is_closed.tells) (_, refl, refl)

  first_database-active : SessionIs env.is_uuid active opened_database
  unfolding first_database first_session first_row
  first_database-active = record {
    row = first_row session_id pid d mountpoint now;
    session = first_session session_id pid d mountpoint now;
    stored = refl;
    valid =
        first_row-valid session_id pid d mountpoint now env.is_uuid uuid some_pid valid fits late
          utf8 small;
    tells = refl;
  }

  first_version : opened_database.user_version ≡ schema_version
  unfolding first_database
  first_version = refl

  -- Where no call fails and the lock is free, `open` succeeds whatever it finds in the home. `inspect`
  -- then tells the facts of that session, as one that is not closed, and, once `close` has succeeded,
  -- tells that it is closed. The identity is a UUID, the process is a `u32` other than 0, the
  -- mountpoint is UTF-8, and the digest is valid; its size and the times fit an `i64`.
  pub open_session-inspect :
      (h : Home)
      → h.lock_owner ≡ none
      → (home : Text) (later : ℕ) → later ≤ i64_max
      → (s : Session) × (after : Home) × (open_session flawless
            (reliable env)
            d
            mountpoint
            session_id
            pid
            (some now)
            (some true)
            h
          ≡ (ok s, after))
        × (inspect (reliable env) home after ≡ ok (some (info_of home)))
        × ((Facade.close (reliable env) (some later) s).0 ≡ ok tt)
        × (info : SessionInfo) × (inspect
              (reliable env)
              home
              (saved (Facade.close (reliable env) (some later) s).1.db after)
            ≡ ok (some info))
        × (info.is_closed ≡ true)
  unfolding Facade.close
  open_session-inspect h free home later fits_later =
      let (succeeds, is_closed, _) =
        close-SessionIs env.is_uuid opened_database later first_database-active fits_later in
      let versioned =
        close-versioned env.is_uuid opened_database later first_database-active fits_later in
      let db = (Operations.close sound env.is_uuid (some later) opened_database).1 in
      let told = closed-inspect home h.cache db is_closed (versioned ∙ first_version) in
      (
        fresh opened_database (cached h.cache),
        opened_home h.cache,
        opened h free,
        opened-inspect home h.cache,
        succeeds,
        told.0,
        told.1,
        told.2,
      )
