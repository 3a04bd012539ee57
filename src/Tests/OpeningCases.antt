-- ===== src/Tests/OpeningCases.antt =====
-- crates/rfs-common/src/session.rs: an opening at concrete inputs.
use remotefs.Base.{◌≡◌, refl, true, false, none, some, ok, err, [], ◌∷◌, arith}
use remotefs.Base.Text.{Text, codes}
use remotefs.Session.Types.{SessionError}
use remotefs.Session.Store.Database.{empty_database}
use remotefs.Session.Facade
use remotefs.Session.Facade.{Session, Environment}
use remotefs.Session.Home.{Home, layout_of}
use remotefs.Session.Opening.{open_session, inspect}
use remotefs.Session.Exclusive.{IsUntouched, open_session-IsUntouched}
use remotefs.Session.Retained.{flawless, reliable, saved, open_session-inspect}
use remotefs.Daemon.Types.{SessionInfo}
use remotefs.Tests.Data.{mnt-utf8, abc_digest, abc_digest-IsValid, an_environment}

abbrev an_id : Text
an_id = codes "id"

-- A home with a session that another process owns.
abbrev owned_home : Home
owned_home = record {
  is_there = true;
  lock_owner = some 9;
  lock_record = some (record { session_id = codes "other"; pid = 9 });
  cache = some ((codes "f", codes "x") ∷ []);
  session = some (record { stored = some empty_database; has_overlay = true });
}

-- The same after its owner has gone.
abbrev left_home : Home
left_home = record owned_home { lock_owner = none }

open_session-IsUntouched_example :
    let after =
      open_session flawless an_environment abc_digest
        (codes "/mnt")
        an_id
        7
        (some 5)
        (some true)
        owned_home in
    ((e : SessionError) × (after.0 ≡ err e)) × IsUntouched owned_home after.1
open_session-IsUntouched_example =
    open_session-IsUntouched flawless an_environment abc_digest (codes "/mnt") an_id 7 (some 5)
      (some true) owned_home 9 refl

open_session-inspect_example :
    (s : Session) × (after : Home) × (open_session flawless
        (reliable an_environment)
        abc_digest
        (codes "/mnt")
        an_id
        7
        (some 5)
        (some true)
        left_home
      ≡ (ok s, after))
    × (inspect (reliable an_environment) (codes "/h") after
        ≡ ok (
            some (record {
              root_digest = abc_digest;
              mountpoint = codes "/mnt";
              daemon_pid = 7;
              control_endpoint = (layout_of (codes "/h")).control_endpoint;
              is_closed = false;
            })))
    × ((Facade.close (reliable an_environment) (some 6) s).0 ≡ ok tt)
    × (info : SessionInfo) × (inspect
          (reliable an_environment)
          (codes "/h")
          (saved (Facade.close (reliable an_environment) (some 6) s).1.db after)
        ≡ ok (some info))
    × (info.is_closed ≡ true)
open_session-inspect_example =
    open_session-inspect an_environment abc_digest (codes "/mnt") an_id 7 5 refl (omega arith)
      (omega arith) abc_digest-IsValid (omega arith) (omega arith) mnt-utf8 left_home refl
      (codes "/h") 6 (omega arith)
