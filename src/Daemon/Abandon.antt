-- ===== src/Daemon/Abandon.antt =====
-- crates/rfsd/src/lib.rs: a start that fails leaves nothing behind.
use remotefs.Base.{
  ◌≡◌, refl, true, false, Option, Option-cases, none, Result, ok, err, arith, inl, inr, sym, ◌∙◌,
}
use remotefs.Base.Text.{Text}
use remotefs.Base.State.{and_then, lift}
use remotefs.Base.{map_err, ok_or}
use remotefs.Cli.Settings.{rfs_home}
use remotefs.Session.Types.{SessionError}
use remotefs.Digest.{Digest, from_str}
use remotefs.Session.Facade.{Session, Environment}
use remotefs.Session.Home.{Home, System}
use remotefs.Session.Opening.{open_session}
use remotefs.Session.Exclusive.{open_session-err, open_session-IsUntouched}
use remotefs.Daemon.Types.{SessionInfo, DaemonResources}
use remotefs.Daemon.Arguments.{StartError, invalid_digest, missing_home, Cli, connect_cas}
use remotefs.Daemon.Start.{
  Start, Calls, Machine, bind_control_socket, start_session, dropping, with_session,
  construct_daemon,
}

-- What a start that failed leaves, where the machine had no mount and no socket.
pub record IsAbandoned (m after : Machine) : Type 0 where
  pub same_lock : after.home.lock_owner ≡ m.home.lock_owner
  pub not_mounted : after.is_mounted ≡ false
  pub no_socket : after.has_socket ≡ false

module _ (environment : Environment) (calls : Calls) where
  start_session-no_socket :
      (info : SessionInfo) (s : Session) (m : Machine) (e : StartError)
      → calls.removes ≡ true
      → m.has_socket ≡ false
      → (start_session environment calls info s m).0 ≡ err e
      → (start_session environment calls info s m).1.has_socket ≡ false
  unfolding start_session bind_control_socket
  start_session-no_socket info s m e removes none_before failed = ground arith

  dropped :
      (info : SessionInfo) (m : Machine)
      (x : Result StartError (DaemonResources × Session) × Machine) (e : StartError)
      → (dropping environment calls x).0 ≡ err e
      → (x.0 ≡ err e)
        × ((dropping environment calls x).1.home.lock_owner ≡ none)
        × ((dropping environment calls x).1.is_mounted ≡ false)
        × ((dropping environment calls x).1.has_socket ≡ x.1.has_socket)
  dropped info m (ok r, m') e failed = cc
  dropped info m (err e', m') e failed = (failed, refl, refl, refl)

  -- A step that fails leaves the machine as a failed start does.
  abbrev Abandons : {A : Type 0} → Start A → Type 0
  Abandons step =
      (m : Machine) (e : StartError)
      → m.is_mounted ≡ false
      → m.has_socket ≡ false
      → (step m).0 ≡ err e
      → IsAbandoned m (step m).1

  lift-Abandons :
      {A B : Type 0} (r : Result StartError A) (next : A → Start B)
      → ((a : A) → Abandons (next a))
      → Abandons (and_then (lift r) next)
  lift-Abandons (ok a) next h m e mounted bound failed = h a m e mounted bound failed
  lift-Abandons (err e') next h m e mounted bound failed = record {
    same_lock = refl;
    not_mounted = mounted;
    no_socket = bound;
  }

  with_session-IsAbandoned :
      (info : SessionInfo) (m : Machine) (x : Result SessionError Session × Home) (e : StartError)
      → calls.removes ≡ true
      → m.is_mounted ≡ false
      → m.has_socket ≡ false
      → ((error : SessionError) → x.0 ≡ err error → x.1.lock_owner ≡ m.home.lock_owner)
      → ((s : Session) → x.0 ≡ ok s → m.home.lock_owner ≡ none)
      → (with_session environment calls info m x).0 ≡ err e
      → IsAbandoned m (with_session environment calls info m x).1
  with_session-IsAbandoned info m (err error, home) e removes mounted bound kept free failed =
      record { same_lock = kept error refl; not_mounted = mounted; no_socket = bound }
  with_session-IsAbandoned info m (ok s, home) e removes mounted bound kept free failed =
      let started = start_session environment calls info s (record m { home = home }) in
      let (why, lock, mount, same_socket) = dropped info m started e failed in
      record {
        same_lock = lock ∙ sym (free s refl);
        not_mounted = mount;
        no_socket =
            same_socket
            ∙ start_session-no_socket info s (record m { home = home }) e removes bound why;
      }

  module _ (env : Text → Option Text) (system : System) where
    opened_free :
        (d : Digest) (mountpoint : Text) (h : Home) (s : Session)
        → (open_session system environment d mountpoint calls.session_id calls.pid calls.now
            calls.is_dir h).0
          ≡ ok s
        → h.lock_owner ≡ none
    opened_free d mountpoint h s opened = elim (Option-cases h.lock_owner) [
      | inl free ↦ free
      | inr (owner, held) ↦
          let ((e, refused), _) =
            open_session-IsUntouched system environment d mountpoint calls.session_id calls.pid
              calls.now calls.is_dir h owner held in
          absurd cc
    ]

    -- A start that fails, at whatever step, leaves nothing behind: no mount, no socket, and the lock of
    -- the home as it found it. The machine had no mount and no socket, and a socket that was bound can
    -- be removed.
    pub construct_daemon-IsAbandoned :
        (cli : Cli) (m : Machine) (e : StartError)
        → calls.removes ≡ true
        → m.is_mounted ≡ false
        → m.has_socket ≡ false
        → (construct_daemon environment calls env system cli m).0 ≡ err e
        → IsAbandoned m (construct_daemon environment calls env system cli m).1
    unfolding construct_daemon
    construct_daemon-IsAbandoned cli m e removes mounted bound =
        lift-Abandons (map_err invalid_digest (from_str cli.root_digest)) _
          (λ d. lift-Abandons (connect_cas env calls.connects cli) _ (λ config.
            lift-Abandons (ok_or missing_home (rfs_home env)) _ (λ home m e mounted bound failed.
              with_session-IsAbandoned _ m
                (open_session system environment d cli.mountpoint calls.session_id calls.pid
                  calls.now calls.is_dir m.home)
                e removes mounted bound
                (open_session-err system environment d cli.mountpoint calls.session_id calls.pid
                  calls.now calls.is_dir m.home)
                (opened_free d cli.mountpoint m.home) failed)))
          m e mounted bound
