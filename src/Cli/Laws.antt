-- ===== src/Cli/Laws.antt =====
-- crates/rfs/src/cli.rs: what the commands guarantee.
use remotefs.Base.{
  ◌≡◌, refl, ap, ◌∙◌, ◌↔◌, inl, inr, Bool, true, false, Option, some, none, [], ◌∷◌, ◌++◌,
}
use remotefs.Base.{
  Result, ok, err, map_err, >>=-eq-ok, map_err-eq-ok, arith, Bool-cases, nat_eq, list_eq,
}
use remotefs.Base.Text.{Text, strip_prefix, codes}
use remotefs.Digest.{Digest}
use remotefs.Session.Types.{context}
use remotefs.Daemon.Types.{SessionInfo}
use remotefs.Daemon.Client.{ClientError, is_unavailable, SessionStatus}
use remotefs.Cas.Names.{endpoint_from_grpc_url}
use remotefs.Cli.Types.{CliError, command_failed, session_active, client_error, state_error}
use remotefs.Cli.Settings.{validate_cas_url}
use remotefs.Cli.Mount.{
  System, Effects, no_effects, create_home, ensure_no_active_daemon, start_failure, run_mount,
}
use remotefs.Cli.Exit.{ExitsInTime, wait_for_process_exit-ExitsInTime}
use remotefs.Base.{not, ◌&&◌}
use remotefs.Cli.Unmount.{Calls, wait_for_process_exit, finish_unmount, run_unmount}

endpoint-of_prefix :
    (url : Text) (rest : Option Text)
    → strip_prefix (codes "grpc://") url ≡ rest
    → (validate_cas_url url ≡ ok tt)
      ↔ ((endpoint : Text) × (endpoint_from_grpc_url url ≡ ok endpoint))
unfolding validate_cas_url endpoint_from_grpc_url
endpoint-of_prefix url none e = rw e (λ h. cc, λ (endpoint, h). cc)
endpoint-of_prefix url (some []) e = rw e (λ h. cc, λ (endpoint, h). cc)
endpoint-of_prefix url (some (c ∷ rest)) e =
    rw e (λ h. (codes "http://" ++ (c ∷ rest), refl), λ h. refl)

-- The command line accepts a CAS URL exactly when the CAS client makes an endpoint of it.
validate_cas_url-endpoint :
    (url : Text)
    → (validate_cas_url url ≡ ok tt)
      ↔ ((endpoint : Text) × (endpoint_from_grpc_url url ≡ ok endpoint))
validate_cas_url-endpoint url = endpoint-of_prefix url (strip_prefix (codes "grpc://") url) refl

-- The step fails with an error and no effects, whatever was done before.
abbrev Harmless : {A : Type 0} → (Effects → Result CliError A × Effects) → Type 0
Harmless m = (e : CliError) × ((before : Effects) → m before ≡ (err e, before))

ensure-Harmless :
    (system : System) (r : Result ClientError SessionStatus)
    → system.active ≡ r
    → ((e : ClientError) → system.active ≡ err e → is_unavailable e ≡ false)
    → Harmless (ensure_no_active_daemon system)
unfolding ensure_no_active_daemon
ensure-Harmless system (ok status) e answered = rw e (command_failed session_active, λ before. refl)
ensure-Harmless system (err error) e answered =
    rw (e, answered error e) (client_error error, λ before. refl)

-- `rfs mount` never touches the log of a daemon that is there, and starts and kills none beside it:
-- when the probe is answered, or fails otherwise than for an unavailable daemon, it fails, and has at
-- most created the home, where that was missing and could be created.
pub run_mount-active :
    (digest : Digest) (mountpoint : Text) (system : System)
    → ((e : ClientError) → system.active ≡ err e → is_unavailable e ≡ false)
    → (e : CliError) × (run_mount digest mountpoint system no_effects ≡ (
      err e,
      record {
        created_home = not system.has_home && system.creates_home;
        truncated_log = false;
        spawned = false;
        killed = false;
      },
    ))
unfolding run_mount create_home
run_mount-active digest mountpoint system answered =
    let (e, fails) = ensure-Harmless system system.active refl answered in
    elim (Bool-cases system.has_home) [
      | inl here ↦ rw (here, fails no_effects) (e, refl)
      | inr missing ↦ elim (Bool-cases system.creates_home) [
        | inl made ↦ rw (missing, made, fails (record no_effects { created_home = true })) (e, refl)
        | inr refused ↦ rw (missing, refused) (start_failure, refl)
      ]
    ]

finish_unmount-ok :
    (exited : Bool) (status : SessionStatus) (found : Option SessionInfo) (mountpoint : Text)
    → finish_unmount exited status found ≡ ok mountpoint
    → (session : SessionInfo) × (found ≡ some session)
      × (exited ≡ true)
      × (session.is_closed ≡ true)
      × (status.mountpoint ≡ mountpoint)
finish_unmount-ok true status none mountpoint h = cc
finish_unmount-ok false status found mountpoint h = cc
finish_unmount-ok true status (some session) mountpoint h =
    (session, refl, refl, ground arith, ground arith)

-- `rfs unmount` reports success exactly when the daemon was reached, told its status and accepted the
-- shutdown, when its process was gone at some check with no earlier check late (the number is no
-- `pid_t`, or `kill` failed with ESRCH), and when the session that it left is closed.
pub run_unmount-eq-ok :
    (calls : Calls) (mountpoint : Text)
    → (run_unmount calls ≡ ok mountpoint) ↔ (
        (status : SessionStatus) × (session : SessionInfo) × (calls.connected ≡ ok tt)
        × (calls.status ≡ ok status)
        × (calls.shutdown ≡ ok tt)
        × ExitsInTime status.daemon_pid calls.checks
        × (calls.inspected ≡ ok (some session))
        × (session.is_closed ≡ true)
        × (status.mountpoint ≡ mountpoint))
unfolding run_unmount
run_unmount-eq-ok calls mountpoint = (
  λ h.
      let (_, e1, h1) = >>=-eq-ok (map_err client_error calls.connected) _ h in
      let (status, e2, h2) = >>=-eq-ok (map_err client_error calls.status) _ h1 in
      let (_, e3, h3) = >>=-eq-ok (map_err client_error calls.shutdown) _ h2 in
      let (found, e4, h4) =
        >>=-eq-ok (map_err state_error (map_err context calls.inspected)) _ h3 in
      let (session, some_session, exited, is_closed, same) =
        finish_unmount-ok (wait_for_process_exit status.daemon_pid calls.checks) status found
          mountpoint h4 in
      (
        status,
        session,
        map_err-eq-ok client_error calls.connected e1,
        map_err-eq-ok client_error calls.status e2,
        map_err-eq-ok client_error calls.shutdown e3,
        (wait_for_process_exit-ExitsInTime status.daemon_pid calls.checks).0 exited,
        map_err-eq-ok context calls.inspected
              (map_err-eq-ok state_error (map_err context calls.inspected) e4)
            ∙ ap (λ (x : Option SessionInfo). ok x) some_session,
        is_closed,
        same,
      ),
  λ (status, session, e1, e2, e3, exited, e4, is_closed, same).
      let waited = (wait_for_process_exit-ExitsInTime status.daemon_pid calls.checks).1 exited in
      rw (e1, e2, e3, e4, waited, is_closed) (ap (λ (t : Text). ok t) same),
)
