-- ===== src/Cli/Readiness.antt =====
-- crates/rfs/src/cli.rs: `rfs mount` waits until the daemon is ready.
use remotefs.Base.{◌≡◌, refl, ◌⊎◌, inl, inr, Bool, true, false, Option, some, none, List, [], ◌∷◌}
use remotefs.Base.{Result, ok, err, arith, Bool-cases, ==_iff, nat_eq, list_eq}
use remotefs.Base.Text.{Text}
use remotefs.Digest.{Digest}
use remotefs.Digest.Verify.{digest_beq_iff}
use remotefs.Daemon.Client.{SessionStatus}
use remotefs.Cli.Types.{CliError}
use remotefs.Cli.Mount.{Poll, Effects, Command, is_requested, turn, wait_for_daemon_ready}
use remotefs.Base.{subst}

module _ (digest : Digest) (mountpoint : Text) where
  -- The child has exited by itself at some turn, or could not be inspected.
  abbrev pub Lost : List Poll → Type 0
  Lost [] = ⊥
  Lost (poll ∷ polls) = ((poll.has_exited ≡ none) ⊎ (poll.has_exited ≡ some true)) ⊎ Lost polls

  abbrev Requested : Effects → Result CliError SessionStatus × Effects → Type 0
  Requested e (ok status, after) =
      (status.root_digest ≡ digest) × (status.mountpoint ≡ mountpoint) × (after ≡ e)
  Requested e (err error, after) = Unit

  turn-Requested :
      (exited : Option Bool) (probe : Option SessionStatus) (is_late : Bool)
      (again : Command SessionStatus) (e : Effects)
      → Requested e (again e)
      → Requested e (turn digest mountpoint exited probe is_late again e)
  unfolding turn is_requested
  turn-Requested none probe is_late again e h = tt
  turn-Requested (some true) probe is_late again e h = tt
  turn-Requested (some false) (some status) is_late again e h =
      ground (arith, digest_beq_iff status.root_digest digest, ==_iff status.mountpoint mountpoint)
  turn-Requested (some false) none true again e h = tt
  turn-Requested (some false) none false again e h = h

  ready-Requested :
      (polls : List Poll) (e : Effects)
      → Requested e (wait_for_daemon_ready digest mountpoint polls e)
  unfolding wait_for_daemon_ready
  ready-Requested [] e = tt
  ready-Requested (poll ∷ polls) e =
      turn-Requested poll.has_exited poll.probe poll.is_late
        (wait_for_daemon_ready digest mountpoint polls) e (ready-Requested polls e)

  -- A failure has sent the child a kill, or the child was lost.
  abbrev Reaped : Type 0 → Result CliError SessionStatus × Effects → Type 0
  Reaped lost (ok status, after) = Unit
  Reaped lost (err error, after) = (after.killed ≡ true) ⊎ lost

  Reaped-weaken :
      (lost lost' : Type 0) (x : Result CliError SessionStatus × Effects)
      → (lost → lost')
      → Reaped lost x
      → Reaped lost' x
  Reaped-weaken lost lost' (ok status, after) f h = tt
  Reaped-weaken lost lost' (err error, after) f (inl killed) = inl killed
  Reaped-weaken lost lost' (err error, after) f (inr l) = inr (f l)

  turn-Reaped :
      (exited : Option Bool) (probe : Option SessionStatus) (is_late : Bool)
      (again : Command SessionStatus) (e : Effects) (lost : Type 0)
      → Reaped lost (again e)
      → ((exited ≡ none) ⊎ (exited ≡ some true) → lost)
      → Reaped lost (turn digest mountpoint exited probe is_late again e)
  unfolding turn
  turn-Reaped none probe is_late again e lost h l = inr (l (inl refl))
  turn-Reaped (some true) probe is_late again e lost h l = inr (l (inr refl))
  turn-Reaped (some false) (some status) is_late again e lost h l =
      elim (Bool-cases (is_requested digest mountpoint status)) [
        | inl same ↦ rw same tt
        | inr other ↦ rw other (inl refl)
      ]
  turn-Reaped (some false) none true again e lost h l = inl refl
  turn-Reaped (some false) none false again e lost h l = h

  ready-Reaped :
      (polls : List Poll) (e : Effects)
      → Reaped (Lost polls) (wait_for_daemon_ready digest mountpoint polls e)
  unfolding wait_for_daemon_ready
  ready-Reaped [] e = inl refl
  ready-Reaped (poll ∷ polls) e =
      let again = wait_for_daemon_ready digest mountpoint polls in
      turn-Reaped poll.has_exited poll.probe poll.is_late again e (Lost (poll ∷ polls))
        (Reaped-weaken (Lost polls) (Lost (poll ∷ polls)) (again e) (λ l. inr l)
          (ready-Reaped polls e))
        (λ l. inl l)

  -- `rfs mount` reports a daemon as ready only when the daemon answers with the root digest and the
  -- mountpoint that were asked for, and leaves it alone then.
  wait_for_daemon_ready-ok :
      (polls : List Poll) (e after : Effects) (status : SessionStatus)
      → wait_for_daemon_ready digest mountpoint polls e ≡ (ok status, after)
      → (status.root_digest ≡ digest) × (status.mountpoint ≡ mountpoint) × (after ≡ e)
  wait_for_daemon_ready-ok polls e after status h = subst (Requested e) h (ready-Requested polls e)

  -- When the wait for readiness fails, the child has been sent a kill and waited for, unless it had
  -- exited by itself at some turn or could not be inspected.
  pub wait_for_daemon_ready-err :
      (polls : List Poll) (e after : Effects) (error : CliError)
      → wait_for_daemon_ready digest mountpoint polls e ≡ (err error, after)
      → (after.killed ≡ true) ⊎ Lost polls
  wait_for_daemon_ready-err polls e after error h =
      subst (Reaped (Lost polls)) h (ready-Reaped polls e)
