-- ===== src/Daemon/Handover.antt =====
-- crates/rfsd/src/control_service.rs: the resources of a daemon are released once, by `serve`.
use remotefs.Base.{ℕ, Bool, true, List, Option, none, some, [], ◌∷◌, err}
use remotefs.Base.{
  ◌≡◌, refl, ◌≢◌, ◌∙◌, inl, inr, arith, is_some, sym, ap, subst, Bool-cases, ◌==◌, nat_eq,
}
use remotefs.Base.Text.{Text}
use remotefs.Mount.Fuse.{Entry}
use remotefs.Mount.Serve.{Request, serve}
use remotefs.Session.Facade.{Environment}
use remotefs.Daemon.Types.{unavailable, internal, DaemonResources, protocol_version}
use remotefs.Daemon.Control
use remotefs.Daemon.Control.{
  ControlService, shutdown, shutdown_active, hand_off, try_send, validate_protocol, receive,
  detach_or_receive, active_info, check_protocol, snapshot, shutting_down,
}
use remotefs.Daemon.Release.{World, Failures, release}
use remotefs.Daemon.Serve.{
  Served, unserved, answered, kernel, Phase, serving, releasing, stopped, Daemon, daemon, Step,
  request, handed_over, interrupted, released, Reach, here, next, Place, in_slot, in_channel,
  with_serve, gone,
}

module _ (env : Environment) (r : DaemonResources) (w : World) where
  -- The daemon's world after a request of the kernel.
  abbrev step_world : (List Entry → Entry → Bool) → Request → World → World
  step_world has_room q v = record v { session = (serve env has_room q v.session).1 }

  from_slot :
      (v : World)
      → Served env w v
      → (d : Daemon) → Step env (daemon (some r) [] serving v) d
      → Place env r w d
  unfolding shutdown receive detach_or_receive
  from_slot v h d (kernel has_room q m e) =
      in_slot (step_world has_room q v) (answered has_room q h) e
  from_slot v h d (request version e) = elim (Bool-cases (version == protocol_version)) [
    | inl same ↦ in_channel v h (ground arith)
    | inr other ↦ in_slot v h (ground arith)
  ]
  from_slot v h d (handed_over r' service p found e) = cc
  from_slot v h d (interrupted r' service p found e) = with_serve v h (ground arith)
  from_slot v h d (released r' now failures p e) = cc

  from_channel :
      (v : World)
      → Served env w v
      → (d : Daemon) → Step env (daemon none (r ∷ []) serving v) d
      → Place env r w d
  unfolding shutdown receive detach_or_receive
  from_channel v h d (kernel has_room q m e) =
      in_channel (step_world has_room q v) (answered has_room q h) e
  from_channel v h d (request version e) = in_channel v h e
  from_channel v h d (handed_over r' service p found e) = with_serve v h (ground arith)
  from_channel v h d (interrupted r' service p found e) = with_serve v h (ground arith)
  from_channel v h d (released r' now failures p e) = cc

  from_serve :
      (v : World)
      → Served env w v
      → (d : Daemon) → Step env (daemon none [] (releasing r) v) d
      → Place env r w d
  unfolding shutdown
  from_serve v h d (kernel has_room q m e) =
      with_serve (step_world has_room q v) (answered has_room q h) e
  from_serve v h d (request version e) = with_serve v h e
  from_serve v h d (handed_over r' service p found e) = cc
  from_serve v h d (interrupted r' service p found e) = cc
  from_serve v h d (released r' now failures p e) =
      gone now failures v (release env now failures v).1 h unserved (ground arith)

  from_gone :
      (v : World) (now : Option ℕ) (failures : Failures)
      → Served env w v
      → (u : World) → Served env (release env now failures v).1 u
      → (d : Daemon) → Step env (daemon none [] (stopped (release env now failures v).0) u) d
      → Place env r w d
  unfolding shutdown
  from_gone v now failures h u k d (kernel has_room q m e) =
      gone now failures v (step_world has_room q u) h (answered has_room q k) e
  from_gone v now failures h u k d (request version e) = gone now failures v u h k e
  from_gone v now failures h u k d (handed_over r' service p found e) = cc
  from_gone v now failures h u k d (interrupted r' service p found e) = cc
  from_gone v now failures h u k d (released r' later failures' p e) = cc

  Step-Place : (d d' : Daemon) → Place env r w d → Step env d d' → Place env r w d'
  Step-Place d d' (in_slot v h e) s = from_slot v h d' (subst (λ (x : Daemon). Step env x d') e s)
  Step-Place d d' (in_channel v h e) s =
      from_channel v h d' (subst (λ (x : Daemon). Step env x d') e s)
  Step-Place d d' (with_serve v h e) s =
      from_serve v h d' (subst (λ (x : Daemon). Step env x d') e s)
  Step-Place d d' (gone now failures v u h k e) s =
      from_gone v now failures h u k d' (subst (λ (x : Daemon). Step env x d') e s)

  -- However requests of the kernel and of the control socket, signals and the server's exit fall, the
  -- resources of a daemon are in one place: in the slot, in the channel, with `serve`, or released. They
  -- are released once, and before and after that only requests of the kernel change the world.
  pub Reach-Place : (d : Daemon) → Reach env (daemon (some r) [] serving w) d → Place env r w d
  Reach-Place d here = in_slot w unserved refl
  Reach-Place d (next {t} before step) = Step-Place t d (Reach-Place t before) step

  abbrev phase_of : Daemon → Phase
  phase_of d = d.phase

  -- A daemon that is reached while it serves never waits in vain for resources: `detach_or_receive`
  -- finds them at once, in the slot or in the channel. A request to shut it down is never answered with
  -- an internal error: the channel has room when the slot is not empty.
  pub Reach-handover :
      (d : Daemon)
      → Reach env (daemon (some r) [] serving w) d
      → d.phase ≡ serving
      → (version : ℕ)
      → (is_some (detach_or_receive d.service) ≡ true)
        × ((shutdown version d.service).0 ≢ err internal)
  unfolding detach_or_receive shutdown
  Reach-handover d reached serves version = elim (Reach-Place d reached) [
    | in_slot v h e ↦ rw e (refl, λ h. ground arith)
    | in_channel v h e ↦ rw e (refl, λ h. cc)
    | with_serve v h e ↦ absurd (let p = sym serves ∙ ap phase_of e in cc)
    | gone now failures v u h k e ↦ absurd (let p = sym serves ∙ ap phase_of e in cc)
  ]

  -- Once a daemon that is reached no longer serves, every endpoint answers `unavailable` to every
  -- version of the protocol, and a request to shut down changes nothing.
  pub Reach-unavailable :
      (d : Daemon)
      → Reach env (daemon (some r) [] serving w) d
      → d.phase ≢ serving
      → (version : ℕ) (replaced : Text → Text)
      → (check_protocol version d.service ≡ err unavailable)
        × (Control.status replaced version d.service ≡ err unavailable)
        × (snapshot version d.service ≡ err unavailable)
        × (shutdown version d.service ≡ (err unavailable, d.service))
  unfolding check_protocol Control.status snapshot shutdown active_info
  Reach-unavailable d reached not_serving version replaced = elim (Reach-Place d reached) [
    | in_slot v h e ↦ absurd (not_serving (ap phase_of e))
    | in_channel v h e ↦ absurd (not_serving (ap phase_of e))
    | with_serve v h e ↦ rw e (refl, refl, refl, refl)
    | gone now failures v u h k e ↦ rw e (refl, refl, refl, refl)
  ]
