-- ===== src/Daemon/Serve.antt =====
-- crates/rfsd/src/control_service.rs: `serve`, as steps of a daemon. The handlers that only read, and
-- the refused requests, leave it as it is.
use remotefs.Base.{ℕ, Bool, true, Option, none, some, List, [], ◌∷◌, Result}
use remotefs.Base.{◌≡◌}
use remotefs.Mount.Fuse.{Entry}
use remotefs.Mount.Serve.{Request, serve}
use remotefs.Session.Facade.{Environment}
use remotefs.Daemon.Types.{DaemonResources, ControlError}
use remotefs.Daemon.Control.{ControlService, shutdown, receive, detach_or_receive}
use remotefs.Daemon.Release.{World, Failures, release}

-- `serve` waits for resources, releases them, and has returned.
pub data Phase : Type 0 where
  serving : Phase
  releasing : DaemonResources → Phase
  stopped : Result ControlError (Unit {0}) → Phase

pub record Daemon : Type 0 where
  pub service : ControlService
  pub phase : Phase
  pub world : World

abbrev pub daemon : Option DaemonResources → List DaemonResources → Phase → World → Daemon
daemon resources channel phase world = record {
  service = record { resources = resources; channel = channel };
  phase = phase;
  world = world;
}

module _ (env : Environment) where
  -- Requests of the kernel that the mount answers, one after the other: what they make of the world.
  pub data Served (w : World) : World → Type 0 where
    unserved : Served w w
    answered :
        {v : World} (has_room : List Entry → Entry → Bool) (request : Request)
        → Served w v
        → Served w (record v { session = (serve env has_room request v.session).1 })

  -- A request of the kernel, while the filesystem is mounted; a request to shut down, at any time; the
  -- first arm of the `select`; the two others, a signal or the
  -- exit of the server; and the release.
  pub data Step (d : Daemon) (d' : Daemon) : Type 0 where
    kernel :
        (has_room : List Entry → Entry → Bool) (request : Request)
        → d.world.is_mounted ≡ true
        → d' ≡ record d {
          world = record d.world { session = (serve env has_room request d.world.session).1 };
        }
        → Step d d'
    request : (version : ℕ) → d' ≡ record d { service = (shutdown version d.service).1 } → Step d d'
    handed_over :
        (r : DaemonResources) (service : ControlService)
        → d.phase ≡ serving
        → receive d.service ≡ some (r, service)
        → d' ≡ record d { service = service; phase = releasing r }
        → Step d d'
    interrupted :
        (r : DaemonResources) (service : ControlService)
        → d.phase ≡ serving
        → detach_or_receive d.service ≡ some (r, service)
        → d' ≡ record d { service = service; phase = releasing r }
        → Step d d'
    released :
        (r : DaemonResources) (now : Option ℕ) (failures : Failures)
        → d.phase ≡ releasing r
        → d' ≡ record d {
          phase = stopped (release env now failures d.world).0;
          world = (release env now failures d.world).1;
        }
        → Step d d'

  pub data Reach (s : Daemon) : Daemon → Type 0 where
    here : Reach s s
    next : {t u : Daemon} → Reach s t → Step t u → Reach s u

  -- Where the resources are: in the slot, in the channel, with `serve`, in a world that only requests of
  -- the kernel have changed; or released in such a world, `v`, which left `u` and the result.
  pub data Place (r : DaemonResources) (w : World) (d : Daemon) : Type 0 where
    in_slot : (v : World) → Served w v → d ≡ daemon (some r) [] serving v → Place r w d
    in_channel : (v : World) → Served w v → d ≡ daemon none (r ∷ []) serving v → Place r w d
    with_serve : (v : World) → Served w v → d ≡ daemon none [] (releasing r) v → Place r w d
    gone :
        (now : Option ℕ) (failures : Failures) (v u : World)
        → Served w v
        → Served (release env now failures v).1 u
        → d ≡ daemon none [] (stopped (release env now failures v).0) u
        → Place r w d
