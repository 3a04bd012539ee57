-- ===== src/Daemon/Order.antt =====
-- crates/rfsd/src/control_service.rs: the order of a release.
use remotefs.Base.{ℕ, ◌≡◌, refl, false, Option, ok, err, arith, inl, inr, Bool-cases, ◌⊎◌}
use remotefs.Session.Facade
use remotefs.Session.Facade.{Session, Environment}
use remotefs.Daemon.Types.{ControlError}
use remotefs.Daemon.Release.{World, Failures, unmount, close_session, remove_socket, release}

module _ (env : Environment) (now : Option ℕ) (failures : Failures) (w : World) where
  -- A release that succeeds has unmounted, has closed the session, and has left no socket.
  release-ok :
      (release env now failures w).0 ≡ ok tt
      → let after = (release env now failures w).1 in
        (after.is_mounted ≡ false)
        × ((Facade.close env now w.session).0 ≡ ok tt)
        × (after.session ≡ (Facade.close env now w.session).1)
        × (after.has_socket ≡ false)
  unfolding release unmount close_session remove_socket
  release-ok h = ground arith

  -- A release that fails leaves the socket as it was, and has not touched the session unless it has
  -- unmounted before: the session is never closed under a live mount.
  pub release-err :
      (e : ControlError)
      → (release env now failures w).0 ≡ err e
      → let after = (release env now failures w).1 in
        (after.has_socket ≡ w.has_socket) × ((after.is_mounted ≡ false) ⊎ (after ≡ w))
  unfolding release unmount close_session remove_socket
  release-err e h = elim (Bool-cases failures.unmount_join) [
    | inl broken ↦ rw broken (refl, inr refl)
    | inr joined ↦ ground arith
  ]
