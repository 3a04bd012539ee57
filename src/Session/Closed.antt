-- ===== src/Session/Closed.antt =====
-- crates/rfs-common/src/session.rs: the methods of a session that is closed.
use remotefs.Base.{[], ℕ, ◌≡◌, refl, Result, err, arith}
use remotefs.Base.Text.{Text, codes}
use remotefs.Session.Types.{InodeId, closed}
use remotefs.Session.Action.{Action, ◌>>=◌}
use remotefs.Session.Store.Lifecycle.{SessionIs, closed-Refused}
use remotefs.Session.Store.Operations
use remotefs.Session.Facade.{Session, Environment, on_store, get_visible_inode, get_inode}
use remotefs.Session.Facade.{ensure_directory_loaded, lookup_child, list_directory, read_range}

-- The call returns an error and changes nothing.
abbrev pub Fails : {S E A : Type 0} → (S → Result E A × S) → S → Type 0
Fails {S} {E} m s = (e : E) × (m s ≡ (err e, s))

module _ {S A B : Type 0} where
  >>=-Fails : (m : Action S A) (f : A → Action S B) (s : S) → Fails m s → Fails (m >>= f) s
  >>=-Fails m f s (e, fails) = (e, rw fails refl)

module _ (env : Environment) (s : Session) (c : SessionIs env.is_uuid closed s.db) where
  get_visible_inode-Fails : (id : InodeId) → Fails (get_visible_inode env id) s
  unfolding get_visible_inode
  get_visible_inode-Fails id =
      let r =
        (closed-Refused env.fault env.is_uuid s.db id (codes "a") [] 0 c refl (omega arith)).0 in
      >>=-Fails (on_store (Operations.inode env.fault env.is_uuid id)) _ s
        (r.error, rw (r.fails) refl)

  ensure_directory_loaded-Fails : (id : InodeId) → Fails (ensure_directory_loaded env id) s
  unfolding ensure_directory_loaded
  ensure_directory_loaded-Fails id =
      >>=-Fails (get_visible_inode env id) _ s (get_visible_inode-Fails id)

  -- Once the session is closed every method that reads fails, and changes nothing.
  pub closed-Fails :
      (id : InodeId) (name : Text) (offset size : ℕ)
      → Fails (get_inode env id) s
        × Fails (lookup_child env id name) s
        × Fails (list_directory env id) s
        × Fails (read_range env id offset size) s
  unfolding get_inode lookup_child list_directory read_range
  closed-Fails id name offset size = (
    >>=-Fails (get_visible_inode env id) _ s (get_visible_inode-Fails id),
    >>=-Fails (ensure_directory_loaded env id) _ s (ensure_directory_loaded-Fails id),
    >>=-Fails (ensure_directory_loaded env id) _ s (ensure_directory_loaded-Fails id),
    >>=-Fails (get_visible_inode env id) _ s (get_visible_inode-Fails id),
  )
