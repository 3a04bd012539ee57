-- ===== src/Session/Exclusive.antt =====
-- crates/rfs-common/src/session.rs: an opening and the lock of the home.
use remotefs.Base.{
  ℕ, ◌≡◌, refl, Bool, Bool-cases, Option, Option-cases, none, some, Result, map_err, ◌⊎◌, ok, err,
  arith, inl, inr, sym, ◌∙◌,
}
use remotefs.Base.Text.{Text}
use remotefs.Base.State.{and_then, resume}
use remotefs.Digest.{Digest}
use remotefs.Session.Types.{SessionError, context, failed_precondition}
use remotefs.Session.Action.{Action, in_context}
use remotefs.Session.Facade.{Session, Environment}
use remotefs.Session.Home.{
  Home, System, validate_mountpoint, ensure_writable_home, acquire, open_lock, secure_lock,
}
use remotefs.Session.Opening.{open_locked, open_session, or_release}

-- Of the home, what an opening must not touch while another process holds the lock.
pub record IsUntouched (h after : Home) : Type 0 where
  pub same_session : after.session ≡ h.session
  pub same_cache : after.cache ≡ h.cache
  pub same_owner : after.lock_owner ≡ h.lock_owner
  pub same_record : after.lock_record ≡ h.lock_record

module _ (system : System) (env : Environment) (root_digest : Digest) (mountpoint session_id : Text)
    (pid : ℕ) (now : Option ℕ) where
  ensure_writable_home-IsUntouched : (h : Home) → IsUntouched h (ensure_writable_home system h).1
  unfolding ensure_writable_home
  ensure_writable_home-IsUntouched h = record {
    same_session = ground arith;
    same_cache = ground arith;
    same_owner = ground arith;
    same_record = ground arith;
  }

  -- The lock is taken when it is free and the calls succeed; nothing else is changed.
  acquire-cases :
      (h : Home)
      → ((e : SessionError) × (acquire system pid h ≡ (err e, h)))
        ⊎ ((h.lock_owner ≡ none)
            × (acquire system pid h ≡ (ok tt, record h { lock_owner = some pid })))
  unfolding acquire
  acquire-cases h = elim (Bool-cases (system.fails open_lock)) [
    | inl fails ↦ rw fails (inl (_, refl))
    | inr opens ↦ elim (Bool-cases (system.fails secure_lock)) [
      | inl fails ↦ rw (opens, fails) (inl (_, refl))
      | inr secures ↦ elim (Option-cases h.lock_owner) [
        | inl free ↦ rw (opens, secures, free) (inr (refl, refl))
        | inr (owner, held) ↦ rw (opens, secures, held) (inl (failed_precondition, refl))
      ]
    ]
  ]

  -- What follows the preparation of the home.
  abbrev after_preparation : Action Home Session
  after_preparation = and_then (in_context (acquire system pid)) (λ _ h.
      or_release system env (open_locked system env root_digest mountpoint session_id pid now h))

  abbrev LockedOut : Home → Result SessionError Session × Home → Type 0
  LockedOut h r = ((e : SessionError) × (r.0 ≡ err e)) × IsUntouched h r.1

  after_preparation-LockedOut :
      (h h' : Home) (owner : ℕ)
      → IsUntouched h h'
      → h.lock_owner ≡ some owner
      → LockedOut h (after_preparation h')
  after_preparation-LockedOut h h' owner same held = elim (acquire-cases h') [
    | inl (e, refused) ↦ rw refused ((context e, refl), same)
    | inr (free, taken) ↦ absurd (let p = sym free ∙ (same.same_owner ∙ held) in cc)
  ]

  resumed-LockedOut :
      (w : Result SessionError (Unit {0}) × Home) (h : Home) (owner : ℕ)
      → IsUntouched h w.1
      → h.lock_owner ≡ some owner
      → LockedOut h (resume (map_err context w.0) (λ _. after_preparation) w.1)
  resumed-LockedOut (err e, h') h owner same held = ((context e, refl), same)
  resumed-LockedOut (ok _, h') h owner same held = after_preparation-LockedOut h h' owner same held

  abbrev prepared : Result SessionError (Unit {0}) → Action Home Session
  prepared v =
      resume (map_err context v)
        (λ _. and_then (in_context (ensure_writable_home system)) (λ _. after_preparation))

  prepared-LockedOut :
      (v : Result SessionError (Unit {0})) (h : Home) (owner : ℕ)
      → h.lock_owner ≡ some owner
      → LockedOut h (prepared v h)
  prepared-LockedOut (err e) h owner held = (
    (context e, refl),
    record { same_session = refl; same_cache = refl; same_owner = refl; same_record = refl },
  )
  prepared-LockedOut (ok _) h owner held =
      resumed-LockedOut (ensure_writable_home system h) h owner (ensure_writable_home-IsUntouched h)
        held

  -- While another process holds the lock, `open` fails, and leaves the session, the cache, the lock and
  -- its record as they are.
  pub open_session-IsUntouched :
      (is_dir : Option Bool) (h : Home) (owner : ℕ)
      → h.lock_owner ≡ some owner
      → let after = open_session system env root_digest mountpoint session_id pid now is_dir h in
        ((e : SessionError) × (after.0 ≡ err e)) × IsUntouched h after.1
  unfolding open_session
  open_session-IsUntouched is_dir h owner held =
      prepared-LockedOut (validate_mountpoint is_dir) h owner held

  released :
      (x : Result SessionError Session × Home) (e : SessionError)
      → (or_release system env x).0 ≡ err e
      → (or_release system env x).1.lock_owner ≡ none
  released (ok s, h) e failed = cc
  released (err e', h) e failed = refl

  after_preparation-err :
      (h : Home) (e : SessionError)
      → (after_preparation h).0 ≡ err e
      → (after_preparation h).1.lock_owner ≡ h.lock_owner
  after_preparation-err h e failed = elim (acquire-cases h) [
    | inl (e', refused) ↦ rw refused refl
    | inr (free, taken) ↦
        let locked = open_locked system env root_digest mountpoint session_id pid now in
        rw taken
          (released (locked (record h { lock_owner = some pid })) e (rw taken at failed) ∙ sym free)
  ]

  resumed-err :
      (w : Result SessionError (Unit {0}) × Home) (e : SessionError)
      → (resume (map_err context w.0) (λ _. after_preparation) w.1).0 ≡ err e
      → (resume (map_err context w.0) (λ _. after_preparation) w.1).1.lock_owner ≡ w.1.lock_owner
  resumed-err (err e', h) e failed = refl
  resumed-err (ok _, h) e failed = after_preparation-err h e failed

  prepared-err :
      (v : Result SessionError (Unit {0})) (h : Home) (e : SessionError)
      → (prepared v h).0 ≡ err e
      → (prepared v h).1.lock_owner ≡ h.lock_owner
  prepared-err (err e') h e failed = refl
  prepared-err (ok _) h e failed =
      resumed-err (ensure_writable_home system h) e failed
      ∙ (ensure_writable_home-IsUntouched h).same_owner

  -- An `open` that fails leaves the lock as it found it: held by another process, or free.
  pub open_session-err :
      (is_dir : Option Bool) (h : Home) (e : SessionError)
      → (open_session system env root_digest mountpoint session_id pid now is_dir h).0 ≡ err e
      → (open_session system env root_digest mountpoint session_id pid now is_dir h).1.lock_owner
        ≡ h.lock_owner
  unfolding open_session
  open_session-err is_dir h e failed = prepared-err (validate_mountpoint is_dir) h e failed
