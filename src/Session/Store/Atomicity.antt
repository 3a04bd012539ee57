-- ===== src/Session/Store/Atomicity.antt =====
-- crates/rfs-common/src/session/store.rs: what an operation that fails leaves in the database.
use remotefs.Base.{ℕ, ◌≡◌, refl, Option, Bool, List, Result, ok, err, arith}
use remotefs.Base.{reject_if, not, ◌||◌, ◌==◌, nat_eq}
use remotefs.Base.Int.{ℤ}
use remotefs.Base.{ok_or}
use remotefs.Base.Utf8.{to_str}
use remotefs.Base.Text.{Text}
use remotefs.Digest.{Digest}
use remotefs.Session.Action.{◌>>=◌, ◌>>◌, lift, in_context}
use remotefs.Session.Types.{SessionError, Operation, InodeId, internal_error}
use remotefs.Session.Store.Rows.{NewRemoteInode}
use remotefs.Session.Store.Database.{Database, Sql, with_transaction, finish}
use remotefs.Session.Store.Operations.{
  get_or_create_remote_dir_children, close, initialize_database,
}
use remotefs.Session.Store.Operations.{
  now_seconds, get_or_create_body, close_body, insert_session, insert_root_inode,
}

abbrev pub Atomic : {A : Type 0} → Sql A → Type 0
Atomic m = (db : Database) (e : SessionError) → (m db).0 ≡ err e → (m db).1 ≡ db

module _ (fault : Operation → Database → Bool) where
  finish_err :
      {A : Type 0} (r : Result SessionError A) (before after : Database) (e : SessionError)
      → (finish fault r before after).0 ≡ err e
      → (finish fault r before after).1 ≡ before
  finish_err (ok a) before after e h = ground arith
  finish_err (err d) before after e h = refl

  with_transaction-Atomic : {A : Type 0} (m : Sql A) → Atomic (with_transaction fault m)
  unfolding with_transaction
  with_transaction-Atomic m db e h = ground (arith, finish_err (m db).0 db (m db).1 e)

-- A step that reads the clock, or checks an argument, before the transaction.
after_step-Atomic :
    {A B : Type 0} (r : Result SessionError A) (f : A → Sql B)
    → ((a : A) → Atomic (f a))
    → Atomic (lift r >>= f)
after_step-Atomic (ok a) f h db e k = h a db e k
after_step-Atomic (err d) f h db e k = refl

after_clock-Atomic :
    {A B : Type 0} (r : Result SessionError A) (f : A → Sql B)
    → ((a : A) → Atomic (f a))
    → Atomic (in_context (lift r) >>= f)
after_clock-Atomic (ok a) f h db e k = h a db e k
after_clock-Atomic (err d) f h db e k = refl

module _ (fault : Operation → Database → Bool) (is_uuid : Text → Bool) where
  -- When `get_or_create_remote_dir_children` fails, for whatever reason and also when only the
  -- commit fails, the database is as it was before the call.
  get_or_create_atomic :
      (parent : InodeId) (children : List NewRemoteInode) (db : Database) (e : SessionError)
      → (get_or_create_remote_dir_children fault is_uuid parent children db).0 ≡ err e
      → (get_or_create_remote_dir_children fault is_uuid parent children db).1 ≡ db
  unfolding get_or_create_remote_dir_children
  get_or_create_atomic parent children =
      with_transaction-Atomic fault (get_or_create_body fault is_uuid parent children)

  -- When `close` fails, for whatever reason, the database is as it was before the call.
  close_atomic :
      (now : Option ℕ) (db : Database) (e : SessionError)
      → (close fault is_uuid now db).0 ≡ err e
      → (close fault is_uuid now db).1 ≡ db
  unfolding close
  close_atomic now =
      after_clock-Atomic (now_seconds now)
        (λ s. with_transaction fault (close_body fault is_uuid s))
        (λ s. with_transaction-Atomic fault (close_body fault is_uuid s))

  -- When `initialize_database` fails, for whatever reason, neither the row of the session nor that
  -- of the root inode is left in the database.
  initialize_database_atomic :
      (session_id : Text) (daemon_pid : ℕ) (root_digest : Digest) (mountpoint : Text)
      (now : Option ℕ) (db : Database) (e : SessionError)
      → (initialize_database fault is_uuid session_id daemon_pid root_digest mountpoint now db).0
        ≡ err e
      → (initialize_database fault is_uuid session_id daemon_pid root_digest mountpoint now db).1
        ≡ db
  unfolding initialize_database
  initialize_database_atomic session_id daemon_pid root_digest mountpoint now =
      after_step-Atomic (ok_or internal_error (to_str mountpoint)) identified λ text.
        after_step-Atomic (reject_if (not (is_uuid session_id) || daemon_pid == 0) internal_error)
          (λ _. timed text)
          λ _.
            after_clock-Atomic (now_seconds now) (λ s. with_transaction fault (seed text s))
              λ s. with_transaction-Atomic fault (seed text s)
    where
      seed : Text → ℤ → Sql (Unit {0})
      seed text s =
          insert_session fault is_uuid session_id daemon_pid root_digest text s
          >> in_context (insert_root_inode fault is_uuid root_digest)

      timed : Text → Sql (Unit {0})
      timed text = in_context (lift (now_seconds now)) >>= λ s. with_transaction fault (seed text s)

      identified : Text → Sql (Unit {0})
      identified text =
          lift (reject_if (not (is_uuid session_id) || daemon_pid == 0) internal_error)
          >> timed text
