-- ===== src/Session/Action.antt =====
-- Methods on a state that may fail: what was written before an error stays written.
use remotefs.Session.Types.{SessionError, context}
use remotefs.Base.State.{Stateful, within}
pub use remotefs.Base.State.{◌>>=◌, ◌>>◌, lift, pure}

abbrev pub Action : Type 0 → Type 0 → Type 0
Action S A = Stateful SessionError S A

-- `.context(…)` and `.with_context(…)`
abbrev pub in_context : {S A : Type 0} → Action S A → Action S A
in_context m = within context m
