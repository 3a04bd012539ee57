-- ===== src/Cli/Exit.antt =====
-- crates/rfs/src/cli.rs: when `wait_for_process_exit` has seen the process exit.
use remotefs.Base.{
  ℕ, ◌≤◌, ◌<◌, ◌^◌, ◌≡◌, ◌≢◌, refl, ap, ◌⊎◌, inl, inr, ◌↔◌, Bool-cases, true, false, Option, none,
  some, List, [], ◌∷◌, ◌++◌, All, arith, nat_eq,
}
use remotefs.Cli.Unmount.{Check, process_exists, wait_for_process_exit}

-- There is no such process: the number is no `pid_t`, or `kill` failed with ESRCH.
abbrev pub IsGone : ℕ → Check → Type 0
IsGone pid check = (2 ^ 31 ≤ pid) ⊎ (check.killed ≡ some 3)

abbrev pub IsRunning : ℕ → Check → Type 0
IsRunning pid check = (pid < 2 ^ 31) × (check.killed ≢ some 3)

-- At some check the process is gone; at the checks before, it runs and the deadline has not passed.
abbrev pub ExitsInTime : ℕ → List Check → Type 0
ExitsInTime pid checks =
    (before : List Check) × (last : Check) × (after : List Check) × (checks
      ≡ before ++ last ∷ after)
    × All (λ (c : Check). IsRunning pid c × (c.is_late ≡ false)) before
    × IsGone pid last

exists-IsRunning :
    (pid : ℕ) (check : Check) (killed : Option ℕ)
    → check.killed ≡ killed
    → process_exists pid killed ≡ true
    → IsRunning pid check
unfolding process_exists
exists-IsRunning pid check none e h = (ground arith, λ gone. cc)
exists-IsRunning pid check (some errno) e h = (ground arith, λ gone. ground arith)

exists-IsGone :
    (pid : ℕ) (check : Check) (killed : Option ℕ)
    → check.killed ≡ killed
    → process_exists pid killed ≡ false
    → IsGone pid check
unfolding process_exists
exists-IsGone pid check none e h = inl (ground arith)
exists-IsGone pid check (some errno) e h = ground arith

gone-exists : (pid : ℕ) (check : Check) → IsGone pid check → process_exists pid check.killed ≡ false
unfolding process_exists
gone-exists pid check (inl large) = ground arith
gone-exists pid check (inr gone) = rw gone (ground arith)

running-exists :
    (pid : ℕ) (check : Check) (killed : Option ℕ)
    → check.killed ≡ killed
    → IsRunning pid check
    → process_exists pid killed ≡ true
unfolding process_exists
running-exists pid check none e (small, h) = ground arith
running-exists pid check (some errno) e (small, h) = ground arith

waited :
    (pid : ℕ) (checks : List Check)
    → wait_for_process_exit pid checks ≡ true
    → ExitsInTime pid checks
unfolding wait_for_process_exit
waited pid [] h = cc
waited pid (check ∷ checks) h = elim (Bool-cases (process_exists pid check.killed)) [
  | inr gone ↦ ([], check, checks, refl, tt, exists-IsGone pid check check.killed refl gone)
  | inl there ↦
      let timely : check.is_late ≡ false = ground arith in
      let rest : wait_for_process_exit pid checks ≡ true = ground arith in
      let (before, last, after, same, running, gone) = waited pid checks rest in
      (
        check ∷ before,
        last,
        after,
        ap (λ (cs : List Check). check ∷ cs) same,
        ((exists-IsRunning pid check check.killed refl there, timely), running),
        gone,
      )
]

waits :
    (pid : ℕ) (before : List Check) (last : Check) (after : List Check)
    → All (λ (c : Check). IsRunning pid c × (c.is_late ≡ false)) before
    → IsGone pid last
    → wait_for_process_exit pid (before ++ last ∷ after) ≡ true
unfolding wait_for_process_exit
waits pid [] last after running gone = rw (gone-exists pid last gone) refl
waits pid (check ∷ before) last after ((here, timely), running) gone =
    rw (running-exists pid check check.killed refl here, timely)
      (waits pid before last after running gone)

-- The wait succeeds exactly when the process is gone at a check before which none was late.
pub wait_for_process_exit-ExitsInTime :
    (pid : ℕ) (checks : List Check)
    → (wait_for_process_exit pid checks ≡ true) ↔ ExitsInTime pid checks
wait_for_process_exit-ExitsInTime pid checks = (
  waited pid checks,
  λ (before, last, after, same, running, gone). rw same (waits pid before last after running gone),
)
