-- ===== src/Base/State.antt =====
-- Code that changes a state and may fail: what was changed before an error stays changed.
use mathlib.Core.Path.{◌≡◌, refl}
use remotefs.Base.Results.{Result, ok, err, map_err}

abbrev pub Stateful : Type 0 → Type 0 → Type 0 → Type 0
Stateful E S A = S → Result E A × S

module _ {E S A B : Type 0} where
  abbrev pub resume : Result E A → (A → Stateful E S B) → Stateful E S B
  resume (ok a) next s = next a s
  resume (err e) next s = (err e, s)

  abbrev pub and_then : Stateful E S A → (A → Stateful E S B) → Stateful E S B
  and_then m next s = resume (m s).0 next (m s).1

module _ {E S A B : Type 0} where
  infixl 5 ◌>>=◌
  abbrev pub ◌>>=◌ : Stateful E S A → (A → Stateful E S B) → Stateful E S B
  m >>= next = and_then m next

module _ {E S B : Type 0} where
  infixl 5 ◌>>◌
  abbrev pub ◌>>◌ : Stateful E S (Unit {0}) → Stateful E S B → Stateful E S B
  m >> k = and_then m (λ _. k)

module _ {E S A : Type 0} where
  abbrev pub lift : Result E A → Stateful E S A
  lift r s = (r, s)

  abbrev pub pure : A → Stateful E S A
  pure a s = (ok a, s)

  -- `.context(…)`
  abbrev pub within : (E → E) → Stateful E S A → Stateful E S A
  within f m s = (map_err f (m s).0, (m s).1)

-- What held before the call holds after it, whether it fails or not.
abbrev pub Keeps : {S R : Type 0} → (S → Type 0) → (S → R × S) → Type 0
Keeps {S} P m = (s : S) → P s → P (m s).1

module _ {E S A B : Type 0} {P : S → Type 0} where
  resume-Keeps :
      (r : Result E A) (next : A → Stateful E S B)
      → ((a : A) → Keeps P (next a))
      → Keeps P (resume r next)
  resume-Keeps (ok a) next k s h = k a s h
  resume-Keeps (err e) next k s h = h

  pub and_then-Keeps :
      (m : Stateful E S A) (next : A → Stateful E S B)
      → Keeps P m
      → ((a : A) → Keeps P (next a))
      → Keeps P (and_then m next)
  and_then-Keeps m next km kn s h = resume-Keeps (m s).0 next kn (m s).1 (km s h)

module _ {E S A B : Type 0} where
  pub and_then-eq-ok :
      (r : Result E A) (next : A → Stateful E S B) (s : S) {b : B}
      → (resume r next s).0 ≡ ok b
      → (a : A) × (r ≡ ok a) × ((next a s).0 ≡ ok b)
  and_then-eq-ok (ok a) next s h = (a, refl, h)
  and_then-eq-ok (err e) next s h = cc

  -- What holds of the state before a next step, and after it if it is taken.
  pub resume_after :
      (P : S → Type 0) (r : Result E A) (next : A → Stateful E S B) (s : S)
      → P s
      → ((a : A) → r ≡ ok a → P (next a s).1)
      → P (resume r next s).1
  resume_after P (ok a) next s h k = k a refl
  resume_after P (err e) next s h k = h

module _ {E S A B : Type 0} where
  -- Where two steps succeed, the first one does, and the second one from where it ends.
  pub resume-ok :
      (r : Result E A) (next : A → Stateful E S B) (s : S) {b : B}
      → (resume r next s).0 ≡ ok b
      → (a : A) × (r ≡ ok a) × ((next a s).0 ≡ ok b) × ((resume r next s).1 ≡ (next a s).1)
  resume-ok (ok a) next s h = (a, refl, h, refl)
  resume-ok (err e) next s h = cc
