-- ===== src/Tree/Targets.antt =====
-- crates/rfs-common/src/tree.rs: `target_escapes` against a count of the components of the target.
use remotefs.Base.{ℕ, suc, ◌+◌, ◌-◌, ◌<◌, ◌≡◌, refl, sym, ◌∙◌, ap, ◌↔◌, Bool, true, ◌||◌}
use remotefs.Base.{Option, none, some, List, [], ◌∷◌, ◌++◌, arith, if◌then◌else◌, ◌==◌}
use remotefs.Base.{nat_eq, list_eq}
use remotefs.Base.Text.{Text, codes, split}
use remotefs.Tree.Metadata.{next_depth, escapes_from, target_escapes}

-- `` and `.` stay where they are.
is_stay : Text → Bool
is_stay c = c == [] || c == codes "."

is_up : Text → Bool
is_up c = c == codes ".."

data Move : Type 0 where
  stay up down : Move

move : Text → Move
move c = if is_stay c then stay else if is_up c then up else down

abbrev count_up : Move → ℕ → ℕ
count_up up n = suc n
count_up _ n = n

abbrev count_down : Move → ℕ → ℕ
count_down down n = suc n
count_down _ n = n

-- How many components go up, and how many go down.
pub ups : List Text → ℕ
ups [] = 0
ups (c ∷ cs) = count_up (move c) (ups cs)

pub downs : List Text → ℕ
downs [] = 0
downs (c ∷ cs) = count_down (move c) (downs cs)

abbrev after : Move → ℕ → Option ℕ
after stay depth = some depth
after up depth = if depth == 0 then none else some (depth - 1)
after down depth = some (depth + 1)

next_depth-eq-after : (depth : ℕ) (c : Text) → next_depth depth c ≡ after (move c) depth
unfolding next_depth move is_stay is_up
next_depth-eq-after depth c = ground arith

escapes_of_prefix :
    (depth : ℕ) (top rest : List Text)
    → depth + downs top < ups top
    → escapes_from depth (top ++ rest) ≡ true
unfolding escapes_from ups downs
escapes_of_prefix depth [] rest h = absurd (omega arith)
escapes_of_prefix depth (c ∷ top) rest h = ground (
  arith,
  next_depth-eq-after depth c,
  escapes_of_prefix depth top rest,
  escapes_of_prefix (depth - 1) top rest,
  escapes_of_prefix (depth + 1) top rest,
)

-- A prefix of `cs` with more steps up than `depth` and its steps down.
abbrev pub Leaves : ℕ → List Text → Type 0
Leaves depth cs =
    (top : List Text) × (rest : List Text) × (cs ≡ top ++ rest) × (depth + downs top < ups top)

Leaves-cons :
    (depth deeper : ℕ) (c : Text) (cs : List Text)
    → after (move c) depth ≡ some deeper
    → Leaves deeper cs
    → Leaves depth (c ∷ cs)
unfolding ups downs
Leaves-cons depth deeper c cs h (top, rest, e, lt) =
    (c ∷ top, rest, ap (λ (l : List Text). c ∷ l) e, ground arith)

Leaves-step :
    (depth : ℕ) (c : Text) (cs : List Text)
    → ((deeper : ℕ) → escapes_from deeper cs ≡ true → Leaves deeper cs)
    → escapes_from depth (c ∷ cs) ≡ true
    → (d : Option ℕ) → next_depth depth c ≡ d
    → Leaves depth (c ∷ cs)
unfolding escapes_from ups downs
Leaves-step depth c cs ih h none e = (c ∷ [], cs, refl, ground (arith, next_depth-eq-after depth c))
Leaves-step depth c cs ih h (some deeper) e =
    Leaves-cons depth deeper c cs (sym (next_depth-eq-after depth c) ∙ e) (ih deeper (ground arith))

prefix_of_escapes : (depth : ℕ) (cs : List Text) → escapes_from depth cs ≡ true → Leaves depth cs
prefix_of_escapes depth [] h = unfold escapes_from in cc
prefix_of_escapes depth (c ∷ cs) h =
    Leaves-step depth c cs (λ d. prefix_of_escapes d cs) h (next_depth depth c) refl

-- A target is reported as escaping exactly when some first components of it go up more often than
-- they go down, where empty components and `.` do neither.
pub target_escapes_iff :
    (target : Text) → (target_escapes target ≡ true) ↔ Leaves 0 (split b'/' target)
unfolding target_escapes
target_escapes_iff target = (
  prefix_of_escapes 0 (split b'/' target),
  λ (top, rest, e, lt). rw e (escapes_of_prefix 0 top rest lt),
)
