-- ===== src/Tree/Names.antt =====
-- crates/rfs-common/src/tree.rs: what `reject_duplicate_names` and the sort establish is what the
-- decoder asks of the names.
use remotefs.Base.{◌≡◌, refl, ap, inl, inr, Bool-cases, true, false, some, List, [], ◌∷◌, ◌++◌, map}
use remotefs.Base.{ok, arith, All, contains, ==_refl, nat_eq, list_eq}
use remotefs.Base.Text.{Text, text_leb}
use remotefs.Tree.Metadata.{validate_name}
use remotefs.Tree.Builder.{reject_seen}
use remotefs.Tree.Decode.{sorted_after, validate_sorted_names, validate_names}
use remotefs.Tree.Order.{text_leb_antisymm}
use remotefs.Tree.Sorting.{LowerBound, IsSorted}

abbrev pub self : Text → Text
self n = n

-- Each name is new when it is met, after those in `seen`.
abbrev pub Unique : List Text → List Text → Type 0
Unique seen [] = Unit
Unique seen (n ∷ names) = (contains seen n ≡ false) × Unique (n ∷ seen) names

-- The set after the walk over some names.
abbrev pub seen_after : List Text → List Text → List Text
seen_after seen [] = seen
seen_after seen (n ∷ names) = seen_after (n ∷ seen) names

pub reject_seen-Unique :
    (seen names : List Text) → reject_seen seen names ≡ ok tt → Unique seen names
unfolding reject_seen
reject_seen-Unique seen [] h = tt
reject_seen-Unique seen (n ∷ names) h = ground (arith, reject_seen-Unique (n ∷ seen) names)

pub Unique-append :
    (seen xs ys : List Text)
    → Unique seen (xs ++ ys)
    → Unique seen xs × Unique (seen_after seen xs) ys
Unique-append seen [] ys u = (tt, u)
Unique-append seen (x ∷ xs) ys u =
    let (left, right) = Unique-append (x ∷ seen) xs ys u.1 in ((u.0, left), right)

contains_head : (seen : List Text) (n : Text) → contains (n ∷ seen) n ≡ true
contains_head seen n = rw (==_refl n)

new_above :
    (seen : List Text) (p n : Text)
    → contains seen p ≡ true
    → contains seen n ≡ false
    → text_leb p n ≡ true
    → text_leb n p ≡ false
new_above seen p n old new le = elim (Bool-cases (text_leb n p)) [
  | inl ge ↦ let e = text_leb_antisymm p n le ge in cc (ap (contains seen) e)
  | inr lt ↦ lt
]

sorted_after-ok :
    (seen : List Text) (p : Text) (names : List Text)
    → contains seen p ≡ true
    → LowerBound self p names
    → IsSorted self names
    → Unique seen names
    → sorted_after (some p) names ≡ ok tt
unfolding sorted_after
sorted_after-ok seen p [] old low s u = refl
sorted_after-ok seen p (n ∷ names) old low s u =
    rw (new_above seen p n old u.0 low.0)
      (sorted_after-ok (n ∷ seen) n names (contains_head seen n) s.0 s.1 u.1)

-- Sorted names without a repetition pass the decoder's test of the order.
pub validate_sorted_names-ok :
    (seen names : List Text)
    → IsSorted self names
    → Unique seen names
    → validate_sorted_names names ≡ ok tt
unfolding validate_sorted_names
validate_sorted_names-ok seen [] s u = refl
validate_sorted_names-ok seen (n ∷ names) s u =
    sorted_after-ok (n ∷ seen) n names (contains_head seen n) s.0 s.1 u.1

pub IsSorted-map {ℓ} :
    {A : Type ℓ} (name : A → Text) (l : List A) → IsSorted name l → IsSorted self (map name l)
IsSorted-map name [] s = tt
IsSorted-map {A} name (a ∷ l) s = (bound (name a) l s.0, IsSorted-map name l s.1)
  where
    bound : (n : Text) (xs : List A) → LowerBound name n xs → LowerBound self n (map name xs)
    bound n [] b = tt
    bound n (x ∷ xs) b = (b.0, bound n xs b.1)

-- Valid and new names pass the decoder's walk.
pub validate_names-ok :
    (seen names : List Text)
    → All (λ n. validate_name n ≡ ok tt) names
    → Unique seen names
    → validate_names seen names ≡ ok tt
unfolding validate_names
validate_names-ok seen [] v u = refl
validate_names-ok seen (n ∷ names) v u = rw (v.0, u.0) (validate_names-ok (n ∷ seen) names v.1 u.1)
