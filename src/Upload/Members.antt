-- ===== src/Upload/Members.antt =====
-- Membership by `contains`, through appends and sorts, for the paths of an upload.
use remotefs.Base.{◌≡◌, true, List, [], ◌∷◌, ◌++◌, map, arith, All}
use remotefs.Base.{Eq, ◌==◌, ==_iff, contains, inl, inr, Bool-cases, Bool, nat_eq}
use remotefs.Base.{list_eq}
use remotefs.Base.{subst, sym}
use remotefs.Upload.Paths.{insert_with, sort_with}

-- Whatever the first list holds, the second holds.
abbrev pub Within {ℓ} : {A : Type ℓ} ⦃e : Eq A⦄ → List A → List A → Type ℓ
Within {A} xs ys = (a : A) → contains xs a ≡ true → contains ys a ≡ true

module _ {ℓ} {A : Type ℓ} ⦃e : Eq A⦄ where
  pub contains-cons : (x : A) (xs : List A) → Within xs (x ∷ xs)
  contains-cons x xs a h = ground arith

  pub contains-append_left : (xs ys : List A) → Within xs (xs ++ ys)
  contains-append_left [] ys a h = cc
  contains-append_left (x ∷ xs) ys a h = ground (arith, contains-append_left xs ys a)

  pub contains-append_right : (xs ys : List A) → Within ys (xs ++ ys)
  contains-append_right [] ys a h = h
  contains-append_right (x ∷ xs) ys a h = ground (arith, contains-append_right xs ys a h)

  pub contains-append_last : (xs : List A) (a : A) → contains (xs ++ a ∷ []) a ≡ true
  contains-append_last xs a = contains-append_right xs (a ∷ []) a (ground (arith, e.equals_iff a a))

module _ {ℓ κ} {A : Type ℓ} {B : Type κ} ⦃e : Eq B⦄ (f : A → B) (leb_by : A → A → Bool) where
  insert_with-Within :
      (x : A) (xs : List A) → Within (map f (x ∷ xs)) (map f (insert_with leb_by x xs))
  unfolding insert_with
  insert_with-Within x [] b h = h
  insert_with-Within x (y ∷ xs) b h = ground (arith, insert_with-Within x xs b)

  -- A sort loses nothing.
  pub sort_with-Within : (xs : List A) → Within (map f xs) (map f (sort_with leb_by xs))
  unfolding sort_with
  sort_with-Within [] b h = h
  sort_with-Within (x ∷ xs) b h =
      insert_with-Within x (sort_with leb_by xs) b (ground (arith, sort_with-Within xs b))

module _ {ℓ κ} {A : Type ℓ} (P : A → Type κ) (leb_by : A → A → Bool) where
  insert_with-All : (x : A) (xs : List A) → P x → All P xs → All P (insert_with leb_by x xs)
  unfolding insert_with
  insert_with-All x [] h hs = (h, tt)
  insert_with-All x (y ∷ xs) h hs = elim (Bool-cases (leb_by x y)) [
    | inl le ↦ rw le (h, hs)
    | inr gt ↦ rw gt (hs.0, insert_with-All x xs h hs.1)
  ]

  pub sort_with-All : (xs : List A) → All P xs → All P (sort_with leb_by xs)
  unfolding sort_with
  sort_with-All [] h = tt
  sort_with-All (x ∷ xs) h = insert_with-All x (sort_with leb_by xs) h.0 (sort_with-All xs h.1)

pub All-map {ℓ κ μ} :
    {A : Type ℓ} (P : A → Type κ) (Q : A → Type μ) (xs : List A)
    → ((a : A) → P a → Q a)
    → All P xs
    → All Q xs
All-map P Q [] f h = tt
All-map P Q (x ∷ xs) f h = (f x h.0, All-map P Q xs f h.1)

module _ {ℓ κ} {A : Type ℓ} {B : Type κ} ⦃e : Eq B⦄ (f : A → B) where
  -- A list holds what it holds.
  pub All-contains_self : (xs : List A) → All (λ (a : A). contains (map f xs) (f a) ≡ true) xs
  All-contains_self [] = tt
  All-contains_self (x ∷ xs) = (
    ground (arith, e.equals_iff (f x) (f x)),
    All-map (λ (a : A). contains (map f xs) (f a) ≡ true)
        (λ (a : A). contains (map f (x ∷ xs)) (f a) ≡ true) xs
        (λ (a : A) (h : contains (map f xs) (f a) ≡ true). ground arith) (All-contains_self xs),
  )

pub All-of_map {ℓ κ μ} :
    {A : Type ℓ} {B : Type κ} (f : A → B) (P : B → Type μ) (xs : List A)
    → All P (map f xs)
    → All (λ (a : A). P (f a)) xs
All-of_map f P [] h = tt
All-of_map f P (x ∷ xs) h = (h.0, All-of_map f P xs h.1)

module _ {ℓ κ} {A : Type ℓ} ⦃e : Eq A⦄ (P : A → Type κ) where
  -- What holds of every element holds of one that the list holds.
  pub All-at : (xs : List A) (a : A) → All P xs → contains xs a ≡ true → P a
  All-at [] a h m = cc
  All-at (x ∷ xs) a h m = elim (Bool-cases (a == x)) [
    | inl same ↦ subst P (sym ((==_iff a x).0 same)) h.0
    | inr other ↦ All-at xs a h.1 (rw other at m)
  ]
