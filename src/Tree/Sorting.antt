-- ===== src/Tree/Sorting.antt =====
-- `sort_by` sorts, and keeps what its list holds.
use remotefs.Base.{◌≡◌, true, List, [], ◌∷◌, arith, All, inl, inr, Bool-cases}
use remotefs.Base.Text.{Text, text_leb}
use remotefs.Tree.Builder.{insert_by, sort_by}
use remotefs.Tree.Order.{text_leb_trans, text_leb_total}

module _ {ℓ} {A : Type ℓ} (name : A → Text) where
  abbrev pub LowerBound : Text → List A → Type 0
  LowerBound n [] = Unit
  LowerBound n (a ∷ l) = (text_leb n (name a) ≡ true) × LowerBound n l

  -- Each name is at most every later one.
  abbrev pub IsSorted : List A → Type 0
  IsSorted [] = Unit
  IsSorted (a ∷ l) = LowerBound (name a) l × IsSorted l

  LowerBound-trans :
      (m n : Text) (l : List A) → text_leb m n ≡ true → LowerBound n l → LowerBound m l
  LowerBound-trans m n [] h b = tt
  LowerBound-trans m n (a ∷ l) h b =
      (text_leb_trans m n (name a) h b.0, LowerBound-trans m n l h b.1)

  insert_by-LowerBound :
      (n : Text) (a : A) (l : List A)
      → text_leb n (name a) ≡ true
      → LowerBound n l
      → LowerBound n (insert_by name a l)
  unfolding insert_by
  insert_by-LowerBound n a [] h b = (h, tt)
  insert_by-LowerBound n a (x ∷ l) h b = ground (arith, insert_by-LowerBound n a l h b.1)

  insert_by-IsSorted : (a : A) (l : List A) → IsSorted l → IsSorted (insert_by name a l)
  unfolding insert_by
  insert_by-IsSorted a [] s = (tt, tt)
  insert_by-IsSorted a (x ∷ l) s = elim (Bool-cases (text_leb (name a) (name x))) [
    | inl le ↦ rw le ((le, LowerBound-trans (name a) (name x) l le s.0), s)
    | inr gt ↦ rw gt (
      insert_by-LowerBound (name x) a l (text_leb_total (name a) (name x) gt) s.0,
      insert_by-IsSorted a l s.1,
    )
  ]

  pub sort_by-IsSorted : (l : List A) → IsSorted (sort_by name l)
  unfolding sort_by
  sort_by-IsSorted [] = tt
  sort_by-IsSorted (a ∷ l) = insert_by-IsSorted a (sort_by name l) (sort_by-IsSorted l)

  insert_by-All {κ} :
      (P : A → Type κ) (a : A) (l : List A) → P a → All P l → All P (insert_by name a l)
  unfolding insert_by
  insert_by-All P a [] h b = (h, tt)
  insert_by-All P a (x ∷ l) h b = elim (Bool-cases (text_leb (name a) (name x))) [
    | inl le ↦ rw le (h, b)
    | inr gt ↦ rw gt (b.0, insert_by-All P a l h b.1)
  ]

  -- What holds of every element holds of every element after the sort.
  pub sort_by-All {κ} : (P : A → Type κ) (l : List A) → All P l → All P (sort_by name l)
  unfolding sort_by
  sort_by-All P [] h = tt
  sort_by-All P (a ∷ l) h = insert_by-All P a (sort_by name l) h.0 (sort_by-All P l h.1)
