-- ===== src/MergeSort/Order.antt =====
-- The element's `operator<` as the sort uses it, and what `std::inplace_merge` does with it.
use technosphere.Common.{◌≡◌, Bool, true, false, List, [], ◌∷◌, arith, Bool-cases, inl, inr}

-- A strict weak order, which the C++ library asks for.
pub record Less {ℓ} (A : Type ℓ) : Type ℓ where
  pub less : A → A → Bool
  pub asym : (x y : A) → less x y ≡ true → less y x ≡ false
  pub not_trans : (x y z : A) → less y x ≡ false → less z y ≡ false → less z x ≡ false

module _ {ℓ} {A : Type ℓ} ⦃o : Less A⦄ where
  -- nothing in the list is less than x
  abbrev pub NoneLess : A → List A → Type 0
  NoneLess x [] = Unit
  NoneLess x (y ∷ l) = (o.less y x ≡ false) × NoneLess x l

  -- no element is less than one before it
  abbrev pub IsSorted : List A → Type 0
  IsSorted [] = Unit
  IsSorted (x ∷ l) = NoneLess x l × IsSorted l

  -- `std::inplace_merge` of two ranges: an element of the second goes first only if it is less
  unfoldable pub merge : List A → List A → List A
  merge [] b = b
  merge (x ∷ a) [] = x ∷ a
  merge (x ∷ a) (y ∷ b) = elim (o.less y x) [
    | true ↦ y ∷ merge (x ∷ a) b
    | false ↦ x ∷ merge a (y ∷ b)
  ]

  pub merge_right :
      (x y : A) (a b : List A) → o.less y x ≡ true → merge (x ∷ a) (y ∷ b) ≡ y ∷ merge (x ∷ a) b
  unfolding merge
  merge_right x y a b e = ground (arith, e)

  pub merge_left :
      (x y : A) (a b : List A) → o.less y x ≡ false → merge (x ∷ a) (y ∷ b) ≡ x ∷ merge a (y ∷ b)
  unfolding merge
  merge_left x y a b e = ground (arith, e)

  NoneLess-trans : (x y : A) (l : List A) → o.less y x ≡ false → NoneLess y l → NoneLess x l
  NoneLess-trans x y [] e h = tt
  NoneLess-trans x y (z ∷ l) e h = (o.not_trans x y z e h.0, NoneLess-trans x y l e h.1)

  NoneLess-merge : (z : A) (a b : List A) → NoneLess z a → NoneLess z b → NoneLess z (merge a b)
  unfolding merge
  NoneLess-merge z [] b ha hb = hb
  NoneLess-merge z (x ∷ a) [] ha hb = ha
  NoneLess-merge z (x ∷ a) (y ∷ b) ha hb = elim (Bool-cases (o.less y x)) [
    | inl e ↦ rw (merge_right x y a b e) (hb.0, NoneLess-merge z (x ∷ a) b ha hb.1)
    | inr e ↦ rw (merge_left x y a b e) (ha.0, NoneLess-merge z a (y ∷ b) ha.1 hb)
  ]

  pub merge-IsSorted : (a b : List A) → IsSorted a → IsSorted b → IsSorted (merge a b)
  unfolding merge
  merge-IsSorted [] b ha hb = hb
  merge-IsSorted (x ∷ a) [] ha hb = ha
  merge-IsSorted (x ∷ a) (y ∷ b) ha hb = elim (Bool-cases (o.less y x)) [
    | inl e ↦
        let f = o.asym y x e in
        rw (merge_right x y a b e) (
          NoneLess-merge y (x ∷ a) b (f, NoneLess-trans y x a f ha.0) hb.0,
          merge-IsSorted (x ∷ a) b ha hb.1,
        )
    | inr e ↦ rw (merge_left x y a b e) (
      NoneLess-merge x a (y ∷ b) ha.0 (e, NoneLess-trans x y b e hb.0),
      merge-IsSorted a (y ∷ b) ha.1 hb,
    )
  ]
