-- ===== src/MergeSort/Sort.antt =====
-- `get_middle`, `sort_it` and `parallel_merge_sort`.
use mathlib.Core.List.Perm
use mathlib.Core.List.{Perm, perm_middle, append-nil}
use mathlib.Core.Path.{subst}
use technosphere.MergeSort.Order.{Less, IsSorted, merge, merge_left, merge_right, merge-IsSorted}
use technosphere.Common.{
  ℕ, zero, suc, ◌+◌, ◌*◌, ◌≤◌, ◌<◌, ◌≡◌, refl, sym, Option, none, some, List, [], ◌∷◌, ◌++◌, arith,
  ltb, if◌then◌else◌, Bool-cases, inl, inr, length, take, drop, take-append-drop, length-take,
  length-drop,
}

module _ {ℓ} {A : Type ℓ} where
  -- how often `++mid` runs: `it` goes two steps for each
  unfoldable pub get_middle : List A → ℕ
  get_middle [] = 0
  get_middle (x ∷ []) = 0
  get_middle (x ∷ y ∷ l) = suc (get_middle l)

  pub get_middle_half :
      (l : List A) → (2 * get_middle l ≤ length l) × (length l ≤ 2 * get_middle l + 1)
  unfolding get_middle
  get_middle_half [] = omega arith
  get_middle_half (x ∷ []) = omega arith
  get_middle_half (x ∷ y ∷ l) = omega (arith, get_middle_half l)

module _ {ℓ} {A : Type ℓ} ⦃o : Less A⦄ where
  -- `team` is the number of threads that the parallel region gets: thread 0 sorts the first half,
  -- and every other thread the second, so a team of one leaves the second half as it is.
  -- `none`: the fuel ran out.
  unfoldable pub sort_it : ℕ → ℕ → List A → Option (List A)
  unfolding merge
  sort_it team zero l = none
  sort_it team (suc fuel) [] = some []
  sort_it team (suc fuel) (x ∷ []) = some (x ∷ [])
  sort_it team (suc fuel) (x ∷ y ∷ l) =
      let mid = get_middle (x ∷ y ∷ l) in
      let left = sort_it team fuel (take mid (x ∷ y ∷ l)) in
      let sorted = sort_it team fuel (drop mid (x ∷ y ∷ l)) in
      let right = if ltb 1 team then sorted else some (drop mid (x ∷ y ∷ l)) in
      elim left [ none ↦ none | some a ↦ elim right [ none ↦ none | some b ↦ some (merge a b) ] ]

  -- the recursion is at most as deep as the list is long
  unfoldable pub parallel_merge_sort : ℕ → List A → Option (List A)
  unfolding sort_it
  parallel_merge_sort team l = sort_it team (length l + 1) l

  merge-perm : (a b : List A) → Perm (merge a b) (a ++ b)
  unfolding merge
  merge-perm [] b = Perm.refl b
  merge-perm (x ∷ a) [] = subst (λ r. Perm (x ∷ a) (x ∷ r)) (sym (append-nil a)) (Perm.refl (x ∷ a))
  merge-perm (x ∷ a) (y ∷ b) = elim (Bool-cases (o.less y x)) [
    | inl e ↦
        subst (λ r. Perm r (x ∷ (a ++ (y ∷ b)))) (sym (merge_right x y a b e))
          (Perm.trans (Perm.cons y (merge-perm (x ∷ a) b)) (Perm.symm (perm_middle (x ∷ a) b)))
    | inr e ↦
        subst (λ r. Perm r (x ∷ (a ++ (y ∷ b)))) (sym (merge_left x y a b e))
          (Perm.cons x (merge-perm a (y ∷ b)))
  ]

  sort_it_halves :
      (team fuel : ℕ) (x y : A) (l a b : List A)
      → 1 < team
      → sort_it team fuel (take (get_middle (x ∷ y ∷ l)) (x ∷ y ∷ l)) ≡ some a
      → sort_it team fuel (drop (get_middle (x ∷ y ∷ l)) (x ∷ y ∷ l)) ≡ some b
      → sort_it team (suc fuel) (x ∷ y ∷ l) ≡ some (merge a b)
  unfolding sort_it
  sort_it_halves team fuel x y l a b two run_a run_b = ground (arith, run_a, run_b)

  some_half :
      (fuel mid : ℕ) (l : List A)
      → length l < suc fuel
      → (2 * mid ≤ length l) × (length l ≤ 2 * mid + 1)
      → 1 < length l
      → length (drop mid l) < fuel
  some_half fuel mid l h bounds long = omega (arith, length-drop mid l)

  pub sort_it-IsSorted :
      (team fuel : ℕ) (l : List A)
      → 1 < team
      → length l < fuel
      → (r : List A) × (sort_it team fuel l ≡ some r) × IsSorted r × Perm r l
  unfolding sort_it
  sort_it-IsSorted team zero l two h = absurd (omega arith)
  sort_it-IsSorted team (suc fuel) [] two h = ([], refl, tt, Perm.refl [])
  sort_it-IsSorted team (suc fuel) (x ∷ []) two h = (x ∷ [], refl, (tt, tt), Perm.refl (x ∷ []))
  sort_it-IsSorted team (suc fuel) (x ∷ y ∷ l) two h =
      let whole = x ∷ y ∷ l in
      let mid = get_middle whole in
      let bounds = get_middle_half whole in
      let (a, run_a, sorted_a, perm_a) =
        sort_it-IsSorted team fuel (take mid whole) two (omega (arith, length-take mid whole)) in
      let half : length (drop mid whole) < fuel = some_half fuel mid whole h bounds (omega arith) in
      let (b, run_b, sorted_b, perm_b) = sort_it-IsSorted team fuel (drop mid whole) two half in
      (
        merge a b,
        sort_it_halves team fuel x y l a b two run_a run_b,
        merge-IsSorted a b sorted_a sorted_b,
        Perm.trans (merge-perm a b)
            (subst (Perm (a ++ b)) (take-append-drop mid whole) (Perm.append perm_a perm_b)),
      )

  -- With a team of two threads or more `parallel_merge_sort` ends on every list, and its result is
  -- sorted and a permutation of the list.
  pub parallel_merge_sort-IsSorted :
      (team : ℕ) (l : List A)
      → 1 < team
      → (r : List A) × (parallel_merge_sort team l ≡ some r) × IsSorted r × Perm r l
  unfolding parallel_merge_sort
  parallel_merge_sort-IsSorted team l two = sort_it-IsSorted team (length l + 1) l two (omega arith)
