-- ===== src/MergeSort/Tests.antt =====
-- The sort of numbers.
use mathlib.Core.List.{Perm}
use technosphere.Common.{ℕ, ◌≡◌, refl, true, false, some, List, [], ◌∷◌, arith, ltb}
use technosphere.MergeSort.Order.{Less, IsSorted}
use technosphere.MergeSort.Sort.{get_middle, parallel_merge_sort, parallel_merge_sort-IsSorted}

ltb_asym : (x y : ℕ) → ltb x y ≡ true → ltb y x ≡ false
ltb_asym x y h = ground arith

ltb_not_trans : (x y z : ℕ) → ltb y x ≡ false → ltb z y ≡ false → ltb z x ≡ false
ltb_not_trans x y z h k = ground arith

instance abbrev number_less : Less ℕ
number_less = record { less = ltb; asym = ltb_asym; not_trans = ltb_not_trans }

abbrev sample : List ℕ
sample = 0 ∷ 5 ∷ 2 ∷ 4 ∷ 1 ∷ 2323 ∷ 1 ∷ []

two_threads : parallel_merge_sort 2 sample ≡ some (0 ∷ 1 ∷ 1 ∷ 2 ∷ 4 ∷ 5 ∷ 2323 ∷ [])
unfolding parallel_merge_sort get_middle
two_threads = refl

-- A parallel region that gets one thread skips the second halves.
one_thread : parallel_merge_sort {A = ℕ} 1 (3 ∷ 2 ∷ 1 ∷ []) ≡ some (2 ∷ 1 ∷ 3 ∷ [])
unfolding parallel_merge_sort get_middle
one_thread = refl

parallel_merge_sort-IsSorted_example :
    (r : List ℕ) × (parallel_merge_sort 2 sample ≡ some r) × IsSorted r × Perm r sample
parallel_merge_sort-IsSorted_example = parallel_merge_sort-IsSorted 2 sample (omega arith)
