-- ===== src/MergeSort.antt =====
-- sphere_prac/p7/main.cpp: merge sort on iterators, its halves in two OpenMP threads. A range of
-- iterators is the list of its elements.
mod Order
mod Sort
mod Tests
pub use Order.*
pub use Sort.*
