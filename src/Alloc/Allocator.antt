-- ===== src/Alloc/Allocator.antt =====
-- sphere_prac/p1/allocator.cpp, allocator.h. The structs stand in the memory as words: the general
-- information at `base`, a `MemoryInfo` before each block, and the references at the end.
use technosphere.Alloc.Words.{add64, sub64, read_word, write_word}
use technosphere.Cache.Memory.{Memory}
use technosphere.Common.{
  ℕ, zero, suc, ◌+◌, ◌-◌, ◌/◌, ◌&&◌, Option, none, some, ltb, leb, ◌==◌, if◌then◌else◌, min, max,
}

-- `AllocErrorType`
pub data AllocError : Type 0 where
  invalid_free no_memory : AllocError

-- `stuck`: undefined behaviour, or a loop that goes on beyond the fuel.
pub data Result (A : Type 0) : Type 0 where
  done : A → Memory → Result A
  failed : AllocError → Memory → Result A
  stuck : Result A

pub record Allocator : Type 0 where
  pub base : ℕ
  pub size : ℕ

-- `sizeof(MemoryInfo)` and `sizeof(GeneralMemoryInfo)`
abbrev pub info_size : ℕ
info_size = 24

abbrev pub end_of : Allocator → ℕ
end_of a = a.base + a.size

-- The fields of `GeneralMemoryInfo`.
abbrev pub allocated_at : Allocator → ℕ
allocated_at a = a.base

abbrev pub data_end_at : Allocator → ℕ
data_end_at a = a.base + 8

abbrev pub begin_ref_at : Allocator → ℕ
begin_ref_at a = a.base + 16

-- The fields of a `MemoryInfo`.
abbrev pub next_at : ℕ → ℕ
next_at p = p

abbrev pub reference_at : ℕ → ℕ
reference_at p = p + 8

abbrev pub size_at : ℕ → ℕ
size_at p = p + 16

abbrev pub begin_ref : Allocator → Memory → ℕ
begin_ref a m = read_word m (begin_ref_at a)

abbrev pub data_end : Allocator → Memory → ℕ
data_end a m = read_word m (data_end_at a)

abbrev pub allocated : Allocator → Memory → ℕ
allocated a m = read_word m (allocated_at a)

-- `Pointer`: the address of a reference, or null. `Pointer::get`:
unfoldable pub get : Option ℕ → Memory → Option ℕ
get none m = none
get (some p) m = if read_word m p == 0 then none else some (read_word m p + info_size)

-- The constructor. (`size < sizeof(size_t)` is its only check.)
unfoldable pub new_allocator : ℕ → ℕ → Memory → Result Allocator
new_allocator base size m =
    if ltb size 8
    then failed no_memory m
    else done (record { base = base; size = size })
        (write_word (base + 16) (base + size)
          (write_word (base + 8) (base + info_size) (write_word base info_size m)))

-- `get_next`; `none` if the fuel runs out.
unfoldable pub next_loop : ℕ → ℕ → Memory → ℕ → Option ℕ
next_loop zero r m cur = none
next_loop (suc fuel) r m cur =
    let rest = next_loop fuel r m (read_word m (next_at cur)) in
    if ltb cur r && (read_word m (size_at cur) == 0) then rest else some (min cur r)

unfoldable pub get_next : Allocator → Memory → ℕ → Option ℕ
unfolding next_loop
get_next a m from = next_loop a.size (begin_ref a m) m (read_word m (next_at from))

-- `get_available_ref_space`: n references from `r` on are left, of which the last stands before `it`.
unfoldable pub ref_loop : ℕ → ℕ → Memory → ℕ → ℕ
ref_loop zero r m it = r - 8
ref_loop (suc n) r m it =
    let rest = ref_loop n r m (it - 8) in if read_word m (it - 8) == 0 then it - 8 else rest

unfoldable pub get_available_ref_space : Allocator → Memory → ℕ
unfolding ref_loop
get_available_ref_space a m = ref_loop ((end_of a - begin_ref a m) / 8) (begin_ref a m) m (end_of a)

-- The writes of the first allocation.
unfoldable pub place_first : Allocator → ℕ → ℕ → Memory → Memory
place_first a ref_space n m =
    let to = data_end a m in
    let m₁ = write_word (next_at to) (end_of a) m in
    let m₂ = write_word (reference_at to) ref_space m₁ in
    let m₃ = write_word (size_at to) n m₂ in
    let m₄ = write_word (allocated_at a) (add64 (allocated a m₃) (add64 n info_size)) m₃ in
    let m₅ = write_word (data_end_at a) (add64 (data_end a m₄) (add64 n info_size)) m₄ in
    let m₆ = write_word (begin_ref_at a) (min (begin_ref a m₅) ref_space) m₅ in
    write_word (read_word m₆ (reference_at to)) to m₆

-- The writes of a later one, behind the block `cur`.
unfoldable pub place : Allocator → ℕ → ℕ → ℕ → ℕ → ℕ → Memory → Memory
place a cur to next ref_space n m =
    let m₀ = write_word (next_at cur) to m in
    let m₁ = write_word (next_at to) next m₀ in
    let m₂ = write_word (reference_at to) ref_space m₁ in
    let m₃ = write_word (size_at to) n m₂ in
    let m₄ = write_word (allocated_at a) (add64 (allocated a m₃) (add64 n info_size)) m₃ in
    let m₅ = write_word (data_end_at a) (max (add64 to (add64 n info_size)) (data_end a m₄)) m₄ in
    let m₆ = write_word (begin_ref_at a) (min (begin_ref a m₅) ref_space) m₅ in
    write_word ref_space to m₆

-- One round of the loop of `alloc` at `cur`, whose next block is known.
unfoldable pub alloc_at : Allocator → ℕ → ℕ → ℕ → ℕ → Memory → Option Memory
unfolding place
alloc_at a ref_space n cur next m =
    let to = add64 (add64 cur info_size) (read_word m (size_at cur)) in
    let free_dist =
      sub64 (sub64 (sub64 (min next ref_space) cur) (read_word m (size_at cur))) info_size in
    if leb (add64 n info_size) free_dist then some (place a cur to next ref_space n m) else none

-- The loop of `alloc`.
unfoldable pub alloc_loop : ℕ → Allocator → ℕ → ℕ → ℕ → Memory → Result (Option ℕ)
unfolding get_next alloc_at
alloc_loop zero a ref_space n cur m = stuck
alloc_loop (suc fuel) a ref_space n cur m =
    if ltb cur (begin_ref a m)
    then elim (get_next a m cur) [
      | none ↦ stuck
      | some next ↦ elim (alloc_at a ref_space n cur next m) [
        | some m' ↦ done (some ref_space) m'
        | none ↦ alloc_loop fuel a ref_space n next m
      ]
    ]
    else failed no_memory m

-- `Allocator::alloc`
unfoldable pub alloc : Allocator → ℕ → Memory → Result (Option ℕ)
unfolding get_available_ref_space place_first alloc_loop
alloc a n m =
    let ref_space = get_available_ref_space a m in
    if ltb (sub64 (sub64 (begin_ref a m) a.base) (allocated a m)) (add64 n info_size)
    then failed no_memory m
    else if leb ref_space (data_end a m)
    then failed no_memory m
    else if data_end a m == a.base + info_size
    then done (some ref_space) (place_first a ref_space n m)
    else alloc_loop a.size a ref_space n (a.base + info_size) m

-- The writes of `free`, for the block whose `MemoryInfo` stands at `from`.
unfoldable pub free_at : Allocator → ℕ → ℕ → Memory → Memory
free_at a p from m =
    let m₁ =
      write_word (allocated_at a)
        (sub64 (allocated a m) (add64 (read_word m (size_at from)) info_size)) m in
    write_word p 0 (write_word (size_at from) 0 m₁)

-- `Allocator::free`: the pointer afterwards is null.
unfoldable pub free : Allocator → Option ℕ → Memory → Result (Option ℕ)
unfolding get free_at
free a none m = failed invalid_free m
free a (some p) m =
    if read_word m p == 0 then failed invalid_free m else done none (free_at a p (read_word m p) m)
