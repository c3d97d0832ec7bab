-- ===== src/Alloc/Moves.antt =====
-- sphere_prac/p1/allocator.cpp: realloc and defrag, which move blocks.
use technosphere.Alloc.Allocator.{
  Result, done, failed, stuck, Allocator, info_size, end_of, data_end_at, begin_ref_at, next_at,
  reference_at, size_at, begin_ref, data_end, allocated, get_next, alloc, free_at,
}
use technosphere.Alloc.Words.{add64, sub64, read_word, write_word}
use technosphere.Cache.Memory.{Memory, memcpy, read_bytes}
use technosphere.Common.{
  ℕ, zero, suc, ◌+◌, ◌&&◌, Option, none, some, ltb, leb, ◌==◌, if◌then◌else◌, min,
}

-- The reference `old` takes over the block at `info`, and the one it had is null.
unfoldable pub swap : ℕ → ℕ → Memory → Memory
swap old info m =
    let m₃ = write_word old info m in
    let m₄ = write_word (read_word m₃ (reference_at info)) 0 m₃ in
    write_word (reference_at info) old m₄

-- The end of `realloc`, when the new block has the reference `new` and the old one had `old`.
unfoldable pub move_block : Allocator → ℕ → ℕ → ℕ → Memory → Memory
unfolding free_at swap
move_block a old new n m =
    let cur = read_word m old in
    let info = read_word m new in
    let len = min (read_word m (size_at cur)) n in
    let m₁ = memcpy (info + info_size) (read_bytes m (cur + info_size) len) m in
    swap old info (free_at a old cur m₁)

unfoldable pub after_alloc : Allocator → ℕ → ℕ → Result (Option ℕ) → Result (Option ℕ)
unfolding move_block
after_alloc a old n (done (some new) m) = done (some old) (move_block a old new n m)
after_alloc a old n (done none m) = stuck
after_alloc a old n (failed e m) = failed e m
after_alloc a old n stuck = stuck

-- `realloc` of a block at `cur`.
unfoldable pub realloc_at : Allocator → ℕ → ℕ → Option ℕ → Memory → Result (Option ℕ)
unfolding alloc after_alloc
realloc_at a p n none m = stuck
realloc_at a p n (some next) m =
    let cur = read_word m p in
    if leb (add64 n info_size) (sub64 (min next (begin_ref a m)) cur)
    then done (some p) (write_word (size_at cur) n m)
    else after_alloc a p n (alloc a n m)

-- `Allocator::realloc`
unfoldable pub realloc : Allocator → Option ℕ → ℕ → Memory → Result (Option ℕ)
unfolding alloc realloc_at get_next
realloc a none n m = alloc a n m
realloc a (some p) n m =
    if read_word m p == 0 then alloc a n m else realloc_at a p n (get_next a m (read_word m p)) m

-- One round of the loop of `defrag`: where `cur` stands afterwards. `prev` is not initialised before
-- the first round.
unfoldable pub shift : Allocator → Option ℕ → ℕ → Memory → Option (ℕ × Memory)
shift a prev cur m = if cur == data_end a m then some (cur, m) else elim prev [
  | none ↦ none
  | some before ↦
      let to = data_end a m in
      let len = add64 (read_word m (size_at cur)) info_size in
      let m₁ = memcpy to (read_bytes m cur len) m in
      let m₂ = write_word (read_word m₁ (reference_at to)) to m₁ in
      some (to, write_word (next_at before) to m₂)
]

unfoldable pub defrag_loop : ℕ → Allocator → Option ℕ → ℕ → Memory → Option Memory
unfolding shift get_next
defrag_loop zero a prev cur m = none
defrag_loop (suc fuel) a prev cur m =
    if ltb cur (begin_ref a m)
    then elim (shift a prev cur m) [
      | none ↦ none
      | some (to, m₁) ↦
          let m₂ =
            write_word (data_end_at a) (add64 (add64 to info_size) (read_word m₁ (size_at to)))
              m₁ in
          elim (get_next a m₂ to) [ none ↦ none | some next ↦ defrag_loop fuel a (some to) next m₂ ]
    ]
    else some m

-- The last loop: it looks at one byte of each reference.
unfoldable pub trim_refs : ℕ → Allocator → Memory → Memory
trim_refs zero a m = m
trim_refs (suc n) a m =
    let r = begin_ref a m in
    let rest = trim_refs n a (write_word (begin_ref_at a) (add64 r 8) m) in
    if ltb r (end_of a) && (m r == 0) then rest else m

-- `Allocator::defrag`
unfoldable pub defrag : Allocator → Memory → Option Memory
unfolding defrag_loop trim_refs get_next
defrag a m =
    let first = a.base + info_size in
    if allocated a m == info_size
    then some (write_word (begin_ref_at a) (end_of a) (write_word (data_end_at a) first m))
    else (let m₁ = write_word (data_end_at a) first m in
        let start = if read_word m₁ (size_at first) == 0 then get_next a m₁ first else some first in
        elim start [
          | none ↦ none
          | some cur ↦ elim (defrag_loop a.size a none cur m₁) [
            | none ↦ none
            | some m₂ ↦ some (trim_refs a.size a m₂)
          ]
        ])
