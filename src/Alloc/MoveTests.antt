-- ===== src/Alloc/MoveTests.antt =====
-- The theorems on `realloc` and `defrag`, on an arena of 200 bytes at the address 100 with a block of 8
-- bytes and a freed one behind it.
use mathlib.Core.Path.{subst}
use technosphere.Alloc.Allocator.{
  Allocator, done, info_size, begin_ref, get_next, next_loop, size_at,
}
use technosphere.Alloc.Chain.{next_of}
use technosphere.Alloc.InPlace.{grows_over}
use technosphere.Alloc.Moves.{realloc}
use technosphere.Alloc.Realloc.{Replaced, realloc-Moved}
use technosphere.Alloc.Table.{IsPlace, Holds, IsTable}
use technosphere.Alloc.Words.{read_word, write_word}
use technosphere.Cache.Memory.{Memory, memcpy}
use technosphere.Common.{
  ℕ, zero, suc, ◌+◌, ◌*◌, ◌≤◌, ◌<◌, ◌≡◌, ◌⊎◌, refl, inl, inr, some, List, [], ◌∷◌, arith, min,
}

abbrev arena : Allocator
arena = record { base = 100; size = 200 }

abbrev zeros : Memory
zeros a = 0

abbrev memory : Memory
memory = write_word 292 124 (
    write_word 172 0 (
      write_word 164 284 (
        write_word 156 284 (
          write_word 140 8 (
            write_word 132 292 (
              write_word 124 156
                (write_word 116 284 (write_word 108 188 (write_word 100 56 zeros)))))))))

abbrev blocks : List ℕ
blocks = 156 ∷ []

holds : Holds arena memory blocks 292
unfolding read_word write_word memcpy
holds = (inl refl, omega arith, refl)

null : read_word memory 284 ≡ 0
unfolding read_word write_word memcpy
null = refl

places : (p k : ℕ) → p + 8 * k ≡ 300 → 0 < k → 284 ≤ p → (292 ≡ p) ⊎ (284 ≡ p)
places p zero e h l = absurd (omega arith)
places p (suc zero) e h l = inl (omega (arith, e))
places p (suc (suc zero)) e h l = inr (omega (arith, e))
places p (suc (suc (suc k))) e h l = absurd (omega (arith, e, l))

refs : (p : ℕ) → IsPlace arena p → 284 ≤ p → (read_word memory p ≡ 0) ⊎ Holds arena memory blocks p
refs p (k, e, h) l = elim (places p k e h l) [
  | inl f ↦ inr (subst (Holds arena memory blocks) f holds)
  | inr f ↦ inl (subst (λ (x : ℕ). read_word memory x ≡ 0) f null)
]

memory-IsTable : IsTable arena memory blocks
unfolding read_word write_word memcpy
memory-IsTable = record {
  heap = record { low = omega arith; apart = omega arith; inside = omega arith; top = omega arith };
  chain = (refl, omega arith, (omega arith, omega arith));
  n_refs = 2;
  aligned = refl;
  refs = refs;
}

place : IsPlace arena 292
place = (1, refl, omega arith)

place_in : begin_ref arena memory ≤ 292
unfolding read_word write_word memcpy
place_in = omega arith

next : get_next arena memory (read_word memory 292) ≡ some 284
unfolding get_next next_loop read_word write_word memcpy
next = refl

fits : read_word memory 292 + info_size + 40 ≤ min 284 (begin_ref arena memory)
unfolding read_word write_word memcpy
fits = omega arith

next_block : next_of memory (read_word memory 292) ≡ 156
unfolding read_word write_word memcpy
next_block = refl

covered : 156 + info_size ≤ read_word memory 292 + info_size + 40
unfolding read_word write_word memcpy
covered = omega arith

-- A block that grows over the freed one, in which the program then writes a byte.
grows_over_example :
    (realloc arena (some 292) 40 memory
      ≡ done (some 292) (write_word (size_at (read_word memory 292)) 40 memory))
    × (read_word memory 292 + info_size ≤ size_at 156)
    × (size_at 156 + 8 ≤ read_word memory 292 + info_size + 40)
    × (get_next arena
          (write_word (size_at 156) 1 (write_word (size_at (read_word memory 292)) 40 memory))
          (read_word memory 292)
        ≡ some 156)
grows_over_example =
    grows_over arena 40 memory blocks memory-IsTable (omega arith) (omega arith) 292 place place_in
      holds 156 1 284 next fits next_block (inl refl) covered (omega arith) (omega arith)

-- With the second block live.
abbrev full : Memory
full = write_word 284 156 (write_word 172 8 memory)

full_holds : Holds arena full blocks 292
unfolding read_word write_word memcpy
full_holds = (inl refl, omega arith, refl)

full_second : Holds arena full blocks 284
unfolding read_word write_word memcpy
full_second = (inr (inl refl), omega arith, refl)

full_refs : (p : ℕ) → IsPlace arena p → 284 ≤ p → (read_word full p ≡ 0) ⊎ Holds arena full blocks p
full_refs p (k, e, h) l = elim (places p k e h l) [
  | inl f ↦ inr (subst (Holds arena full blocks) f full_holds)
  | inr f ↦ inr (subst (Holds arena full blocks) f full_second)
]

full-IsTable : IsTable arena full blocks
unfolding read_word write_word memcpy
full-IsTable = record {
  heap = record { low = omega arith; apart = omega arith; inside = omega arith; top = omega arith };
  chain = (refl, omega arith, (omega arith, omega arith));
  n_refs = 2;
  aligned = refl;
  refs = full_refs;
}

full_in : begin_ref arena full ≤ 292
unfolding read_word write_word memcpy
full_in = omega arith

-- The block is moved behind the second one.
realloc-Moved_example :
    (next : ℕ) × (get_next arena full (read_word full 292) ≡ some next)
    × (((read_word full 292 + info_size + 40 ≤ min next (begin_ref arena full))
          × (realloc arena (some 292) 40 full
              ≡ done (some 292) (write_word (size_at (read_word full 292)) 40 full)))
        ⊎ ((min next (begin_ref arena full) < read_word full 292 + info_size + 40)
            × Replaced arena 40 full blocks full-IsTable
                (omega arith)
                (omega arith)
                292
                place
                full_in
                full_holds
                (realloc arena (some 292) 40 full)))
realloc-Moved_example =
    realloc-Moved arena 40 full blocks full-IsTable (omega arith) (omega arith) 292 place full_in
      full_holds
