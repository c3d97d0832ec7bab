-- ===== src/Alloc/Tests.antt =====
-- The theorems on the allocator, on an arena of 200 bytes at the address 100.
use technosphere.Alloc.Allocator.{
  Allocator, free_at, done, failed, no_memory, begin_ref, data_end, new_allocator, alloc,
  place_first, free,
}
use technosphere.Alloc.Chain.{Chain}
use technosphere.Alloc.Runs.{step, stop, frees, HasTable, Run-HasTable}
use technosphere.Alloc.Heap.{IsHeap, IsNew, alloc-IsHeap}
use technosphere.Alloc.Insert.{Fresh}
use technosphere.Alloc.Words.{read_word, write_word}
use technosphere.Cache.Memory.{Memory, memcpy}
use technosphere.Common.{ℕ, ◌+◌, ◌≤◌, ◌≡◌, ◌⊎◌, refl, some, none, [], arith}

abbrev arena : Allocator
arena = record { base = 100; size = 200 }

abbrev zeros : Memory
zeros a = 0

-- What the constructor leaves.
abbrev new_memory : Memory
new_memory = write_word 116 300 (write_word 108 124 (write_word 100 24 zeros))

new_allocator-arena : new_allocator 100 200 zeros ≡ done arena new_memory
unfolding new_allocator
new_allocator-arena = refl

new_memory-IsNew : IsNew arena new_memory
unfolding read_word write_word memcpy
new_memory-IsNew = record {
  no_blocks = refl;
  no_refs = refl;
  counted = refl;
  top = omega arith;
  room = omega arith;
}

-- With a block of 8 bytes.
abbrev used_memory : Memory
used_memory = place_first arena 292 8 new_memory

used_memory-IsHeap : IsHeap arena used_memory
unfolding read_word write_word memcpy place_first
used_memory-IsHeap = record {
  low = omega arith;
  apart = omega arith;
  inside = omega arith;
  top = omega arith;
}

used_memory-Chain :
    Chain (begin_ref arena used_memory) (data_end arena used_memory) used_memory 124 []
unfolding read_word write_word memcpy place_first
used_memory-Chain = (omega arith, omega arith)

alloc-IsHeap_example :
    (alloc arena 8 used_memory ≡ failed no_memory used_memory)
    ⊎ ((slot : ℕ) × (m' : Memory) × (alloc arena 8 used_memory ≡ done (some slot) m')
        × ((slot + 8 ≡ begin_ref arena used_memory) ⊎ (read_word used_memory slot ≡ 0))
        × Fresh arena slot 8 used_memory m' 124 []
        × IsHeap arena m')
alloc-IsHeap_example =
    alloc-IsHeap arena 8 used_memory used_memory-IsHeap (omega arith) [] used_memory-Chain

first_run : alloc arena 8 new_memory ≡ done (some 292) used_memory
unfolding alloc new_allocator read_word write_word memcpy place_first
first_run = refl

-- The block is freed again.
abbrev freed_memory : Memory
freed_memory = free_at arena 292 124 used_memory

free_run : free arena (some 292) used_memory ≡ done none freed_memory
unfolding free read_word write_word memcpy place_first
free_run = refl

table_end : begin_ref arena used_memory ≤ 292
unfolding read_word write_word memcpy place_first
table_end = omega arith

Run-HasTable_example : HasTable arena freed_memory
Run-HasTable_example =
    Run-HasTable arena 8 new_memory used_memory freed_memory new_memory-IsNew (omega arith)
      (omega arith) first_run
      (step (frees {p = 292} (1, refl, omega arith) table_end free_run) stop)
