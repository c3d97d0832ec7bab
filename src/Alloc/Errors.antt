-- ===== src/Alloc/Errors.antt =====
-- A pointer after `free`, and after the constructor.
use technosphere.Alloc.Allocator.{
  Allocator, invalid_free, done, failed, get, new_allocator, alloc, free, free_at, info_size,
}
use technosphere.Alloc.Heap.{IsNew}
use technosphere.Alloc.Moves.{realloc}
use technosphere.Alloc.Words.{read_word, write_word, read_word-write_word, read_word-write_word_ne}
use technosphere.Cache.Memory.{Memory}
use technosphere.Common.{
  ℕ, ◌+◌, ◌≤◌, ◌<◌, ◌^◌, ◌≡◌, ◌⊎◌, inl, inr, refl, ◌∙◌, false, none, some, arith, ltb, ◌==◌,
  Bool-cases,
}

-- A memory in which the reference p is null.
null_ref :
    (a : Allocator) (p n : ℕ) (m : Memory)
    → read_word m p ≡ 0
    → (get (some p) m ≡ none)
      × (free a (some p) m ≡ failed invalid_free m)
      × (realloc a (some p) n m ≡ alloc a n m)
unfolding free realloc get
null_ref a p n m e = (rw e refl, rw e refl, rw e refl)

-- `free` throws InvalidFree and changes nothing, or succeeds; afterwards the block cannot be reached
-- by any copy of the pointer: `get` is null, a second `free` throws InvalidFree and changes nothing,
-- and `realloc` is an allocation.
pub free_twice :
    (a : Allocator) (p : ℕ) (m : Memory)
    → (free a (some p) m ≡ failed invalid_free m)
      ⊎ ((m' : Memory) × (free a (some p) m ≡ done none m')
          × (get (some p) m' ≡ none)
          × (free a (some p) m' ≡ failed invalid_free m')
          × ((n : ℕ) → realloc a (some p) n m' ≡ alloc a n m'))
unfolding free free_at
free_twice a p m = elim (Bool-cases (read_word m p == 0)) [
  | inl e ↦ inl (rw e refl)
  | inr e ↦
      let m' = free_at a p (read_word m p) m in
      let null : read_word m' p ≡ 0 = read_word-write_word _ p 0 (omega arith) in
      inr (
        m',
        rw e refl,
        (null_ref a p 0 m' null).0,
        (null_ref a p 0 m' null).1,
        λ n. (null_ref a p n m' null).2,
      )
]

-- In an arena of at least 32 bytes below 2^64 the constructor succeeds and leaves no blocks and no
-- references.
pub new_allocator-IsNew :
    (base size : ℕ) (m : Memory)
    → base + size < 2 ^ 64
    → 32 ≤ size
    → (m' : Memory) × (new_allocator base size m ≡ done (record { base = base; size = size }) m')
      × IsNew (record { base = base; size = size }) m'
unfolding new_allocator
new_allocator-IsNew base size m top room =
    let enough : ltb size 8 ≡ false = ground arith in
    let m₁ = write_word base info_size m in
    let m₂ = write_word (base + 8) (base + info_size) m₁ in
    let m₃ = write_word (base + 16) (base + size) m₂ in
    (
      m₃,
      rw enough refl,
      record {
        no_blocks =
            read_word-write_word_ne m₂ (base + 16) _ (base + 8) (inl (omega arith))
            ∙ read_word-write_word m₁ (base + 8) _ (omega arith);
        no_refs = read_word-write_word m₂ (base + 16) _ (omega arith);
        counted =
            read_word-write_word_ne m₂ (base + 16) _ base (inl (omega arith))
            ∙ read_word-write_word_ne m₁ (base + 8) _ base (inl (omega arith))
            ∙ read_word-write_word m base _ (omega arith);
        top = top;
        room = room;
      },
    )
