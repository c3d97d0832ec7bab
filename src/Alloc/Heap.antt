-- ===== src/Alloc/Heap.antt =====
-- `alloc` on a heap, and the first allocation.
use technosphere.Alloc.Allocator.{
  reference_at, Allocator, no_memory, done, failed, info_size, end_of, begin_ref, data_end,
  allocated, get_available_ref_space, ref_loop, alloc, place_first,
}
use technosphere.Alloc.Chain.{size_of, Chain, Chain-le, Chain-length}
use technosphere.Alloc.First.{
  reference-place_first, back-place_first, size-place_first, next-place_first,
  begin_ref-place_first, data_end-place_first,
}
use technosphere.Alloc.Insert.{Setting, Fresh}
use technosphere.Alloc.Loop.{alloc_loop-Fresh}
use technosphere.Alloc.Words.{add64, sub64, read_word}
use technosphere.Cache.Memory.{Memory}
use technosphere.Common.{
  ℕ, zero, suc, ◌+◌, ◌-◌, ◌*◌, ◌/◌, ◌≤◌, ◌<◌, ◌^◌, ◌≡◌, ◌⊎◌, inl, inr, refl, ap, ◌∙◌, true, false,
  some, List, [], arith, ltb, leb, ◌==◌, Bool-cases,
}

-- The general information: the blocks end before the references, and these before the end.
pub record IsHeap (a : Allocator) (m : Memory) : Type 0 where
  pub low : a.base + info_size ≤ data_end a m
  pub apart : data_end a m ≤ begin_ref a m
  pub inside : begin_ref a m ≤ end_of a
  pub top : end_of a < 2 ^ 64

-- The reference that is taken stands in the memory, and is null or just before the others.
pub ref_loop-free :
    (n r : ℕ) (m : Memory) (it : ℕ)
    → 8 ≤ r
    → r + 8 * n ≤ it
    → (ref_loop n r m it + 8 ≤ it)
      × ((ref_loop n r m it + 8 ≡ r) ⊎ (read_word m (ref_loop n r m it) ≡ 0))
unfolding ref_loop
ref_loop-free zero r m it h k = (omega arith, inl (omega arith))
ref_loop-free (suc n) r m it h k = elim (Bool-cases (read_word m (it - 8) == 0)) [
  | inl e ↦ rw e (omega arith, inr (ground (arith, e)))
  | inr e ↦
      let (le, free) = ref_loop-free n r m (it - 8) h (omega arith) in
      rw e (omega (arith, le), free)
]

module _ (a : Allocator) (n : ℕ) (m : Memory) (w : IsHeap a m)
    (small : n + info_size < 2 ^ 64) where
  open w use {low, apart, inside, top}

  -- With the slot that get_available_ref_space gives.
  pub alloc-Fresh :
      (bs : List ℕ)
      → Chain (begin_ref a m) (data_end a m) m (a.base + info_size) bs
      → (alloc a n m ≡ failed no_memory m)
        ⊎ ((m' : Memory) × (alloc a n m ≡ done (some (get_available_ref_space a m)) m')
            × Fresh a (get_available_ref_space a m) n m m' (a.base + info_size) bs)
  unfolding alloc get_available_ref_space
  alloc-Fresh bs h =
      let r = begin_ref a m in
      let lim = data_end a m in
      let first = a.base + info_size in
      let slot = get_available_ref_space a m in
      let (room, free) =
        ref_loop-free ((end_of a - r) / 8) r m (end_of a) (omega arith) (omega arith) in
      let le = Chain-le r lim m first bs h in
      let long = Chain-length r lim m first bs h in
      elim (Bool-cases (ltb (sub64 (sub64 r a.base) (allocated a m)) (add64 n info_size))) [
        | inl e ↦ inl (ground (arith, e))
        | inr e ↦ elim (Bool-cases (leb slot lim)) [
          | inl f ↦ inl (ground (arith, e, f))
          | inr f ↦
              let later : lim == first ≡ false = ground (arith, le) in
              let at : Setting a m slot n = record {
                apart = apart;
                inside = inside;
                top = top;
                behind = ground (arith, f);
                room = room;
                small = small;
              } in
              elim (alloc_loop-Fresh a slot n m at a.size first bs (omega arith) h
                (omega (arith, long))) [
                  | inl run ↦ inl (ground (arith, e, f, later, run))
                  | inr (m', run, fresh) ↦ inr (m', ground (arith, e, f, later, run), fresh)
                ]
        ]
      ]

  pub Fresh-IsHeap :
      (slot : ℕ) (m' : Memory) (bs : List ℕ)
      → Fresh a slot n m m' (a.base + info_size) bs
      → IsHeap a m'
  Fresh-IsHeap slot m' bs fresh =
      let first = a.base + info_size in
      record {
        low =
            omega
              (arith, Chain-le (begin_ref a m') (data_end a m') m' first fresh.blocks fresh.chain);
        apart = fresh.new_end;
        inside = omega (arith, fresh.new_ref);
        top = top;
      }

  -- On a heap with blocks `alloc` throws NoMemory and changes nothing, or returns a reference that
  -- was free and holds the new block: of the size asked for, before the references, apart from every
  -- live block, whose bytes stay; and what it leaves is a heap again.
  pub alloc-IsHeap :
      (bs : List ℕ)
      → Chain (begin_ref a m) (data_end a m) m (a.base + info_size) bs
      → (alloc a n m ≡ failed no_memory m)
        ⊎ ((slot : ℕ) × (m' : Memory) × (alloc a n m ≡ done (some slot) m')
            × ((slot + 8 ≡ begin_ref a m) ⊎ (read_word m slot ≡ 0))
            × Fresh a slot n m m' (a.base + info_size) bs
            × IsHeap a m')
  unfolding get_available_ref_space
  alloc-IsHeap bs h = elim (alloc-Fresh bs h) [
    | inl run ↦ inl run
    | inr (m', run, fresh) ↦
        let r = begin_ref a m in
        let slot = get_available_ref_space a m in
        let (room, free) =
          ref_loop-free ((end_of a - r) / 8) r m (end_of a) (omega arith) (omega arith) in
        inr (slot, m', run, free, fresh, Fresh-IsHeap slot m' bs fresh)
  ]

-- A memory as the constructor leaves it.
pub record IsNew (a : Allocator) (m : Memory) : Type 0 where
  pub no_blocks : data_end a m ≡ a.base + info_size
  pub no_refs : begin_ref a m ≡ end_of a
  pub counted : allocated a m ≡ info_size
  pub top : end_of a < 2 ^ 64
  pub room : info_size + 8 ≤ a.size

module _ (a : Allocator) (n : ℕ) (m : Memory) (w : IsNew a m) where
  open w use {no_blocks, no_refs, counted, top, room}

  last_ref : get_available_ref_space a m ≡ end_of a - 8
  unfolding get_available_ref_space ref_loop
  last_ref =
      ap (λ (r : ℕ). ref_loop ((end_of a - r) / 8) r m (end_of a)) no_refs
      ∙ (let none_left : (end_of a - end_of a) / 8 ≡ 0 = omega arith in rw none_left refl)

  alloc-place_first :
      n + info_size + info_size ≤ a.size
      → alloc a n m ≡ done (some (end_of a - 8)) (place_first a (end_of a - 8) n m)
  unfolding alloc
  alloc-place_first h =
      let enough : ltb (sub64 (sub64 (begin_ref a m) a.base) (allocated a m)) (add64 n info_size)
          ≡ false =
        ground (arith, no_refs, counted) in
      let behind : leb (end_of a - 8) (data_end a m) ≡ false = ground (arith, no_blocks) in
      let none_yet : data_end a m == a.base + info_size ≡ true = ground (arith, no_blocks) in
      rw (last_ref, enough, behind, none_yet) refl

  -- The first allocation of n bytes succeeds if the general information, the block and its reference
  -- fit: the last reference holds the block, its size is n, it names this reference, and what is left is
  -- a heap of this one block.
  pub alloc-IsNew :
      n + info_size + info_size + 8 ≤ a.size
      → (m' : Memory) × (alloc a n m ≡ done (some (end_of a - 8)) m')
        × (read_word m' (end_of a - 8) ≡ a.base + info_size)
        × (size_of m' (a.base + info_size) ≡ n)
        × (read_word m' (reference_at (a.base + info_size)) ≡ end_of a - 8)
        × (begin_ref a m' ≡ end_of a - 8)
        × Chain (begin_ref a m') (data_end a m') m' (a.base + info_size) []
        × IsHeap a m'
  alloc-IsNew h =
      let slot = end_of a - 8 in
      let below : a.base + info_size + info_size + n ≤ slot = omega arith in
      let inside : slot + 8 ≤ end_of a = omega arith in
      let size = size-place_first a slot n m no_blocks below inside top in
      let next = next-place_first a slot n m no_blocks below inside top in
      let ref = begin_ref-place_first a slot n m no_blocks below inside top no_refs in
      let end = data_end-place_first a slot n m no_blocks below inside top in
      (
        place_first a slot n m,
        alloc-place_first (omega arith),
        reference-place_first a slot n m no_blocks below inside top,
        size,
        back-place_first a slot n m no_blocks below inside top,
        omega (arith, ref),
        (omega (arith, ref, next), omega (arith, end, size)),
        record {
          low = omega (arith, end);
          apart = omega (arith, ref, end);
          inside = omega (arith, ref);
          top = top;
        },
      )

  -- The test for memory leaves the reference out: a first block of n bytes that leaves less than eight
  -- bytes is given all the same, and reaches into the reference that is returned for it.
  pub alloc_overlap :
      n + info_size + info_size ≤ a.size
      → a.size < n + info_size + info_size + 8
      → (m' : Memory) × (alloc a n m ≡ done (some (end_of a - 8)) m')
        × (end_of a - 8 < a.base + info_size + info_size + n)
  alloc_overlap h k = (place_first a (end_of a - 8) n m, alloc-place_first h, omega arith)
