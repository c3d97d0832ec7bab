-- ===== src/Alloc/Free.antt =====
-- `free` leaves a heap: the block stays in the chain, with the size 0.
use technosphere.Alloc.Allocator.{
  Allocator, done, info_size, begin_ref, data_end, allocated, get, free, free_at, size_at,
  allocated_at, data_end_at, begin_ref_at,
}
use technosphere.Alloc.Chain.{IsBlock, size_of, Chain, Chain-le, Chain_congr}
use technosphere.Alloc.Heap.{IsHeap}
use technosphere.Alloc.Words.{
  add64, sub64, read_word, write_word, read_word-write_word, read_word-write_word_ne,
  write_word_out,
}
use technosphere.Cache.Memory.{Memory}
use technosphere.Common.{
  ℕ, ◌+◌, ◌≤◌, ◌≡◌, ap, ◌⊎◌, inl, inr, refl, sym, ◌∙◌, false, none, some, List, [], ◌∷◌, arith,
  ◌==◌,
}

pub IsBlock-le :
    (r lim : ℕ) (m : Memory) (b c : ℕ) (cs : List ℕ)
    → Chain r lim m c cs
    → IsBlock b (c ∷ cs)
    → (c ≤ b) × (b + info_size + size_of m b ≤ lim)
IsBlock-le r lim m b c [] h (inl e) = (omega (arith, e), omega (arith, e, h.1, ap (size_of m) e))
IsBlock-le r lim m b c [] h (inr i) = elim i [ ]
IsBlock-le r lim m b c (d ∷ ds) h (inl e) =
    (omega (arith, e), omega (arith, e, Chain-le r lim m c (d ∷ ds) h, ap (size_of m) e))
IsBlock-le r lim m b c (d ∷ ds) h (inr i) =
    let (le, below) = IsBlock-le r lim m b d ds h.2 i in (omega (arith, h.1, le), below)

-- Two blocks of a chain.
pub IsBlock-apart :
    (r lim : ℕ) (m : Memory) (b c d : ℕ) (bs : List ℕ)
    → Chain r lim m d bs
    → IsBlock b (d ∷ bs)
    → IsBlock c (d ∷ bs)
    → (b ≡ c) ⊎ ((b + info_size ≤ c) ⊎ (c + info_size ≤ b))
IsBlock-apart r lim m b c d bs h (inl e) (inl f) = inl (e ∙ sym f)
IsBlock-apart r lim m b c d [] h (inl e) (inr k) = elim k [ ]
IsBlock-apart r lim m b c d [] h (inr i) k = elim i [ ]
IsBlock-apart r lim m b c d (x ∷ bs) h (inl e) (inr k) =
    let (le, _) = IsBlock-le r lim m c x bs h.2 k in inr (inl (omega (arith, e, le, h.1)))
IsBlock-apart r lim m b c d (x ∷ bs) h (inr i) (inl f) =
    let (le, _) = IsBlock-le r lim m b x bs h.2 i in inr (inr (omega (arith, f, le, h.1)))
IsBlock-apart r lim m b c d (x ∷ bs) h (inr i) (inr k) = IsBlock-apart r lim m b c x bs h.2 i k

-- The size of a block set to 0.
Chain-zero :
    (r lim : ℕ) (m : Memory) (b c : ℕ) (cs : List ℕ)
    → Chain r lim m c cs
    → IsBlock b (c ∷ cs)
    → Chain r lim (write_word (size_at b) 0 m) c cs
Chain-zero r lim m b c [] h (inl e) = (
  omega (arith, h.0, read_word-write_word_ne m (size_at b) 0 c (inl (omega (arith, e)))),
  omega (arith, h.1, zeroed),
)
  where
    zeroed : size_of (write_word (size_at b) 0 m) c ≡ 0
    zeroed = rw (sym e) (read_word-write_word m (size_at b) 0 (omega arith))
Chain-zero r lim m b c [] h (inr i) = elim i [ ]
Chain-zero r lim m b c (d ∷ ds) h (inl e) = (
  omega (arith, h.0, read_word-write_word_ne m (size_at b) 0 c (inl (omega (arith, e)))),
  omega (arith, h.1, zeroed),
  Chain_congr r r lim lim m (write_word (size_at b) 0 m) d ds h.2 (omega arith) (omega arith)
      (λ q p k. write_word_out m (size_at b) 0 q (inr (omega (arith, e, h.1)))),
)
  where
    zeroed : size_of (write_word (size_at b) 0 m) c ≡ 0
    zeroed = rw (sym e) (read_word-write_word m (size_at b) 0 (omega arith))
Chain-zero r lim m b c (d ∷ ds) h (inr i) =
    let (le, _) = IsBlock-le r lim m b d ds h.2 i in
    (
      omega (arith, h.0, read_word-write_word_ne m (size_at b) 0 c (inl (omega (arith, h.1, le)))),
      omega (
        arith,
        h.1,
        read_word-write_word_ne m (size_at b) 0 (size_at c) (inl (omega (arith, h.1, le))),
      ),
      Chain-zero r lim m b d ds h.2 i,
    )

module _ (a : Allocator) (m : Memory) (w : IsHeap a m) (p b : ℕ) (bs : List ℕ)
    (h : Chain (begin_ref a m) (data_end a m) m (a.base + info_size) bs)
    (i : IsBlock b ((a.base + info_size) ∷ bs)) (at_p : read_word m p ≡ b)
    (behind : data_end a m ≤ p) where
  open w use {low, apart, inside, top}

  pub free_at-IsHeap :
      (free a (some p) m ≡ done none (free_at a p b m))
      × IsHeap a (free_at a p b m)
      × Chain
          (begin_ref a (free_at a p b m))
          (data_end a (free_at a p b m))
          (free_at a p b m)
          (a.base + info_size)
          bs
      × (size_of (free_at a p b m) b ≡ 0)
      × (get (some p) (free_at a p b m) ≡ none)
  unfolding free free_at get
  free_at-IsHeap =
      let r = begin_ref a m in
      let lim = data_end a m in
      let first = a.base + info_size in
      let (le, fits) = IsBlock-le r lim m b first bs h i in
      let v = sub64 (allocated a m) (add64 (size_of m b) info_size) in
      let m₁ = write_word (allocated_at a) v m in
      let m₂ = write_word (size_at b) 0 m₁ in
      let m₃ = write_word p 0 m₂ in
      let ref : begin_ref a m₃ ≡ r =
        read_word-write_word_ne m₂ p 0 (begin_ref_at a) (inl (omega arith))
        ∙ read_word-write_word_ne m₁ (size_at b) 0 (begin_ref_at a) (inl (omega (arith, le)))
        ∙ read_word-write_word_ne m (allocated_at a) v (begin_ref_at a) (inr (omega arith)) in
      let end : data_end a m₃ ≡ lim =
        read_word-write_word_ne m₂ p 0 (data_end_at a) (inl (omega arith))
        ∙ read_word-write_word_ne m₁ (size_at b) 0 (data_end_at a) (inl (omega (arith, le)))
        ∙ read_word-write_word_ne m (allocated_at a) v (data_end_at a) (inr (omega arith)) in
      let c₁ =
        Chain_congr r r lim lim m m₁ first bs h (omega arith) (omega arith)
          (λ q k l. write_word_out m (allocated_at a) v q (inr (omega arith))) in
      let c₂ = Chain-zero r lim m₁ b first bs c₁ i in
      let c₃ =
        Chain_congr r (begin_ref a m₃) lim (data_end a m₃) m₂ m₃ first bs c₂ (omega (arith, ref))
          (omega (arith, end)) (λ q k l. write_word_out m₂ p 0 q (inl (omega arith))) in
      let null : read_word m₃ p ≡ 0 = read_word-write_word m₂ p 0 (omega arith) in
      let some_block : read_word m p == 0 ≡ false = ground (arith, at_p, le) in
      (
        rw (some_block, at_p) refl,
        record {
          low = omega (arith, end);
          apart = omega (arith, ref, end);
          inside = omega (arith, ref);
          top = top;
        },
        c₃,
        read_word-write_word_ne m₂ p 0 (size_at b) (inl (omega (arith, fits)))
            ∙ read_word-write_word m₁ (size_at b) 0 (omega arith),
        rw null refl,
      )

  -- `free` of a reference behind the blocks that holds one of them: what it leaves is a heap with the
  -- same blocks, this one with the size 0, the reference is null, and so is the pointer.
  pub free-IsHeap :
      (m' : Memory) × (free a (some p) m ≡ done none m')
      × IsHeap a m'
      × Chain (begin_ref a m') (data_end a m') m' (a.base + info_size) bs
      × (size_of m' b ≡ 0)
      × (get (some p) m' ≡ none)
  free-IsHeap =
      let (run, heap, chain, size, null) = free_at-IsHeap in
      (free_at a p b m, run, heap, chain, size, null)
