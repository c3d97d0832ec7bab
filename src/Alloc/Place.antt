-- ===== src/Alloc/Place.antt =====
-- What the writes of `alloc` behind a block change, and what not.
use technosphere.Alloc.Allocator.{
  Allocator, info_size, next_at, reference_at, size_at, allocated_at, data_end_at, begin_ref_at,
  allocated, data_end, begin_ref, place,
}
use technosphere.Alloc.Words.{
  word_mod, add64, read_word, write_word, read_word-write_word, read_word-write_word_ne,
  write_word_out,
}
use technosphere.Cache.Memory.{Memory}
use technosphere.Common.{ℕ, ◌+◌, ◌≤◌, ◌<◌, ◌^◌, ◌≡◌, ◌⊎◌, inl, inr, ap, ◌∙◌, arith, min, max}

-- Where the parts stand: the general information, the block `cur`, the new one behind it, and the
-- reference, in this order.
pub record Room (a : Allocator) (cur to slot n : ℕ) : Type 0 where
  pub above : a.base + info_size ≤ cur
  pub behind : cur + info_size ≤ to
  pub below : to + info_size + n ≤ slot
  pub top : slot + 8 ≤ 2 ^ 64

module _ (a : Allocator) (cur to next slot n : ℕ) (m : Memory) (w : Room a cur to slot n) where
  open w use {above, behind, below, top}

  pub place_out :
      (q : ℕ)
      → a.base + info_size ≤ q
      → (q < cur) ⊎ (cur + 8 ≤ q)
      → (q < to) ⊎ (to + info_size ≤ q)
      → (q < slot) ⊎ (slot + 8 ≤ q)
      → place a cur to next slot n m q ≡ m q
  unfolding place
  place_out q h c t s =
      write_word_out _ slot to q s
      ∙ write_word_out _ (begin_ref_at a) _ q (inr (omega arith))
      ∙ write_word_out _ (data_end_at a) _ q (inr (omega arith))
      ∙ write_word_out _ (allocated_at a) _ q (inr (omega arith))
      ∙ write_word_out _ (size_at to) n q (ground arith)
      ∙ write_word_out _ (reference_at to) slot q (ground arith)
      ∙ write_word_out _ (next_at to) next q (ground arith)
      ∙ write_word_out m (next_at cur) to q c

  pub next-place : read_word (place a cur to next slot n m) cur ≡ to
  unfolding place
  next-place =
      read_word-write_word_ne _ slot to cur (inl (omega arith))
      ∙ read_word-write_word_ne _ (begin_ref_at a) _ cur (inr (omega arith))
      ∙ read_word-write_word_ne _ (data_end_at a) _ cur (inr (omega arith))
      ∙ read_word-write_word_ne _ (allocated_at a) _ cur (inr (omega arith))
      ∙ read_word-write_word_ne _ (size_at to) n cur (inl (omega arith))
      ∙ read_word-write_word_ne _ (reference_at to) slot cur (inl (omega arith))
      ∙ read_word-write_word_ne _ (next_at to) next cur (inl (omega arith))
      ∙ read_word-write_word m cur to (omega arith)

  pub next-place_new : next < word_mod → read_word (place a cur to next slot n m) to ≡ next
  unfolding place
  next-place_new h =
      read_word-write_word_ne _ slot to to (inl (omega arith))
      ∙ read_word-write_word_ne _ (begin_ref_at a) _ to (inr (omega arith))
      ∙ read_word-write_word_ne _ (data_end_at a) _ to (inr (omega arith))
      ∙ read_word-write_word_ne _ (allocated_at a) _ to (inr (omega arith))
      ∙ read_word-write_word_ne _ (size_at to) n to (inl (omega arith))
      ∙ read_word-write_word_ne _ (reference_at to) slot to (inl (omega arith))
      ∙ read_word-write_word _ to next h

  pub size-place : read_word (place a cur to next slot n m) (size_at to) ≡ n
  unfolding place
  size-place =
      read_word-write_word_ne _ slot to (size_at to) (inl (omega arith))
      ∙ read_word-write_word_ne _ (begin_ref_at a) _ (size_at to) (inr (omega arith))
      ∙ read_word-write_word_ne _ (data_end_at a) _ (size_at to) (inr (omega arith))
      ∙ read_word-write_word_ne _ (allocated_at a) _ (size_at to) (inr (omega arith))
      ∙ read_word-write_word _ (size_at to) n (omega arith)

  pub back-place : read_word (place a cur to next slot n m) (reference_at to) ≡ slot
  unfolding place
  back-place =
      read_word-write_word_ne _ slot to (reference_at to) (inl (omega arith))
      ∙ read_word-write_word_ne _ (begin_ref_at a) _ (reference_at to) (inr (omega arith))
      ∙ read_word-write_word_ne _ (data_end_at a) _ (reference_at to) (inr (omega arith))
      ∙ read_word-write_word_ne _ (allocated_at a) _ (reference_at to) (inr (omega arith))
      ∙ read_word-write_word_ne _ (size_at to) n (reference_at to) (inl (omega arith))
      ∙ read_word-write_word _ (reference_at to) slot (omega arith)

  pub reference-place : read_word (place a cur to next slot n m) slot ≡ to
  unfolding place
  reference-place = read_word-write_word _ slot to (omega arith)

  pub begin_ref-place : begin_ref a (place a cur to next slot n m) ≡ min (begin_ref a m) slot
  unfolding place
  begin_ref-place =
      read_word-write_word_ne _ slot to (begin_ref_at a) (inl (omega arith))
      ∙ read_word-write_word _ (begin_ref_at a) _ (omega arith)
      ∙ ap (λ (r : ℕ). min r slot)
          (read_word-write_word_ne _ (data_end_at a) _ (begin_ref_at a) (inr (omega arith))
            ∙ read_word-write_word_ne _ (allocated_at a) _ (begin_ref_at a) (inr (omega arith))
            ∙ read_word-write_word_ne _ (size_at to) n (begin_ref_at a) (inl (omega arith))
            ∙ read_word-write_word_ne _ (reference_at to) slot (begin_ref_at a) (inl (omega arith))
            ∙ read_word-write_word_ne _ (next_at to) next (begin_ref_at a) (inl (omega arith))
            ∙ read_word-write_word_ne m (next_at cur) to (begin_ref_at a) (inl (omega arith)))

  pub data_end-place :
      data_end a m < word_mod
      → data_end a (place a cur to next slot n m) ≡ max (to + info_size + n) (data_end a m)
  unfolding place
  data_end-place h =
      let m₀ = write_word (next_at cur) to m in
      let m₁ = write_word (next_at to) next m₀ in
      let m₃ = write_word (size_at to) n (write_word (reference_at to) slot m₁) in
      let m₄ = write_word (allocated_at a) (add64 (allocated a m₃) (add64 n info_size)) m₃ in
      let e : data_end a m₄ ≡ data_end a m =
        read_word-write_word_ne _ (allocated_at a) _ (data_end_at a) (inr (omega arith))
        ∙ read_word-write_word_ne _ (size_at to) n (data_end_at a) (inl (omega arith))
        ∙ read_word-write_word_ne _ (reference_at to) slot (data_end_at a) (inl (omega arith))
        ∙ read_word-write_word_ne _ (next_at to) next (data_end_at a) (inl (omega arith))
        ∙ read_word-write_word_ne m (next_at cur) to (data_end_at a) (inl (omega arith)) in
      let sum : add64 to (add64 n info_size) ≡ to + info_size + n = omega arith in
      read_word-write_word_ne _ slot to (data_end_at a) (inl (omega arith))
      ∙ read_word-write_word_ne _ (begin_ref_at a) _ (data_end_at a) (inl (omega arith))
      ∙ read_word-write_word _ (data_end_at a) _ (omega (arith, e, sum))
      ∙ ap (λ (d : ℕ). max (add64 to (add64 n info_size)) d) e
      ∙ ap (λ (d : ℕ). max d (data_end a m)) sum
