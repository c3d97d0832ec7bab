-- ===== src/Alloc/First.antt =====
-- What the writes of the first allocation leave.
use technosphere.Alloc.Allocator.{
  Allocator, info_size, end_of, next_at, reference_at, size_at, allocated_at, data_end_at,
  begin_ref_at, allocated, data_end, begin_ref, place_first,
}
use technosphere.Alloc.Words.{
  add64, read_word, write_word, read_word-write_word, read_word-write_word_ne,
}
use technosphere.Cache.Memory.{Memory}
use technosphere.Common.{ℕ, ◌+◌, ◌≤◌, ◌<◌, ◌^◌, ◌≡◌, inl, inr, ap, ◌∙◌, arith, min}

-- The writes but the last.
abbrev filled : Allocator → ℕ → ℕ → Memory → Memory
filled a slot n m =
    let to = data_end a m in
    let m₁ = write_word (next_at to) (end_of a) m in
    let m₂ = write_word (reference_at to) slot m₁ in
    let m₃ = write_word (size_at to) n m₂ in
    let m₄ = write_word (allocated_at a) (add64 (allocated a m₃) (add64 n info_size)) m₃ in
    let m₅ = write_word (data_end_at a) (add64 (data_end a m₄) (add64 n info_size)) m₄ in
    write_word (begin_ref_at a) (min (begin_ref a m₅) slot) m₅

module _ (a : Allocator) (slot n : ℕ) (m : Memory) (start : data_end a m ≡ a.base + info_size)
    (fits : a.base + info_size + info_size + n ≤ slot) (inside : slot + 8 ≤ end_of a)
    (top : end_of a < 2 ^ 64) where
  filled-place_first : place_first a slot n m ≡ write_word slot (data_end a m) (filled a slot n m)
  unfolding place_first
  filled-place_first =
      ap (λ (p : ℕ). write_word p (data_end a m) (filled a slot n m))
        (read_word-write_word_ne _ (begin_ref_at a) _ (reference_at (data_end a m))
            (inr (omega (arith, start)))
          ∙ read_word-write_word_ne _ (data_end_at a) _ (reference_at (data_end a m))
              (inr (omega (arith, start)))
          ∙ read_word-write_word_ne _ (allocated_at a) _ (reference_at (data_end a m))
              (inr (omega (arith, start)))
          ∙ read_word-write_word_ne _ (size_at (data_end a m)) n (reference_at (data_end a m))
              (inl (omega arith))
          ∙ read_word-write_word _ (reference_at (data_end a m)) slot (omega arith))

  -- A word before the reference, in the memory with all writes but the last.
  before_slot :
      (q v : ℕ)
      → q + 8 ≤ slot
      → read_word (filled a slot n m) q ≡ v
      → read_word (place_first a slot n m) q ≡ v
  before_slot q v h e =
      ap (λ (m' : Memory). read_word m' q) filled-place_first
      ∙ read_word-write_word_ne (filled a slot n m) slot (data_end a m) q (inl h)
      ∙ e

  pub reference-place_first : read_word (place_first a slot n m) slot ≡ a.base + info_size
  reference-place_first =
      ap (λ (m' : Memory). read_word m' slot) filled-place_first
      ∙ read_word-write_word (filled a slot n m) slot (data_end a m) (omega (arith, start))
      ∙ start

  pub back-place_first :
      read_word (place_first a slot n m) (reference_at (a.base + info_size)) ≡ slot
  back-place_first = before_slot (reference_at (a.base + info_size)) slot (omega arith) (
      read_word-write_word_ne _ (begin_ref_at a) _ (reference_at (a.base + info_size))
        (inr (omega arith))
      ∙ read_word-write_word_ne _ (data_end_at a) _ (reference_at (a.base + info_size))
          (inr (omega arith))
      ∙ read_word-write_word_ne _ (allocated_at a) _ (reference_at (a.base + info_size))
          (inr (omega arith))
      ∙ ap
          (λ (p : ℕ).
            read_word
              (write_word (size_at p) n
                (write_word (reference_at p) slot (write_word (next_at p) (end_of a) m)))
              (reference_at (a.base + info_size)))
          start
      ∙ read_word-write_word_ne _ (size_at (a.base + info_size)) n
          (reference_at (a.base + info_size)) (inl (omega arith))
      ∙ read_word-write_word _ (reference_at (a.base + info_size)) slot (omega arith))

  pub size-place_first : read_word (place_first a slot n m) (size_at (a.base + info_size)) ≡ n
  size-place_first = before_slot (size_at (a.base + info_size)) n (omega arith) (
      read_word-write_word_ne _ (begin_ref_at a) _ (size_at (a.base + info_size))
        (inr (omega arith))
      ∙ read_word-write_word_ne _ (data_end_at a) _ (size_at (a.base + info_size))
          (inr (omega arith))
      ∙ read_word-write_word_ne _ (allocated_at a) _ (size_at (a.base + info_size))
          (inr (omega arith))
      ∙ ap
          (λ (p : ℕ).
            read_word
              (write_word (size_at p) n
                (write_word (reference_at p) slot (write_word (next_at p) (end_of a) m)))
              (size_at (a.base + info_size)))
          start
      ∙ read_word-write_word _ (size_at (a.base + info_size)) n (omega arith))

  pub next-place_first : read_word (place_first a slot n m) (a.base + info_size) ≡ end_of a
  next-place_first =
      let to = a.base + info_size in
      before_slot to (end_of a) (omega arith) (
        read_word-write_word_ne _ (begin_ref_at a) _ to (inr (omega arith))
        ∙ read_word-write_word_ne _ (data_end_at a) _ to (inr (omega arith))
        ∙ read_word-write_word_ne _ (allocated_at a) _ to (inr (omega arith))
        ∙ read_word-write_word_ne _ (size_at (data_end a m)) n to (inl (omega (arith, start)))
        ∙ read_word-write_word_ne _ (reference_at (data_end a m)) slot to
            (inl (omega (arith, start)))
        ∙ ap (λ (p : ℕ). read_word (write_word p (end_of a) m) to) start
        ∙ read_word-write_word m to (end_of a) top)

  pub begin_ref-place_first : begin_ref a m ≡ end_of a → begin_ref a (place_first a slot n m) ≡ slot
  begin_ref-place_first e = before_slot (begin_ref_at a) slot (omega arith) (
      read_word-write_word _ (begin_ref_at a) _ (omega arith)
      ∙ ap (λ (r : ℕ). min r slot)
          (read_word-write_word_ne _ (data_end_at a) _ (begin_ref_at a) (inr (omega arith))
            ∙ read_word-write_word_ne _ (allocated_at a) _ (begin_ref_at a) (inr (omega arith))
            ∙ read_word-write_word_ne _ (size_at (data_end a m)) n (begin_ref_at a)
                (inl (omega (arith, start)))
            ∙ read_word-write_word_ne _ (reference_at (data_end a m)) slot (begin_ref_at a)
                (inl (omega (arith, start)))
            ∙ read_word-write_word_ne m (next_at (data_end a m)) (end_of a) (begin_ref_at a)
                (inl (omega (arith, start)))
            ∙ e)
      ∙ omega arith)

  pub data_end-place_first :
      data_end a (place_first a slot n m) ≡ a.base + info_size + info_size + n
  data_end-place_first =
      before_slot (data_end_at a) (a.base + info_size + info_size + n) (omega arith) (
        read_word-write_word_ne _ (begin_ref_at a) _ (data_end_at a) (inl (omega arith))
        ∙ read_word-write_word _ (data_end_at a) _ (omega arith)
        ∙ ap (λ (d : ℕ). add64 d (add64 n info_size))
            (read_word-write_word_ne _ (allocated_at a) _ (data_end_at a) (inr (omega arith))
              ∙ read_word-write_word_ne _ (size_at (data_end a m)) n (data_end_at a)
                  (inl (omega (arith, start)))
              ∙ read_word-write_word_ne _ (reference_at (data_end a m)) slot (data_end_at a)
                  (inl (omega (arith, start)))
              ∙ read_word-write_word_ne m (next_at (data_end a m)) (end_of a) (data_end_at a)
                  (inl (omega (arith, start)))
              ∙ start)
        ∙ omega arith)
