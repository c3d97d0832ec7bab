-- ===== src/Alloc/InPlace.antt =====
-- `realloc` in place: what it leaves, and what a block that grows over a freed one leaves.
use mathlib.Core.Path.{subst}
use technosphere.Alloc.Allocator.{
  Allocator, done, info_size, begin_ref, data_end, get_next, next_loop, size_at, next_at,
  reference_at, begin_ref_at, data_end_at,
}
use technosphere.Alloc.Chain.{IsBlock, next_of, size_of, Chain}
use technosphere.Alloc.Free.{IsBlock-le}
use technosphere.Alloc.Moves.{realloc, realloc_at}
use technosphere.Alloc.Realloc.{get_next-block, realloc_block, realloc_at-lem}
use technosphere.Alloc.Same.{IsBlock-disjoint, resized-IsTable}
use technosphere.Alloc.Table.{IsPlace, IsNamed, Holds, IsTable}
use technosphere.Alloc.Words.{
  read_word, write_word, read_word-write_word, read_word-write_word_ne, write_word_out,
}
use technosphere.Cache.Memory.{Memory}
use technosphere.Common.{
  ℕ, zero, suc, ◌+◌, ◌≤◌, ◌<◌, ◌^◌, ◌≡◌, ◌⊎◌, inl, inr, ap, sym, ◌∙◌, Option, some, List, [], ◌∷◌,
  arith, min,
}

-- A block's next is behind its data.
next_of-block :
    (r lim : ℕ) (m : Memory) (b c : ℕ) (bs : List ℕ)
    → lim ≤ r
    → Chain r lim m c bs
    → IsBlock b (c ∷ bs)
    → b + info_size + size_of m b ≤ next_of m b
next_of-block r lim m b c [] k h (inl e) =
    omega (arith, e, h.0, h.1, k, ap (size_of m) e, ap (next_of m) e)
next_of-block r lim m b c [] k h (inr i) = elim i [ ]
next_of-block r lim m b c (d ∷ ds) k h (inl e) =
    omega (arith, e, h.0, h.1, ap (size_of m) e, ap (next_of m) e)
next_of-block r lim m b c (d ∷ ds) k h (inr i) = next_of-block r lim m b d ds k h.2 i

module _ (a : Allocator) (n : ℕ) (m : Memory) (bs : List ℕ) (t : IsTable a m bs)
    (some_bytes : 0 < n) (small : n + info_size < 2 ^ 64) (p : ℕ) (at_p : IsPlace a p)
    (p_in : begin_ref a m ≤ p) (hp : Holds a m bs p) where
  open t use {heap, chain, refs}
  open heap use {low, apart, inside, top}

  abbrev b : ℕ
  b = read_word m p

  abbrev resized : Memory
  resized = write_word (size_at b) n m

  abbrev first : ℕ
  first = a.base + info_size

  bounds :
      (c : ℕ) → IsBlock c (first ∷ bs) → (first ≤ c) × (c + info_size + size_of m c ≤ data_end a m)
  bounds c i = IsBlock-le (begin_ref a m) (data_end a m) m c first bs chain i

  resized_word :
      (x : ℕ) → (x + 8 ≤ size_at b) ⊎ (size_at b + 8 ≤ x) → read_word resized x ≡ read_word m x
  resized_word x h = read_word-write_word_ne m (size_at b) n x h

  resized_size : size_of resized b ≡ n
  resized_size = read_word-write_word m (size_at b) n (omega arith)

  -- `realloc` to a size that leaves the block before the next one
  pub in_place : b + info_size + n ≤ min (next_of m b) (data_end a m) → IsTable a resized bs
  in_place fits =
      resized-IsTable a m resized bs t
        (resized_word (begin_ref_at a) (inl (omega (arith, (bounds b hp.0).0))))
        (resized_word (data_end_at a) (inl (omega (arith, (bounds b hp.0).0))))
        (λ c i. next_same c i) size_fits refs_after
    where
      block_at :
          (c : ℕ)
          → IsBlock c (first ∷ bs)
          → (b ≡ c) ⊎ ((b + info_size + size_of m b ≤ c) ⊎ (c + info_size + size_of m c ≤ b))
      block_at c i = IsBlock-disjoint (begin_ref a m) (data_end a m) m b c first bs chain hp.0 i

      next_same : (c : ℕ) → IsBlock c (first ∷ bs) → next_of resized c ≡ next_of m c
      next_same c i = resized_word (next_at c) (elim (block_at c i) [
        | inl e ↦ inl (omega (arith, e))
        | inr (inl e) ↦ inr (omega (arith, e))
        | inr (inr e) ↦ inl (omega (arith, e))
      ])

      size_fits :
          (c : ℕ)
          → IsBlock c (first ∷ bs)
          → (size_of resized c ≤ size_of m c)
            ⊎ (c + info_size + size_of resized c ≤ min (next_of m c) (data_end a m))
      size_fits c i = elim (block_at c i) [
        | inl e ↦
            let size : size_of resized c ≡ n = ap (size_of resized) (sym e) ∙ resized_size in
            inr (omega (arith, fits, size, e, ap (next_of m) e))
        | inr (inl e) ↦ inl (omega (arith, resized_word (size_at c) (inr (omega (arith, e)))))
        | inr (inr e) ↦ inl (omega (arith, resized_word (size_at c) (inl (omega (arith, e)))))
      ]

      held : (q : ℕ) → begin_ref a m ≤ q → Holds a m bs q → Holds a resized bs q
      held q h (i, l, back) =
          let c = read_word m q in
          let (ge, le) = bounds b hp.0 in
          let word = resized_word q (inr (omega (arith, le, apart, h))) in
          let ref : read_word resized (reference_at c) ≡ read_word m (reference_at c) =
            resized_word (reference_at c) (elim (block_at c i) [
              | inl e ↦ inl (omega (arith, e))
              | inr (inl e) ↦ inr (omega (arith, e))
              | inr (inr e) ↦ inl (omega (arith, e))
            ]) in
          let size : 0 < size_of resized c = elim (block_at c i) [
            | inl e ↦ omega (arith, some_bytes, ap (size_of resized) (sym e) ∙ resized_size)
            | inr (inl e) ↦ omega (arith, l, resized_word (size_at c) (inr (omega (arith, e))))
            | inr (inr e) ↦ omega (arith, l, resized_word (size_at c) (inl (omega (arith, e))))
          ] in
          subst (IsNamed a resized bs q) (sym word) (i, size, ref ∙ back)

      refs_after :
          (q : ℕ)
          → IsPlace a q
          → begin_ref a m ≤ q
          → (read_word resized q ≡ 0) ⊎ Holds a resized bs q
      refs_after q at h = elim (refs q at h) [
        | inl z ↦ inl (resized_word q (inr (omega (arith, (bounds b hp.0).1, apart, h))) ∙ z)
        | inr k ↦ inr (held q h k)
      ]

  -- when `realloc` leaves the block where it is
  stays :
      (next : ℕ)
      → get_next a m b ≡ some next
      → b + info_size + n ≤ min next (begin_ref a m)
      → realloc a (some p) n m ≡ done (some p) resized
  stays next run fits =
      realloc_block a p n m (omega (arith, (bounds b hp.0).0))
      ∙ ap (λ (x : Option ℕ). realloc_at a p n x m) run
      ∙ elim (realloc_at-lem a p n next m small (omega (arith, fits))
          (omega (arith, inside, top))) [
            | inl (e, _) ↦ e
            | inr (_, f) ↦ absurd (omega (arith, f, fits))
          ]

  -- `realloc` to a size that is not greater: the block stays where it is, with its bytes, and the rest
  -- stays as it was.
  pub realloc-shrinks :
      n ≤ size_of m b
      → (realloc a (some p) n m ≡ done (some p) resized)
        × IsTable a resized bs
        × (read_word resized p ≡ b)
        × (size_of resized b ≡ n)
        × ((q : ℕ) → (q < size_at b) ⊎ (size_at b + 8 ≤ q) → resized q ≡ m q)
  realloc-shrinks h =
      let (next, run, ge, le) = get_next-block a m bs t b hp.0 in
      let (low_b, le_b) = bounds b hp.0 in
      let behind = next_of-block (begin_ref a m) (data_end a m) m b first bs apart chain hp.0 in
      (
        stays next run (omega (arith, ge, le_b, apart, h)),
        in_place (omega (arith, behind, le_b, h)),
        resized_word p (inr (omega (arith, le_b, apart, p_in))),
        resized_size,
        λ q k. write_word_out m (size_at b) n q k,
      )

  -- `realloc` grows the block over the header of a freed block c behind it, and leaves c the next one.
  -- When the program then writes v to its own block where c has its size, `get_next` takes c, within
  -- the block, for a live block.
  pub grows_over :
      (c v next : ℕ)
      → get_next a m b ≡ some next
      → b + info_size + n ≤ min next (begin_ref a m)
      → next_of m b ≡ c
      → IsBlock c bs
      → c + info_size ≤ b + info_size + n
      → 0 < v
      → v < 2 ^ 64
      → (realloc a (some p) n m ≡ done (some p) resized)
        × (b + info_size ≤ size_at c)
        × (size_at c + 8 ≤ b + info_size + n)
        × (get_next a (write_word (size_at c) v resized) b ≡ some c)
  unfolding get_next next_loop
  grows_over c v after run fits e i inside_b pos word =
      let (low_c, le_c) = bounds c (inr i) in
      let behind = next_of-block (begin_ref a m) (data_end a m) m b first bs apart chain hp.0 in
      let m' = write_word (size_at c) v resized in
      let next : next_of m' b ≡ c =
        read_word-write_word_ne resized (size_at c) v b (inl (omega (arith, behind, e)))
        ∙ resized_word b (inl (omega arith))
        ∙ e in
      let size : read_word m' (size_at c) ≡ v = read_word-write_word resized (size_at c) v word in
      let ref : begin_ref a m' ≡ begin_ref a m =
        read_word-write_word_ne resized (size_at c) v (begin_ref_at a) (inl (omega (arith, low_c)))
        ∙ resized_word (begin_ref_at a) (inl (omega (arith, (bounds b hp.0).0))) in
      (
        stays after run fits,
        omega (arith, behind, e),
        omega (arith, inside_b),
        found a.size m' (omega (arith, low, apart, inside)) next size ref
            (omega (arith, le_c, apart)),
      )
    where
      found :
          (fuel : ℕ) (m' : Memory)
          → 0 < fuel
          → next_of m' b ≡ c
          → read_word m' (size_at c) ≡ v
          → begin_ref a m' ≡ begin_ref a m
          → c < begin_ref a m
          → next_loop fuel (begin_ref a m') m' (next_of m' b) ≡ some c
      found zero m' h next size ref lt = absurd (omega arith)
      found (suc fuel) m' h next size ref lt = rw (next, ref) (ground (arith, size, lt, pos))
