-- ===== src/Alloc/Swap.antt =====
-- The end of `realloc`: the old reference takes the new block over.
use mathlib.Core.Path.{subst}
use technosphere.Alloc.Allocator.{
  Allocator, info_size, begin_ref, data_end, reference_at, size_at, next_at, begin_ref_at,
  data_end_at,
}
use technosphere.Alloc.Chain.{IsBlock, size_of}
use technosphere.Alloc.Free.{IsBlock-le, IsBlock-apart}
use technosphere.Alloc.Moves.{swap}
use technosphere.Alloc.Release.{apart_places}
use technosphere.Alloc.Same.{Same, Same-IsTable, Holds_same}
use technosphere.Alloc.Table.{IsPlace, IsNamed, Holds, IsTable}
use technosphere.Alloc.Words.{
  read_word, write_word, read_word-write_word, read_word-write_word_ne, write_word_out,
}
use technosphere.Cache.Memory.{Memory}
use technosphere.Common.{
  ℕ, ◌+◌, ◌≤◌, ◌<◌, ◌^◌, ◌≡◌, ◌≢◌, ◌⊎◌, inl, inr, ap, sym, ◌∙◌, List, ◌∷◌, arith, ◌==◌, Bool-cases,
}

module _ (a : Allocator) (m : Memory) (bs : List ℕ) (t : IsTable a m bs) (p slot : ℕ)
    (at_p : IsPlace a p) (at_slot : IsPlace a slot) (p_in : begin_ref a m ≤ p)
    (slot_in : begin_ref a m ≤ slot) (ne : p ≢ slot) (holds : Holds a m bs slot) where
  open t use {heap, chain, refs}
  open heap use {low, apart, inside, top}

  abbrev b : ℕ
  b = read_word m slot

  fits : (a.base + info_size ≤ b) × (b + info_size + size_of m b ≤ data_end a m)
  fits = IsBlock-le (begin_ref a m) (data_end a m) m b (a.base + info_size) bs chain holds.0

  apart_p : (p + 8 ≤ slot) ⊎ (slot + 8 ≤ p)
  apart_p = apart_places a slot p at_slot at_p ne

  small_p : p < 2 ^ 64
  small_p = let (k, e, _) = at_p in omega (arith, e, top)

  small_b : b < 2 ^ 64
  small_b = omega (arith, fits.1, apart, inside, top)

  -- the reference that the block names still
  named : read_word (write_word p b m) (reference_at b) ≡ slot
  named = read_word-write_word_ne m p b (reference_at b) (inl (omega (arith, fits.1))) ∙ holds.2

  swap_word :
      (x : ℕ)
      → (x + 8 ≤ p) ⊎ (p + 8 ≤ x)
      → (x + 8 ≤ slot) ⊎ (slot + 8 ≤ x)
      → (x + 8 ≤ reference_at b) ⊎ (reference_at b + 8 ≤ x)
      → read_word (swap p b m) x ≡ read_word m x
  unfolding swap
  swap_word x h k l = rw named (
      read_word-write_word_ne _ (reference_at b) p x l
      ∙ read_word-write_word_ne _ slot 0 x k
      ∙ read_word-write_word_ne m p b x h)

  pub swap_out :
      (q : ℕ)
      → (q < p) ⊎ (p + 8 ≤ q)
      → (q < slot) ⊎ (slot + 8 ≤ q)
      → (q < reference_at b) ⊎ (reference_at b + 8 ≤ q)
      → swap p b m q ≡ m q
  unfolding swap
  swap_out q h k l = rw named (
      write_word_out _ (reference_at b) p q l
      ∙ write_word_out _ slot 0 q k
      ∙ write_word_out m p b q h)

  pub swap-reference : read_word (swap p b m) p ≡ b
  unfolding swap
  swap-reference = rw named (
      read_word-write_word_ne _ (reference_at b) p p (inr (omega (arith, fits.1)))
      ∙ read_word-write_word_ne _ slot 0 p apart_p
      ∙ read_word-write_word m p b small_b)

  swap-slot : read_word (swap p b m) slot ≡ 0
  unfolding swap
  swap-slot = rw named (
      read_word-write_word_ne _ (reference_at b) p slot (inr (omega (arith, fits.1)))
      ∙ read_word-write_word _ slot 0 (omega arith))

  swap-back : read_word (swap p b m) (reference_at b) ≡ p
  unfolding swap
  swap-back = read_word-write_word _ (reference_at b) p small_p

  -- a word of the general information or of a header, but for the reference of the block
  low_word :
      (x : ℕ)
      → x + 8 ≤ data_end a m
      → (x + 8 ≤ reference_at b) ⊎ (reference_at b + 8 ≤ x)
      → read_word (swap p b m) x ≡ read_word m x
  low_word x h l =
      swap_word x (inl (omega (arith, h, apart, p_in))) (inl (omega (arith, h, apart, slot_in))) l

  -- where the words of another header stand
  header_apart :
      (c : ℕ)
      → IsBlock c ((a.base + info_size) ∷ bs)
      → (c + info_size ≤ data_end a m) × ((b ≡ c) ⊎ ((b + info_size ≤ c) ⊎ (c + info_size ≤ b)))
  header_apart c i =
      let (_, le) = IsBlock-le (begin_ref a m) (data_end a m) m c (a.base + info_size) bs chain i in
      (
        omega (arith, le),
        IsBlock-apart (begin_ref a m) (data_end a m) m b c (a.base + info_size) bs chain holds.0 i,
      )

  swap-Same : Same a m (swap p b m) bs
  swap-Same = record {
    ref = low_word (begin_ref_at a) (omega (arith, low)) (inl (omega (arith, fits.0)));
    end = low_word (data_end_at a) (omega (arith, low)) (inl (omega (arith, fits.0)));
    next = λ c i.
        let (le, at) = header_apart c i in
        low_word (next_at c) (omega (arith, le)) (elim at [
          | inl e ↦ inl (omega (arith, e))
          | inr (inl e) ↦ inr (omega (arith, e))
          | inr (inr e) ↦ inl (omega (arith, e))
        ]);
    size = λ c i.
        let (le, at) = header_apart c i in
        low_word (size_at c) (omega (arith, le)) (elim at [
          | inl e ↦ inr (omega (arith, e))
          | inr (inl e) ↦ inr (omega (arith, e))
          | inr (inr e) ↦ inl (omega (arith, e))
        ]);
  }

  pub swap-Holds : Holds a (swap p b m) bs p
  swap-Holds =
      subst (IsNamed a (swap p b m) bs p) (sym swap-reference)
        (holds.0, omega (arith, holds.1, swap-Same.size b holds.0), swap-back)

  pub swap-size : size_of (swap p b m) b ≡ size_of m b
  swap-size = swap-Same.size b holds.0

  -- another reference
  pub swap_ref :
      (q : ℕ)
      → IsPlace a q
      → begin_ref a m ≤ q
      → q ≢ p
      → q ≢ slot
      → read_word (swap p b m) q ≡ read_word m q
  swap_ref q at h n₁ n₂ =
      swap_word q (apart_places a p q at_p at n₁) (apart_places a slot q at_slot at n₂)
        (inr (omega (arith, fits.1, apart, h)))

  pub swap_other :
      (q : ℕ)
      → IsPlace a q
      → begin_ref a m ≤ q
      → q ≢ p
      → q ≢ slot
      → Holds a m bs q
      → Holds a (swap p b m) bs q
  swap_other q at h n₁ n₂ k =
      let c = read_word m q in
      let (le, at_c) = header_apart c k.0 in
      Holds_same a m (swap p b m) bs q k (swap_ref q at h n₁ n₂) (swap-Same.size c k.0) (
        low_word (reference_at c) (omega (arith, le)) (elim at_c [
          | inl e ↦
              absurd (n₂ (sym k.2 ∙ ap (λ (x : ℕ). read_word m (reference_at x)) (sym e) ∙ holds.2))
          | inr (inl e) ↦ inr (omega (arith, e))
          | inr (inr e) ↦ inl (omega (arith, e))
        ]))

  swap_refs :
      (q : ℕ)
      → IsPlace a q
      → begin_ref a m ≤ q
      → (read_word (swap p b m) q ≡ 0) ⊎ Holds a (swap p b m) bs q
  swap_refs q at h = elim (Bool-cases (q == p)) [
    | inl e ↦
        let same : p ≡ q = ground (arith, e) in
        inr (subst (Holds a (swap p b m) bs) same swap-Holds)
    | inr e ↦ elim (Bool-cases (q == slot)) [
      | inl f ↦
          let same : slot ≡ q = ground (arith, f) in
          inl (subst (λ (x : ℕ). read_word (swap p b m) x ≡ 0) same swap-slot)
      | inr f ↦
          let n₁ : q ≢ p = ground (arith, e) in
          let n₂ : q ≢ slot = ground (arith, f) in
          elim (refs q at h) [
            | inl z ↦ inl (swap_ref q at h n₁ n₂ ∙ z)
            | inr k ↦ inr (swap_other q at h n₁ n₂ k)
          ]
    ]
  ]

  pub swap-IsTable : IsTable a (swap p b m) bs
  swap-IsTable = Same-IsTable a m (swap p b m) bs t swap-Same swap_refs
