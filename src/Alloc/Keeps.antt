-- ===== src/Alloc/Keeps.antt =====
-- A reference that keeps its block, from one state of the memory to another.
use technosphere.Alloc.Allocator.{
  Allocator, info_size, begin_ref, data_end, reference_at, size_at, free_at, allocated_at,
}
use technosphere.Alloc.Chain.{IsBlock, size_of, Kept-live}
use technosphere.Alloc.Free.{IsBlock-le}
use technosphere.Alloc.Insert.{Fresh}
use technosphere.Alloc.Moves.{swap}
use technosphere.Alloc.Release.{Holds-other, ref_same}
use technosphere.Alloc.Same.{IsBlock-disjoint, data_Holds}
use technosphere.Alloc.Swap.{swap_out, swap_ref, swap_other}
use technosphere.Alloc.Table.{IsPlace, Holds, IsTable, old_ref, Holds-old}
use technosphere.Alloc.Words.{read_word, read_word_congr, write_word_out}
use technosphere.Cache.Memory.{Memory}
use technosphere.Common.{
  ℕ, ◌+◌, ◌≤◌, ◌<◌, ◌^◌, ◌≡◌, ◌≢◌, ◌⊎◌, inl, inr, ap, sym, ◌∙◌, List, ◌∷◌, arith,
}

-- The reference q holds its block afterwards, with the size and the data it had.
pub record Keeps (a : Allocator) (m m' : Memory) (bs' : List ℕ) (q : ℕ) : Type 0 where
  pub word : read_word m' q ≡ read_word m q
  pub held : Holds a m' bs' q
  pub bytes :
      (x : ℕ)
      → size_at (read_word m q) ≤ x
      → x < read_word m q + info_size + size_of m (read_word m q)
      → m' x ≡ m x

-- The size is among the bytes that stay.
pub Keeps-size :
    (a : Allocator) (m m' : Memory) (bs' : List ℕ) (q : ℕ)
    → Keeps a m m' bs' q
    → size_of m' (read_word m q) ≡ size_of m (read_word m q)
Keeps-size a m m' bs' q k =
    let c = read_word m q in
    read_word_congr m m' (size_at c) (λ x g h. k.bytes x (omega arith) (omega arith))

pub Keeps-trans :
    (a : Allocator) (m m₁ m₂ : Memory) (bs₁ bs₂ : List ℕ) (q : ℕ)
    → Keeps a m m₁ bs₁ q
    → Keeps a m₁ m₂ bs₂ q
    → Keeps a m m₂ bs₂ q
Keeps-trans a m m₁ m₂ bs₁ bs₂ q k l =
    let size : size_of m₁ (read_word m₁ q) ≡ size_of m (read_word m q) =
      ap (size_of m₁) k.word ∙ Keeps-size a m m₁ bs₁ q k in
    record {
      word = l.word ∙ k.word;
      held = l.held;
      bytes = λ x g h.
          l.bytes x (omega (arith, g, k.word)) (omega (arith, h, k.word, size)) ∙ k.bytes x g h;
    }

module _ (a : Allocator) (m : Memory) (bs : List ℕ) (t : IsTable a m bs) where
  open t use {heap, chain}
  open heap use {low, apart, inside, top}

  bounds :
      (c : ℕ)
      → IsBlock c ((a.base + info_size) ∷ bs)
      → (a.base + info_size ≤ c) × (c + info_size + size_of m c ≤ data_end a m)
  bounds c i = IsBlock-le (begin_ref a m) (data_end a m) m c (a.base + info_size) bs chain i

  -- Two references hold different blocks.
  pub held_apart :
      (p q : ℕ)
      → q ≢ p
      → Holds a m bs p
      → Holds a m bs q
      → (read_word m p + info_size + size_of m (read_word m p) ≤ read_word m q)
        ⊎ (read_word m q + info_size + size_of m (read_word m q) ≤ read_word m p)
  held_apart p q ne hp hq =
      elim (IsBlock-disjoint (begin_ref a m) (data_end a m) m (read_word m p) (read_word m q)
        (a.base + info_size) bs chain hp.0 hq.0) [
          | inl e ↦
              absurd (ne (sym hq.2 ∙ ap (λ (x : ℕ). read_word m (reference_at x)) (sym e) ∙ hp.2))
          | inr f ↦ f
        ]

  -- `alloc`
  pub Fresh-Keeps :
      (n : ℕ)
      → 0 < n
      → n + info_size < 2 ^ 64
      → (slot : ℕ) (m' : Memory) (f : Fresh a slot n m m' (a.base + info_size) bs) → IsPlace a slot
      → (slot + 8 ≡ begin_ref a m) ⊎ (begin_ref a m ≤ slot)
      → (q : ℕ) → IsPlace a q
      → begin_ref a m ≤ q
      → q ≢ slot
      → Holds a m bs q
      → Keeps a m m' f.blocks q
  Fresh-Keeps n some_bytes small slot m' f place near q at h ne holds = record {
    word =
        read_word_congr m m' q (old_ref a n m bs t some_bytes small slot m' f place near q at h ne);
    held = Holds-old a n m bs t some_bytes small slot m' f place near q at h ne holds;
    bytes = λ x g u.
        Kept-live m m' (read_word m q) ((a.base + info_size) ∷ bs) f.kept holds.0 holds.1 x
          (omega (arith, g)) u;
  }

  -- A change of the data of another block, which p holds.
  pub data_Keeps :
      (m' : Memory) (p : ℕ) (hp : Holds a m bs p)
      → ((q : ℕ)
          → (q < read_word m p + info_size)
            ⊎ (read_word m p + info_size + size_of m (read_word m p) ≤ q)
          → m' q ≡ m q)
      → (q : ℕ) → begin_ref a m ≤ q
      → q ≢ p
      → Holds a m bs q
      → Keeps a m m' bs q
  data_Keeps m' p hp same q h ne hq =
      let (_, le) = bounds (read_word m p) hp.0 in
      record {
        word = read_word_congr m m' q (λ x g u. same x (inr (omega (arith, le, apart, h, g))));
        held = data_Holds a m m' bs t (read_word m p) hp.0 same q h hq;
        bytes = λ x g u. same x (elim (held_apart p q ne hp hq) [
          | inl e ↦ inr (omega (arith, e, g))
          | inr e ↦ inl (omega (arith, e, u))
        ]);
      }

  -- `free` of p
  pub free_at_out :
      (p : ℕ)
      → (q : ℕ) → a.base + info_size ≤ q
      → (q < size_at (read_word m p)) ⊎ (size_at (read_word m p) + 8 ≤ q)
      → (q < p) ⊎ (p + 8 ≤ q)
      → free_at a p (read_word m p) m q ≡ m q
  unfolding free_at
  free_at_out p q h k l =
      write_word_out _ p 0 q l
      ∙ write_word_out _ (size_at (read_word m p)) 0 q k
      ∙ write_word_out m (allocated_at a) _ q (inr (omega (arith, h)))

  pub free_Keeps :
      (p : ℕ)
      → IsPlace a p
      → begin_ref a m ≤ p
      → (hp : Holds a m bs p) → (q : ℕ) → IsPlace a q
      → begin_ref a m ≤ q
      → q ≢ p
      → Holds a m bs q
      → Keeps a m (free_at a p (read_word m p) m) bs q
  free_Keeps p at_p hp_in hp q at h ne hq =
      let (ge, le) = bounds (read_word m q) hq.0 in
      record {
        word = ref_same a m bs t p at_p hp_in hp q at h ne;
        held = Holds-other a m bs t p at_p hp_in hp q at h ne hq;
        bytes = λ x g u.
            free_at_out p x (omega (arith, ge, g))
              (elim (held_apart p q ne hp hq) [
                | inl e ↦ inr (omega (arith, e, g))
                | inr e ↦ inl (omega (arith, e, u))
              ])
              (inl (omega (arith, u, le, apart, hp_in)));
      }

  -- the end of `realloc`
  pub swap-Keeps :
      (p slot : ℕ)
      → IsPlace a p
      → IsPlace a slot
      → begin_ref a m ≤ p
      → begin_ref a m ≤ slot
      → p ≢ slot
      → (hs : Holds a m bs slot) → (q : ℕ) → IsPlace a q
      → begin_ref a m ≤ q
      → q ≢ p
      → q ≢ slot
      → Holds a m bs q
      → Keeps a m (swap p (read_word m slot) m) bs q
  swap-Keeps p slot at_p at_slot p_in slot_in ne hs q at h n₁ n₂ hq =
      let (ge, le) = bounds (read_word m q) hq.0 in
      record {
        word = swap_ref a m bs t p slot at_p at_slot p_in slot_in ne hs q at h n₁ n₂;
        held = swap_other a m bs t p slot at_p at_slot p_in slot_in ne hs q at h n₁ n₂ hq;
        bytes = λ x g u.
            swap_out a m bs t p slot at_p at_slot p_in slot_in ne hs x
              (inl (omega (arith, u, le, apart, p_in))) (inl (omega (arith, u, le, apart, slot_in)))
              (elim (held_apart slot q n₂ hs hq) [
                | inl e ↦ inr (omega (arith, e, g))
                | inr e ↦ inl (omega (arith, e, u))
              ]);
      }
