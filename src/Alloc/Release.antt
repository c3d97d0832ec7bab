-- ===== src/Alloc/Release.antt =====
-- `free` on a table: the other references keep their blocks.
use mathlib.Core.Path.{subst}
use technosphere.Alloc.Allocator.{
  Allocator, invalid_free, done, failed, info_size, begin_ref, data_end, free, free_at,
  reference_at, size_at, allocated_at, begin_ref_at,
}
use technosphere.Alloc.Chain.{size_of}
use technosphere.Alloc.Free.{IsBlock-le, IsBlock-apart, free_at-IsHeap}
use technosphere.Alloc.Table.{IsPlace, IsNamed, Holds, IsTable}
use technosphere.Alloc.Words.{read_word, read_word-write_word, read_word-write_word_ne}
use technosphere.Cache.Memory.{Memory}
use technosphere.Common.{
  ℕ, ◌+◌, ◌≤◌, ◌≡◌, ◌≢◌, ◌⊎◌, inl, inr, refl, ap, sym, ◌∙◌, none, some, List, arith, ltb, ◌==◌,
  Bool-cases,
}

-- A word that `free` leaves alone.
pub free_at-word :
    (a : Allocator) (p b x : ℕ) (m : Memory)
    → a.base + 8 ≤ x
    → (x + 8 ≤ size_at b) ⊎ (size_at b + 8 ≤ x)
    → (x + 8 ≤ p) ⊎ (p + 8 ≤ x)
    → read_word (free_at a p b m) x ≡ read_word m x
unfolding free_at
free_at-word a p b x m h k l =
    read_word-write_word_ne _ p 0 x l
    ∙ read_word-write_word_ne _ (size_at b) 0 x k
    ∙ read_word-write_word_ne m (allocated_at a) _ x (inr h)

-- Two references.
pub apart_places :
    (a : Allocator) (p q : ℕ) → IsPlace a p → IsPlace a q → q ≢ p → (q + 8 ≤ p) ⊎ (p + 8 ≤ q)
apart_places a p q (k, e, _) (j, f, _) ne = elim (Bool-cases (ltb q p)) [
  | inl c ↦ inl (ground (arith, c))
  | inr c ↦ inr (ground (arith, c, ne))
]

module _ (a : Allocator) (m : Memory) (bs : List ℕ) (t : IsTable a m bs) (p : ℕ) (at : IsPlace a p)
    (inside_p : begin_ref a m ≤ p) where
  open t use {heap, chain, n_refs, aligned, refs}
  open heap use {low, apart, inside, top}

  module _ (holds : Holds a m bs p) where
    abbrev b : ℕ
    b = read_word m p

    abbrev m' : Memory
    m' = free_at a p b m

    bounds : (a.base + info_size ≤ b) × (b + info_size + size_of m b ≤ data_end a m)
    bounds = IsBlock-le (begin_ref a m) (data_end a m) m b (a.base + info_size) bs chain holds.0

    pub begin_ref_same : begin_ref a m' ≡ begin_ref a m
    begin_ref_same =
        free_at-word a p b (begin_ref_at a) m (omega arith) (inl (omega (arith, bounds.0)))
          (inl (omega arith))

    pub ref_same :
        (q : ℕ) → IsPlace a q → begin_ref a m ≤ q → q ≢ p → read_word m' q ≡ read_word m q
    ref_same q place h ne =
        free_at-word a p b q m (omega arith) (inr (omega (arith, bounds.1)))
          (apart_places a p q at place ne)

    pub Holds-other :
        (q : ℕ) → IsPlace a q → begin_ref a m ≤ q → q ≢ p → Holds a m bs q → Holds a m' bs q
    Holds-other q place h ne (i, l, back) =
        let c = read_word m q in
        let (above, below) =
          IsBlock-le (begin_ref a m) (data_end a m) m c (a.base + info_size) bs chain i in
        let other : (b + info_size ≤ c) ⊎ (c + info_size ≤ b) =
          elim (IsBlock-apart (begin_ref a m) (data_end a m) m b c (a.base + info_size) bs chain
            holds.0 i) [
              | inl e ↦
                  absurd
                    (ne (sym back ∙ ap (λ (x : ℕ). read_word m (reference_at x)) (sym e) ∙ holds.2))
              | inr f ↦ f
            ] in
        let size =
          free_at-word a p b (size_at c) m (omega arith) (ground (arith, other))
            (inl (omega arith)) in
        let reference =
          free_at-word a p b (reference_at c) m (omega arith) (ground (arith, other))
            (inl (omega arith)) in
        subst (IsNamed a m' bs q) (sym (ref_same q place h ne))
          (i, omega (arith, size, l), reference ∙ back)

    null : read_word m' p ≡ 0
    unfolding free_at
    null = read_word-write_word _ p 0 (omega arith)

    refs_after : (q : ℕ) → IsPlace a q → begin_ref a m' ≤ q → (read_word m' q ≡ 0) ⊎ Holds a m' bs q
    refs_after q place h = elim (Bool-cases (q == p)) [
      | inl e ↦
          let same : p ≡ q = ground (arith, e) in
          inl (subst (λ (x : ℕ). read_word m' x ≡ 0) same null)
      | inr e ↦
          let ne : q ≢ p = ground (arith, e) in
          let old : begin_ref a m ≤ q = omega (arith, begin_ref_same) in
          elim (refs q place old) [
            | inl z ↦ inl (ref_same q place old ne ∙ z)
            | inr k ↦ inr (Holds-other q place old ne k)
          ]
    ]

    pub freed-IsTable : (free a (some p) m ≡ done none m') × IsTable a m' bs
    freed-IsTable =
        let (run, heap', chain', _, _) =
          free_at-IsHeap a m heap p b bs chain holds.0 refl (omega arith) in
        (
          run,
          record {
            heap = heap';
            chain = chain';
            n_refs = n_refs;
            aligned = omega (arith, begin_ref_same, aligned);
            refs = refs_after;
          },
        )

  -- `free` of a reference.
  pub free-IsTable :
      (free a (some p) m ≡ failed invalid_free m)
      ⊎ ((m' : Memory) × (free a (some p) m ≡ done none m') × IsTable a m' bs)
  unfolding free
  free-IsTable = elim (refs p at inside_p) [
    | inl z ↦ inl (rw z refl)
    | inr holds ↦
        let (run, table) = freed-IsTable holds in inr (free_at a p (read_word m p) m, run, table)
  ]
