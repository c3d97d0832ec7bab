-- ===== src/Alloc/Table.antt =====
-- Runs of `alloc` and `free`: the references and the blocks belong together.
use mathlib.Core.Path.{subst}
use technosphere.Alloc.Allocator.{
  Allocator, no_memory, done, failed, info_size, end_of, begin_ref, data_end,
  get_available_ref_space, ref_loop, alloc, reference_at, size_at,
}
use technosphere.Alloc.Chain.{IsBlock, size_of, Chain, Kept-live}
use technosphere.Alloc.Free.{IsBlock-le}
use technosphere.Alloc.Heap.{IsHeap, alloc-Fresh, Fresh-IsHeap}
use technosphere.Alloc.Insert.{Fresh}
use technosphere.Alloc.Words.{read_word, read_word_congr}
use technosphere.Cache.Memory.{Memory}
use technosphere.Common.{
  ℕ, zero, suc, ◌+◌, ◌-◌, ◌*◌, ◌/◌, ◌≤◌, ◌<◌, ◌^◌, ◌≡◌, ◌≢◌, ◌⊎◌, inl, inr, sym, ◌∙◌, some, List,
  ◌∷◌, arith, ltb, ◌==◌, Bool-cases,
}

-- A place for a reference: whole words from the end.
abbrev pub IsPlace : Allocator → ℕ → Type 0
IsPlace a p = (k : ℕ) × (p + 8 * k ≡ end_of a) × (0 < k)

-- The live block b, which names the reference p.
abbrev pub IsNamed : Allocator → Memory → List ℕ → ℕ → ℕ → Type 0
IsNamed a m bs p b =
    IsBlock b ((a.base + info_size) ∷ bs) × (0 < size_of m b) × (read_word m (reference_at b) ≡ p)

-- The reference p holds a live block, which names it.
abbrev pub Holds : Allocator → Memory → List ℕ → ℕ → Type 0
Holds a m bs p = IsNamed a m bs p (read_word m p)

-- A heap in which every reference is null or holds a live block that names it.
pub record IsTable (a : Allocator) (m : Memory) (bs : List ℕ) : Type 0 where
  pub heap : IsHeap a m
  pub chain : Chain (begin_ref a m) (data_end a m) m (a.base + info_size) bs
  pub n_refs : ℕ
  pub aligned : begin_ref a m + 8 * n_refs ≡ end_of a
  pub refs : (p : ℕ) → IsPlace a p → begin_ref a m ≤ p → (read_word m p ≡ 0) ⊎ Holds a m bs p

-- The place that is taken is one of the references, or the one before them.
ref_loop-IsPlace :
    (a : Allocator) (n r : ℕ) (m : Memory) (it k : ℕ)
    → 8 ≤ r
    → r + 8 * n ≡ it
    → it + 8 * k ≡ end_of a
    → IsPlace a (ref_loop n r m it) × ((ref_loop n r m it + 8 ≡ r) ⊎ (r ≤ ref_loop n r m it))
unfolding ref_loop
ref_loop-IsPlace a zero r m it k h e f = ((suc k, omega arith, omega arith), inl (omega arith))
ref_loop-IsPlace a (suc n) r m it k h e f = elim (Bool-cases (read_word m (it - 8) == 0)) [
  | inl g ↦ rw g ((suc k, omega arith, omega arith), inr (omega arith))
  | inr g ↦ rw g (ref_loop-IsPlace a n r m (it - 8) (suc k) h (omega arith) (omega arith))
]

module _ (a : Allocator) (n : ℕ) (m : Memory) (bs : List ℕ) (t : IsTable a m bs)
    (some_bytes : 0 < n) (small : n + info_size < 2 ^ 64) where
  open t use {heap, chain, n_refs, aligned, refs}
  open heap use {low, apart, inside, top}

  pub slot-IsPlace :
      IsPlace a (get_available_ref_space a m)
      × ((get_available_ref_space a m + 8 ≡ begin_ref a m)
          ⊎ (begin_ref a m ≤ get_available_ref_space a m))
  unfolding get_available_ref_space
  slot-IsPlace =
      ref_loop-IsPlace a ((end_of a - begin_ref a m) / 8) (begin_ref a m) m (end_of a) 0
        (omega arith) (omega (arith, aligned)) (omega arith)

  module _ (slot : ℕ) (m' : Memory) (f : Fresh a slot n m m' (a.base + info_size) bs)
      (place : IsPlace a slot) (near : (slot + 8 ≡ begin_ref a m) ⊎ (begin_ref a m ≤ slot)) where
    -- the new block ends before the references
    below_refs : f.to + info_size + n ≤ begin_ref a m'
    below_refs =
        let (_, le) =
          IsBlock-le (begin_ref a m') (data_end a m') m' f.to (a.base + info_size) f.blocks f.chain
            (inr f.member) in
        omega (arith, le, f.sized, f.new_end)

    -- An old reference.
    pub old_ref :
        (p : ℕ)
        → IsPlace a p
        → begin_ref a m ≤ p
        → p ≢ slot
        → (q : ℕ) → p ≤ q
        → q < p + 8
        → m' q ≡ m q
    old_ref p (k, e, _) h ne q l u =
        let (j, e', _) = place in
        f.outside q (omega arith) (omega (arith, below_refs, f.new_ref))
          (omega_split p k j e e' ne q l u)
      where
        omega_split :
            (p k j : ℕ)
            → p + 8 * k ≡ end_of a
            → slot + 8 * j ≡ end_of a
            → p ≢ slot
            → (q : ℕ) → p ≤ q
            → q < p + 8
            → (q < slot) ⊎ (slot + 8 ≤ q)
        omega_split p k j e e' ne q l u = elim (Bool-cases (ltb p slot)) [
          | inl c ↦ inl (ground (arith, c))
          | inr c ↦ inr (ground (arith, c, ne))
        ]

    pub Holds-old :
        (p : ℕ)
        → IsPlace a p
        → begin_ref a m ≤ p
        → p ≢ slot
        → Holds a m bs p
        → Holds a m' f.blocks p
    Holds-old p at h ne (i, l, back) =
        let same = read_word_congr m m' p (old_ref p at h ne) in
        let b = read_word m p in
        let bytes = Kept-live m m' b ((a.base + info_size) ∷ bs) f.kept i l in
        let size =
          read_word_congr m m' (size_at b) (λ q x y. bytes q (omega arith) (omega arith)) in
        let reference =
          read_word_congr m m' (reference_at b) (λ q x y. bytes q (omega arith) (omega arith)) in
        subst (IsNamed a m' f.blocks p) (sym same)
          (f.stays b i l, omega (arith, size, l), reference ∙ back)

    pub Holds-new : Holds a m' f.blocks slot
    Holds-new =
        subst (IsNamed a m' f.blocks slot) (sym f.holds)
          (inr f.member, omega (arith, f.sized), f.referred)

    refs_after :
        (p : ℕ) → IsPlace a p → begin_ref a m' ≤ p → (read_word m' p ≡ 0) ⊎ Holds a m' f.blocks p
    refs_after p at h = elim (Bool-cases (p == slot)) [
      | inl e ↦
          let same : slot ≡ p = ground (arith, e) in
          inr (subst (λ (x : ℕ). Holds a m' f.blocks x) same Holds-new)
      | inr e ↦
          let ne : p ≢ slot = ground (arith, e) in
          let old : begin_ref a m ≤ p = behind p at h ne in
          elim (refs p at old) [
            | inl z ↦ inl (read_word_congr m m' p (old_ref p at old ne) ∙ z)
            | inr holds ↦ inr (Holds-old p at old ne holds)
          ]
    ]
      where
        behind : (p : ℕ) → IsPlace a p → begin_ref a m' ≤ p → p ≢ slot → begin_ref a m ≤ p
        behind p (k, e, _) h ne = elim near [
          | inl g ↦ let (j, e', _) = place in ground (arith, g, ne, f.new_ref)
          | inr g ↦ omega (arith, f.new_ref)
        ]

    aligned_after : (j : ℕ) × (begin_ref a m' + 8 * j ≡ end_of a)
    aligned_after = elim near [
      | inl g ↦ let (j, e, _) = place in (j, omega (arith, f.new_ref))
      | inr g ↦ (n_refs, omega (arith, f.new_ref, aligned))
    ]

    pub Fresh-IsTable : IsTable a m' f.blocks
    Fresh-IsTable = record {
      heap = Fresh-IsHeap a n m heap small slot m' bs f;
      chain = f.chain;
      n_refs = aligned_after.0;
      aligned = aligned_after.1;
      refs = refs_after;
    }

  -- `alloc` on a table.
  pub alloc-IsTable :
      (alloc a n m ≡ failed no_memory m)
      ⊎ ((slot : ℕ) × (m' : Memory) × (bs' : List ℕ) × (alloc a n m ≡ done (some slot) m')
          × IsTable a m' bs'
          × IsPlace a slot
          × (begin_ref a m' ≤ slot)
          × Holds a m' bs' slot)
  alloc-IsTable = elim (alloc-Fresh a n m heap small bs chain) [
    | inl run ↦ inl run
    | inr (m', run, f) ↦
        let slot = get_available_ref_space a m in
        let (place, near) = slot-IsPlace in
        inr (
          slot,
          m',
          f.blocks,
          run,
          Fresh-IsTable slot m' f place near,
          place,
          omega (arith, f.new_ref),
          Holds-new slot m' f place near,
        )
  ]
