-- ===== src/Alloc/Same.antt =====
-- Changes that leave the chain of blocks: of their data, and of references.
use mathlib.Core.Path.{subst}
use technosphere.Alloc.Allocator.{
  Allocator, info_size, begin_ref, data_end, reference_at, size_at, next_at, begin_ref_at,
  data_end_at,
}
use technosphere.Alloc.Chain.{IsBlock, next_of, size_of, Chain}
use technosphere.Alloc.Free.{IsBlock-le}
use technosphere.Alloc.Table.{IsPlace, IsNamed, Holds, IsTable}
use technosphere.Alloc.Words.{read_word, read_word_congr}
use technosphere.Cache.Memory.{Memory}
use technosphere.Common.{
  ℕ, ◌+◌, ◌≤◌, ◌<◌, ◌≡◌, ◌⊎◌, inl, inr, refl, ap, sym, ◌∙◌, List, [], ◌∷◌, arith, min,
}

-- The words that `get_next` and the loops look at are the same.
pub record Same (a : Allocator) (m m' : Memory) (bs : List ℕ) : Type 0 where
  pub ref : begin_ref a m' ≡ begin_ref a m
  pub end : data_end a m' ≡ data_end a m
  pub next : (c : ℕ) → IsBlock c ((a.base + info_size) ∷ bs) → next_of m' c ≡ next_of m c
  pub size : (c : ℕ) → IsBlock c ((a.base + info_size) ∷ bs) → size_of m' c ≡ size_of m c

Chain_same :
    (r r' lim lim' : ℕ) (m m' : Memory) (b : ℕ) (bs : List ℕ)
    → Chain r lim m b bs
    → r' ≡ r
    → lim' ≡ lim
    → ((c : ℕ) → IsBlock c (b ∷ bs) → next_of m' c ≡ next_of m c)
    → ((c : ℕ)
        → IsBlock c (b ∷ bs)
        → (size_of m' c ≤ size_of m c) ⊎ (c + info_size + size_of m' c ≤ min (next_of m c) lim))
    → Chain r' lim' m' b bs
Chain_same r r' lim lim' m m' b [] h e f next size =
    let smaller : b + info_size + size_of m' b ≤ lim' = elim (size b (inl refl)) [
      | inl le ↦ omega (arith, h.1, f, le)
      | inr le ↦ omega (arith, f, le)
    ] in
    (omega (arith, h.0, e, next b (inl refl)), smaller)
Chain_same r r' lim lim' m m' b (c ∷ cs) h e f next size =
    let smaller : b + info_size + size_of m' b ≤ c = elim (size b (inl refl)) [
      | inl le ↦ omega (arith, h.1, le)
      | inr le ↦ omega (arith, h.0, le)
    ] in
    (
      omega (arith, h.0, next b (inl refl)),
      smaller,
      Chain_same r r' lim lim' m m' c cs h.2 e f (λ d i. next d (inr i)) (λ d i. size d (inr i)),
    )

-- A table stays one if its references do, and the sizes that change leave the blocks apart.
pub resized-IsTable :
    (a : Allocator) (m m' : Memory) (bs : List ℕ)
    → IsTable a m bs
    → begin_ref a m' ≡ begin_ref a m
    → data_end a m' ≡ data_end a m
    → ((c : ℕ) → IsBlock c ((a.base + info_size) ∷ bs) → next_of m' c ≡ next_of m c)
    → ((c : ℕ)
        → IsBlock c ((a.base + info_size) ∷ bs)
        → (size_of m' c ≤ size_of m c)
          ⊎ (c + info_size + size_of m' c ≤ min (next_of m c) (data_end a m)))
    → ((p : ℕ) → IsPlace a p → begin_ref a m ≤ p → (read_word m' p ≡ 0) ⊎ Holds a m' bs p)
    → IsTable a m' bs
resized-IsTable a m m' bs t ref end next size refs' =
    let first = a.base + info_size in
    record {
      heap = record {
        low = omega (arith, t.heap.low, end);
        apart = omega (arith, t.heap.apart, end, ref);
        inside = omega (arith, t.heap.inside, ref);
        top = t.heap.top;
      };
      chain =
          Chain_same (begin_ref a m) (begin_ref a m') (data_end a m) (data_end a m') m m' first bs
            t.chain ref end next size;
      n_refs = t.n_refs;
      aligned = omega (arith, t.aligned, ref);
      refs = λ p at h. refs' p at (omega (arith, h, ref));
    }

pub Same-IsTable :
    (a : Allocator) (m m' : Memory) (bs : List ℕ)
    → IsTable a m bs
    → Same a m m' bs
    → ((p : ℕ) → IsPlace a p → begin_ref a m ≤ p → (read_word m' p ≡ 0) ⊎ Holds a m' bs p)
    → IsTable a m' bs
Same-IsTable a m m' bs t s refs' =
    resized-IsTable a m m' bs t s.ref s.end s.next (λ c i. inl (omega (arith, s.size c i))) refs'

-- A reference whose word and whose block's words are the same.
pub Holds_same :
    (a : Allocator) (m m' : Memory) (bs : List ℕ) (p : ℕ)
    → Holds a m bs p
    → read_word m' p ≡ read_word m p
    → size_of m' (read_word m p) ≡ size_of m (read_word m p)
    → read_word m' (reference_at (read_word m p)) ≡ read_word m (reference_at (read_word m p))
    → Holds a m' bs p
Holds_same a m m' bs p (i, l, back) same size ref =
    subst (IsNamed a m' bs p) (sym same) (i, omega (arith, size, l), ref ∙ back)

-- Two blocks of a chain, with their data.
pub IsBlock-disjoint :
    (r lim : ℕ) (m : Memory) (b c d : ℕ) (bs : List ℕ)
    → Chain r lim m d bs
    → IsBlock b (d ∷ bs)
    → IsBlock c (d ∷ bs)
    → (b ≡ c) ⊎ ((b + info_size + size_of m b ≤ c) ⊎ (c + info_size + size_of m c ≤ b))
IsBlock-disjoint r lim m b c d bs h (inl e) (inl f) = inl (e ∙ sym f)
IsBlock-disjoint r lim m b c d [] h (inl e) (inr k) = elim k [ ]
IsBlock-disjoint r lim m b c d [] h (inr i) k = elim i [ ]
IsBlock-disjoint r lim m b c d (x ∷ bs) h (inl e) (inr k) =
    let (le, _) = IsBlock-le r lim m c x bs h.2 k in
    inr (inl (omega (arith, e, le, h.1, ap (size_of m) e)))
IsBlock-disjoint r lim m b c d (x ∷ bs) h (inr i) (inl f) =
    let (le, _) = IsBlock-le r lim m b x bs h.2 i in
    inr (inr (omega (arith, f, le, h.1, ap (size_of m) f)))
IsBlock-disjoint r lim m b c d (x ∷ bs) h (inr i) (inr k) =
    IsBlock-disjoint r lim m b c x bs h.2 i k

-- Only the data of the live block b changes.
module _ (a : Allocator) (m m' : Memory) (bs : List ℕ) (t : IsTable a m bs) (b : ℕ)
    (i : IsBlock b ((a.base + info_size) ∷ bs))
    (same : (q : ℕ) → (q < b + info_size) ⊎ (b + info_size + size_of m b ≤ q) → m' q ≡ m q) where
  open t use {heap, chain, refs}
  open heap use {low, apart, inside, top}

  abbrev first : ℕ
  first = a.base + info_size

  fits : (first ≤ b) × (b + info_size + size_of m b ≤ data_end a m)
  fits = IsBlock-le (begin_ref a m) (data_end a m) m b first bs chain i

  -- A word of a block's header.
  header_same :
      (c x : ℕ)
      → IsBlock c (first ∷ bs)
      → c ≤ x
      → x + 8 ≤ c + info_size
      → read_word m' x ≡ read_word m x
  header_same c x k l u = read_word_congr m m' x (λ q g h.
      same q (elim (IsBlock-disjoint (begin_ref a m) (data_end a m) m b c first bs chain i k) [
        | inl e ↦ inl (omega (arith, e, g, h, l, u))
        | inr (inl e) ↦ inr (omega (arith, e, g, h, l, u))
        | inr (inr e) ↦ inl (omega (arith, e, g, h, l, u))
      ]))

  outside_same : (x : ℕ) → (x + 8 ≤ first) ⊎ (data_end a m ≤ x) → read_word m' x ≡ read_word m x
  outside_same x (inl h) =
      read_word_congr m m' x (λ q g k. same q (inl (omega (arith, fits.0, h, k))))
  outside_same x (inr h) =
      read_word_congr m m' x (λ q g k. same q (inr (omega (arith, fits.1, h, g))))

  pub data_Holds : (p : ℕ) → begin_ref a m ≤ p → Holds a m bs p → Holds a m' bs p
  data_Holds p h holds =
      let c = read_word m p in
      Holds_same a m m' bs p holds (outside_same p (inr (omega arith)))
        (header_same c (size_at c) holds.0 (omega arith) (omega arith))
        (header_same c (reference_at c) holds.0 (omega arith) (omega arith))

  pub data-Same : Same a m m' bs
  data-Same = record {
    ref = outside_same (begin_ref_at a) (inl (omega arith));
    end = outside_same (data_end_at a) (inl (omega arith));
    next = λ c k. header_same c (next_at c) k (omega arith) (omega arith);
    size = λ c k. header_same c (size_at c) k (omega arith) (omega arith);
  }

  pub data_IsTable : IsTable a m' bs
  data_IsTable = Same-IsTable a m m' bs t data-Same (λ p at h. elim (refs p at h) [
    | inl z ↦ inl (outside_same p (inr (omega arith)) ∙ z)
    | inr holds ↦ inr (data_Holds p h holds)
  ])
