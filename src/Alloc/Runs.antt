-- ===== src/Alloc/Runs.antt =====
-- Runs of `alloc`, `free` and `realloc`.
use mathlib.Core.Path.{subst}
use technosphere.Alloc.Allocator.{
  Allocator, Result, done, info_size, end_of, begin_ref, alloc, free, size_at,
}
use technosphere.Alloc.Heap.{IsNew, alloc-IsNew}
use technosphere.Alloc.InPlace.{realloc-shrinks}
use technosphere.Alloc.Moves.{realloc}
use technosphere.Alloc.Realloc.{realloc-Moved}
use technosphere.Alloc.Chain.{size_of}
use technosphere.Alloc.Words.{read_word, write_word}
use technosphere.Alloc.Release.{free-IsTable}
use technosphere.Alloc.Table.{IsPlace, IsNamed, Holds, IsTable, alloc-IsTable}
use technosphere.Cache.Memory.{Memory}
use technosphere.Common.{
  ℕ, ◌+◌, ◌-◌, ◌≤◌, ◌<◌, ◌^◌, ◌≡◌, ◌≢◌, ◌⊎◌, ◌==◌, true, inl, inr, refl, ap, sym, ◌∙◌, Option, none,
  some, List, [], arith,
}

-- One call that returns: `alloc` of some bytes, `free` of a pointer whose reference is in the table, or
-- `realloc` of one, to a size that is not greater, or with another effect than a greater size written.
pub data Step (a : Allocator) : Memory → Memory → Type 0 where
  allocates :
      {n slot : ℕ} {m m' : Memory}
      → 0 < n
      → n + info_size < 2 ^ 64
      → alloc a n m ≡ done (some slot) m'
      → Step a m m'
  frees :
      {p : ℕ} {m m' : Memory}
      → IsPlace a p
      → begin_ref a m ≤ p
      → free a (some p) m ≡ done none m'
      → Step a m m'
  resizes :
      {p n : ℕ} {r : Option ℕ} {m m' : Memory}
      → 0 < n
      → n + info_size < 2 ^ 64
      → IsPlace a p
      → begin_ref a m ≤ p
      → realloc a (some p) n m ≡ done r m'
      → (n ≤ size_of m (read_word m p)) ⊎ (m' ≢ write_word (size_at (read_word m p)) n m)
      → Step a m m'

-- Any number of calls.
pub data Run (a : Allocator) : Memory → Memory → Type 0 where
  stop : {m : Memory} → Run a m m
  step : {m m₁ m₂ : Memory} → Step a m m₁ → Run a m₁ m₂ → Run a m m₂

abbrev pub HasTable : Allocator → Memory → Type 0
HasTable a m = (bs : List ℕ) × IsTable a m bs

-- What is left after a call that returns.
abbrev left_by : Result (Option ℕ) → Memory → Memory
left_by (Result.done r m) d = m
left_by (Result.failed e m) d = d
left_by Result.stuck d = d

-- What a call leaves is a table if it is one for some result of the call.
same_result :
    (a : Allocator) (m m₁ m₂ : Memory) (c : Result (Option ℕ)) (r r' : Option ℕ) (bs : List ℕ)
    → c ≡ done r m₁
    → c ≡ done r' m₂
    → IsTable a m₁ bs
    → HasTable a m₂
same_result a m m₁ m₂ c r r' bs runs run table = (
  bs,
  subst (λ (x : Memory). IsTable a x bs)
      (ap (λ (y : Result (Option ℕ)). left_by y m) (sym runs ∙ run)) table,
)

alloc-HasTable :
    (a : Allocator) (n : ℕ) (m m₂ : Memory) (r : Option ℕ)
    → HasTable a m
    → 0 < n
    → n + info_size < 2 ^ 64
    → alloc a n m ≡ done r m₂
    → HasTable a m₂
alloc-HasTable a n m m₂ r (bs, t) some_bytes small run =
    elim (alloc-IsTable a n m bs t some_bytes small) [
      | inl fails ↦ absurd (ground (arith, sym fails ∙ run))
      | inr (slot, m₁, bs', runs, table, _, _, _) ↦
          same_result a m m₁ m₂ (alloc a n m) (some slot) r bs' runs run table
    ]

-- `realloc` of a null reference is `alloc`.
realloc-null :
    (a : Allocator) (p n : ℕ) (m : Memory)
    → read_word m p ≡ 0
    → realloc a (some p) n m ≡ alloc a n m
unfolding realloc
realloc-null a p n m h = let e : read_word m p == 0 ≡ true = ground (arith, h) in rw e refl

realloc-HasTable :
    (a : Allocator) (n : ℕ) (m m₂ : Memory) (bs : List ℕ) (t : IsTable a m bs) (p : ℕ)
    (r : Option ℕ)
    → 0 < n
    → n + info_size < 2 ^ 64
    → IsPlace a p
    → begin_ref a m ≤ p
    → Holds a m bs p
    → realloc a (some p) n m ≡ done r m₂
    → (n ≤ size_of m (read_word m p)) ⊎ (m₂ ≢ write_word (size_at (read_word m p)) n m)
    → HasTable a m₂
realloc-HasTable a n m m₂ bs t p r some_bytes small at p_in hp run (inl le) =
    let (runs, table, _, _, _) = realloc-shrinks a n m bs t some_bytes small p at p_in hp le in
    same_result a m _ m₂ (realloc a (some p) n m) (some p) r bs runs run table
realloc-HasTable a n m m₂ bs t p r some_bytes small at p_in hp run (inr ne) =
    let (_, _, how) = realloc-Moved a n m bs t some_bytes small p at p_in hp in
    elim how [
      | inl (_, runs) ↦ absurd (ne (ap (λ (y : Result (Option ℕ)). left_by y m) (sym run ∙ runs)))
      | inr (_, inl (_, fails)) ↦ absurd (ground (arith, sym fails ∙ run))
      | inr (_, inr (_, m₁, bs', _, runs, (moved, _))) ↦
          same_result a m m₁ m₂ (realloc a (some p) n m) (some p) r bs' runs run (moved.table)
    ]

Step-HasTable : (a : Allocator) (m m₂ : Memory) → HasTable a m → Step a m m₂ → HasTable a m₂
Step-HasTable a m m₂ t (allocates {n} {slot} some_bytes small run) =
    alloc-HasTable a n m m₂ (some slot) t some_bytes small run
Step-HasTable a m m₂ (bs, t) (frees {p} at inside run) = elim (free-IsTable a m bs t p at inside) [
  | inl fails ↦ absurd (ground (arith, sym fails ∙ run))
  | inr (m₁, runs, table) ↦ same_result a m m₁ m₂ (free a (some p) m) none none bs runs run table
]
Step-HasTable a m m₂ (bs, t) (resizes {p} {n} {r} some_bytes small at p_in run how) =
    elim (t.refs p at p_in) [
      | inl z ↦
          alloc-HasTable a n m m₂ r (bs, t) some_bytes small (sym (realloc-null a p n m z) ∙ run)
      | inr hp ↦ realloc-HasTable a n m m₂ bs t p r some_bytes small at p_in hp run how
    ]

keeps_table : (a : Allocator) (m m' : Memory) → HasTable a m → Run a m m' → HasTable a m'
keeps_table a m m' t stop = t
keeps_table a m m' t (step {m₁ = m₁} s r) = keeps_table a m₁ m' (Step-HasTable a m m₁ t s) r

-- The first allocation makes a table.
first-IsTable :
    (a : Allocator) (n : ℕ) (m : Memory)
    → IsNew a m
    → 0 < n
    → n + info_size + info_size + 8 ≤ a.size
    → (m' : Memory) × (alloc a n m ≡ done (some (end_of a - 8)) m') × IsTable a m' []
first-IsTable a n m new some_bytes room =
    let (m', run, holds, size, back, ref, chain, heap) = alloc-IsNew a n m new room in
    (
      m',
      run,
      record {
        heap = heap;
        chain = chain;
        n_refs = 1;
        aligned = omega (arith, ref, new.top);
        refs = λ p at h.
            let (k, e, some_words) = at in
            let here : end_of a - 8 ≡ p = omega (arith, ref, e, some_words) in
            inr (
              subst (Holds a m' []) here (
                subst (IsNamed a m' [] (end_of a - 8)) (sym holds)
                  (inl refl, omega (arith, size), back)));
      },
    )

-- After the first allocation in a new arena, any run of allocations and of calls of `free` and `realloc`
-- with references of the table leaves a table: a heap whose blocks are a chain and do not overlap, in
-- which every reference is null or holds a live block that names it, so that no two hold the same
-- block. The allocations are of one byte at least, and of fewer than 2^64 - 24, and so are the sizes
-- that `realloc` is given, which does not grow a block in place. The first allocation, of n bytes, has
-- n + 56 bytes in the arena: those of the general header, of its own header and of its reference.
pub Run-HasTable :
    (a : Allocator) (n : ℕ) (m m₁ m₂ : Memory)
    → IsNew a m
    → 0 < n
    → n + info_size + info_size + 8 ≤ a.size
    → alloc a n m ≡ done (some (end_of a - 8)) m₁
    → Run a m₁ m₂
    → HasTable a m₂
Run-HasTable a n m m₁ m₂ new some_bytes room run r =
    let (m', run', table) = first-IsTable a n m new some_bytes room in
    let same : m' ≡ m₁ = ap (λ (x : Result (Option ℕ)). left_by x m) (sym run' ∙ run) in
    keeps_table a m₁ m₂ ([], subst (λ (x : Memory). IsTable a x []) same table) r
