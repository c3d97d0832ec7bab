-- ===== src/Alloc/Defrag.antt =====
-- `defrag`: the behaviours that it can have.
use technosphere.Alloc.Allocator.{
  Allocator, info_size, end_of, begin_ref, data_end, allocated, get_next, size_at, data_end_at,
  begin_ref_at,
}
use technosphere.Alloc.Heap.{IsNew}
use technosphere.Alloc.Moves.{defrag, defrag_loop, shift}
use technosphere.Alloc.Words.{read_word, write_word, read_word-write_word, read_word-write_word_ne}
use technosphere.Cache.Memory.{Memory}
use technosphere.Common.{
  ℕ, zero, suc, ◌+◌, ◌≤◌, ◌<◌, ◌^◌, ◌≡◌, ◌≢◌, inl, inr, refl, ◌∙◌, false, true, none, some, arith,
  ltb, ◌==◌,
}

shift-none : (a : Allocator) (c : ℕ) (m : Memory) → c ≢ data_end a m → shift a none c m ≡ none
unfolding shift
shift-none a c m h = let e : c == data_end a m ≡ false = ground (arith, h) in rw e refl

loop-none :
    (fuel : ℕ) (a : Allocator) (c : ℕ) (m : Memory)
    → c < begin_ref a m
    → shift a none c m ≡ none
    → defrag_loop fuel a none c m ≡ none
unfolding defrag_loop
loop-none zero a c m h e = refl
loop-none (suc fuel) a c m h e =
    let f : ltb c (begin_ref a m) ≡ true = ground (arith, h) in rw (f, e) refl

-- The first block is free and a live one stands behind it: `defrag` writes to `prev->next` while
-- `prev` is not initialised.
pub defrag-undefined :
    (a : Allocator) (m : Memory) (c : ℕ)
    → a.base + info_size < 2 ^ 64
    → allocated a m ≢ info_size
    → read_word m (size_at (a.base + info_size)) ≡ 0
    → get_next a (write_word (data_end_at a) (a.base + info_size) m) (a.base + info_size) ≡ some c
    → a.base + info_size < c
    → c < begin_ref a m
    → defrag a m ≡ none
unfolding defrag
defrag-undefined a m c small used free found behind live =
    let first = a.base + info_size in
    let m₁ = write_word (data_end_at a) first m in
    let ref : begin_ref a m₁ ≡ begin_ref a m =
      read_word-write_word_ne m (data_end_at a) first (begin_ref_at a) (inr (omega arith)) in
    let size : read_word m₁ (size_at first) ≡ 0 =
      read_word-write_word_ne m (data_end_at a) first (size_at first) (inr (omega arith)) ∙ free in
    let end : data_end a m₁ ≡ first = read_word-write_word m (data_end_at a) first small in
    let no_prev : shift a none c m₁ ≡ none =
      shift-none a c m₁ (λ e. omega (arith, e, end, behind)) in
    let run : defrag_loop a.size a none c m₁ ≡ none =
      loop-none a.size a c m₁ (omega (arith, ref, live)) no_prev in
    let some_used : allocated a m == info_size ≡ false = ground (arith, used) in
    let no_size : read_word m₁ (size_at first) == 0 ≡ true = ground (arith, size) in
    rw (some_used, no_size, found, run) refl

-- When all blocks are freed `defrag` gives the whole memory back.
pub defrag-IsNew :
    (a : Allocator) (m : Memory)
    → end_of a < 2 ^ 64
    → info_size + 8 ≤ a.size
    → allocated a m ≡ info_size
    → (m' : Memory) × (defrag a m ≡ some m') × IsNew a m'
unfolding defrag
defrag-IsNew a m top room used =
    let first = a.base + info_size in
    let m₁ = write_word (data_end_at a) first m in
    (
      write_word (begin_ref_at a) (end_of a) m₁,
      (let e : allocated a m == info_size ≡ true = ground (arith, used) in rw e refl),
      record {
        no_blocks =
            read_word-write_word_ne m₁ (begin_ref_at a) (end_of a) (data_end_at a)
              (inl (omega arith))
            ∙ read_word-write_word m (data_end_at a) first (omega arith);
        no_refs = read_word-write_word m₁ (begin_ref_at a) (end_of a) top;
        counted =
            read_word-write_word_ne m₁ (begin_ref_at a) (end_of a) a.base (inl (omega arith))
            ∙ read_word-write_word_ne m (data_end_at a) first a.base (inl (omega arith))
            ∙ used;
        top = top;
        room = room;
      },
    )
