-- ===== src/Alloc/Realloc.antt =====
-- `realloc` of a reference that holds a block.
use mathlib.Core.Path.{subst}
use technosphere.Alloc.Allocator.{
  Allocator, Result, no_memory, done, failed, info_size, begin_ref, data_end, get_next, alloc,
  size_at, end_of, get_available_ref_space,
}
use technosphere.Alloc.Chain.{
  IsBlock, size_of, Chain, Chain-length, Chain-le, Chain-rest, next_loop-Chain,
}
use technosphere.Alloc.Free.{IsBlock-le}
use technosphere.Alloc.Heap.{alloc-Fresh, ref_loop-free}
use technosphere.Alloc.Keeps.{Keeps, Keeps-size, Keeps-trans, Fresh-Keeps}
use technosphere.Alloc.Moves.{move_block, after_alloc, realloc, realloc_at}
use technosphere.Alloc.Table.{IsPlace, Holds, IsTable, slot-IsPlace, Fresh-IsTable, Holds-new}
use technosphere.Alloc.Words.{add64, sub64, read_word, write_word}
use technosphere.Cache.Memory.{Memory}
use technosphere.Alloc.Move.{Placed, move_block-Placed, move_block-Keeps}
use technosphere.Common.{
  ℕ, ◌+◌, ◌-◌, ◌/◌, ◌≤◌, ◌<◌, ◌^◌, ◌≡◌, ◌≢◌, ◌⊎◌, inl, inr, refl, ap, sym, ◌∙◌, false, Option, some,
  List, [], ◌∷◌, arith, leb, ◌==◌, min, Bool-cases,
}

-- The chain from a block on.
Chain-tail :
    (r lim : ℕ) (m : Memory) (b c : ℕ) (bs : List ℕ)
    → Chain r lim m c bs
    → IsBlock b (c ∷ bs)
    → (cs : List ℕ) × Chain r lim m b cs
Chain-tail r lim m b c bs h (inl e) = (bs, subst (λ (x : ℕ). Chain r lim m x bs) (sym e) h)
Chain-tail r lim m b c [] h (inr i) = elim i [ ]
Chain-tail r lim m b c (d ∷ ds) h (inr i) = Chain-tail r lim m b d ds h.2 i

-- `get_next` of a block: behind its data, and not behind the first reference.
pub get_next-block :
    (a : Allocator) (m : Memory) (bs : List ℕ) (t : IsTable a m bs) (b : ℕ)
    → IsBlock b ((a.base + info_size) ∷ bs)
    → (n : ℕ) × (get_next a m b ≡ some n) × (b + info_size + size_of m b ≤ n) × (n ≤ begin_ref a m)
unfolding get_next
get_next-block a m bs t b i =
    let r = begin_ref a m in
    let lim = data_end a m in
    let (cs, h) = Chain-tail r lim m b (a.base + info_size) bs t.chain i in
    let (ge, _) = IsBlock-le r lim m b (a.base + info_size) bs t.chain i in
    let le = Chain-le r lim m b cs h in
    let long = Chain-length r lim m b cs h in
    let (n, run, found) =
      next_loop-Chain a.size r lim m b cs h t.heap.apart
        (omega (arith, long, t.heap.apart, t.heap.inside, ge)) in
    let (ge', le') : (b + info_size + size_of m b ≤ n) × (n ≤ r) = elim found [
      | inl (e, _) ↦ (omega (arith, e, le, t.heap.apart), omega (arith, e))
      | inr (ds, cs', e, _) ↦
          let (rest, before) = Chain-rest r lim m b ds n cs' (subst (Chain r lim m b) e h) in
          let after = Chain-le r lim m n cs' rest in (before, omega (arith, after, t.heap.apart))
    ] in
    (n, run, ge', le')

-- What `realloc` leaves when it moves the block of p: p as above, and the other references keep their
-- blocks.
abbrev pub Moved : Allocator → ℕ → ℕ → Memory → Memory → List ℕ → List ℕ → Type 0
Moved a p n m m' bs bs' =
    Placed a p n m m' bs'
    × ((q : ℕ) → IsPlace a q → begin_ref a m ≤ q → q ≢ p → Holds a m bs q → Keeps a m m' bs' q)

pub realloc_block :
    (a : Allocator) (p n : ℕ) (m : Memory)
    → 0 < read_word m p
    → realloc a (some p) n m ≡ realloc_at a p n (get_next a m (read_word m p)) m
unfolding realloc
realloc_block a p n m h = let e : read_word m p == 0 ≡ false = ground (arith, h) in rw e refl

-- the test of `realloc`, without wrap-around
pub realloc_at-lem :
    (a : Allocator) (p n next : ℕ) (m : Memory)
    → n + info_size < 2 ^ 64
    → read_word m p ≤ min next (begin_ref a m)
    → min next (begin_ref a m) < 2 ^ 64
    → ((realloc_at a p n (some next) m ≡ done (some p) (write_word (size_at (read_word m p)) n m))
        × (read_word m p + info_size + n ≤ min next (begin_ref a m)))
      ⊎ ((realloc_at a p n (some next) m ≡ after_alloc a p n (alloc a n m))
          × (min next (begin_ref a m) < read_word m p + info_size + n))
unfolding realloc_at
realloc_at-lem a p n next m h k l =
    let need : add64 n info_size ≡ n + info_size = omega arith in
    let room : sub64 (min next (begin_ref a m)) (read_word m p)
        ≡ min next (begin_ref a m) - read_word m p =
      omega arith in
    elim (Bool-cases (leb (n + info_size) (min next (begin_ref a m) - read_word m p))) [
      | inl e ↦ inl (rw (need, room, e) refl, ground (arith, e, k))
      | inr e ↦ inr (rw (need, room, e) refl, ground (arith, e, k))
    ]

module _ (a : Allocator) (n : ℕ) (m : Memory) (bs : List ℕ) (t : IsTable a m bs)
    (some_bytes : 0 < n) (small : n + info_size < 2 ^ 64) (p : ℕ) (at_p : IsPlace a p)
    (p_in : begin_ref a m ≤ p) (hp : Holds a m bs p) where
  abbrev b : ℕ
  b = read_word m p

  bounds : (a.base + info_size ≤ b) × (b + info_size + size_of m b ≤ data_end a m)
  bounds = IsBlock-le (begin_ref a m) (data_end a m) m b (a.base + info_size) bs t.chain hp.0

  -- the slot of the new block holds none
  slot_other : (q : ℕ) → begin_ref a m ≤ q → Holds a m bs q → q ≢ get_available_ref_space a m
  unfolding get_available_ref_space
  slot_other q h hq e =
      let (ge, _) =
        IsBlock-le (begin_ref a m) (data_end a m) m (read_word m q) (a.base + info_size) bs t.chain
          hq.0 in
      let (_, free) =
        ref_loop-free ((end_of a - begin_ref a m) / 8) (begin_ref a m) m (end_of a)
          (omega (arith, t.heap.low, t.heap.apart)) (omega (arith, t.heap.inside)) in
      elim free [
        | inl f ↦ omega (arith, e, f, h)
        | inr z ↦ omega (arith, ap (read_word m) e, z, ge)
      ]

  -- What `alloc` leads to: it fails, or the block is moved to the one that it gives.
  abbrev pub Replaced : Result (Option ℕ) → Type 0
  Replaced run =
      ((alloc a n m ≡ failed no_memory m) × (run ≡ failed no_memory m))
      ⊎ ((m₁ : Memory) × (m' : Memory) × (bs' : List ℕ) × (alloc a n m
            ≡ done (some (get_available_ref_space a m)) m₁)
          × (run ≡ done (some p) m')
          × Moved a p n m m' bs bs')

  after_alloc-Moved : Replaced (after_alloc a p n (alloc a n m))
  unfolding after_alloc
  after_alloc-Moved = elim (alloc-Fresh a n m t.heap small bs t.chain) [
    | inl run ↦ inl (run, rw run refl)
    | inr (m₁, run, f) ↦
        let slot = get_available_ref_space a m in
        let (place, near) = slot-IsPlace a n m bs t some_bytes small in
        let t₁ = Fresh-IsTable a n m bs t some_bytes small slot m₁ f place near in
        let keep = Fresh-Keeps a m bs t n some_bytes small slot m₁ f place near in
        let kp = keep p at_p p_in (slot_other p p_in hp) hp in
        let p_in₁ : begin_ref a m₁ ≤ p = omega (arith, f.new_ref, p_in) in
        let slot_in : begin_ref a m₁ ≤ slot = omega (arith, f.new_ref) in
        let hs = Holds-new a n m bs t some_bytes small slot m₁ f place near in
        let size : size_of m₁ (read_word m₁ slot) ≡ n = ap (size_of m₁) f.holds ∙ f.sized in
        let old_size : size_of m₁ (read_word m₁ p) ≡ size_of m b =
          ap (size_of m₁) kp.word ∙ Keeps-size a m m₁ f.blocks p kp in
        let ne = slot_other p p_in hp in
        let placed =
          move_block-Placed a m₁ f.blocks t₁ p slot n at_p place p_in₁ slot_in ne kp.held hs size in
        inr (
          m₁,
          move_block a p slot n m₁,
          f.blocks,
          run,
          rw run refl,
          (
            record {
              table = placed.table;
              holds = placed.holds;
              sized = placed.sized;
              copied = λ i h.
                  placed.copied i (omega (arith, h, old_size))
                  ∙ ap (λ (x : ℕ). m₁ (x + info_size + i)) kp.word
                  ∙ kp.bytes (b + info_size + i) (omega arith) (omega (arith, h));
            },
            λ q at h n₁ hq.
                let kq = keep q at h (slot_other q h hq) hq in
                Keeps-trans a m m₁ (move_block a p slot n m₁) f.blocks f.blocks q kq (
                  move_block-Keeps a m₁ f.blocks t₁ p slot n at_p place p_in₁ slot_in ne kp.held hs
                    size q at (omega (arith, f.new_ref, h)) n₁ (slot_other q h hq) kq.held),
          ),
        )
  ]

  pub realloc-Moved :
      (next : ℕ) × (get_next a m b ≡ some next)
      × (((b + info_size + n ≤ min next (begin_ref a m))
            × (realloc a (some p) n m ≡ done (some p) (write_word (size_at b) n m)))
          ⊎ ((min next (begin_ref a m) < b + info_size + n) × Replaced (realloc a (some p) n m)))
  realloc-Moved =
      let (next, run, ge, le) = get_next-block a m bs t b hp.0 in
      let start : realloc a (some p) n m ≡ realloc_at a p n (some next) m =
        realloc_block a p n m (omega (arith, bounds.0))
        ∙ ap (λ (x : Option ℕ). realloc_at a p n x m) run in
      (
        next,
        run,
        elim (realloc_at-lem a p n next m small (omega (arith, ge, le))
            (omega (arith, t.heap.inside, t.heap.top))) [
              | inl (e, fits) ↦ inl (fits, start ∙ e)
              | inr (e, over) ↦ inr (over, subst Replaced (sym (start ∙ e)) after_alloc-Moved)
            ],
      )
