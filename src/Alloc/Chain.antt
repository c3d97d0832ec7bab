-- ===== src/Alloc/Chain.antt =====
-- The chain of the blocks: `next` goes from block to block, upwards, and no block reaches the next.
-- A freed block stays in the chain with the size 0 until an allocation leaves it out.
use technosphere.Alloc.Allocator.{info_size, next_at, size_at, next_loop}
use technosphere.Alloc.Words.{read_word, read_word_congr}
use technosphere.Cache.Memory.{Memory}
use technosphere.Common.{
  ℕ, zero, suc, ◌+◌, ◌≤◌, ◌<◌, ◌≡◌, ◌∙◌, ◌⊎◌, inl, inr, refl, ap, true, some, List, [], ◌∷◌, ◌++◌,
  arith, ltb, ◌==◌, length, Bool-cases,
}

abbrev pub next_of : Memory → ℕ → ℕ
next_of m b = read_word m (next_at b)

abbrev pub size_of : Memory → ℕ → ℕ
size_of m b = read_word m (size_at b)

-- The block b and the blocks behind it, under `lim`; the last goes on to `r` or beyond.
abbrev pub Chain : ℕ → ℕ → Memory → ℕ → List ℕ → Type 0
Chain r lim m b [] = (r ≤ next_of m b) × (b + info_size + size_of m b ≤ lim)
Chain r lim m b (c ∷ cs) =
    (next_of m b ≡ c) × (b + info_size + size_of m b ≤ c) × Chain r lim m c cs

pub Chain-le :
    (r lim : ℕ) (m : Memory) (b : ℕ) (bs : List ℕ)
    → Chain r lim m b bs
    → b + info_size + size_of m b ≤ lim
Chain-le r lim m b [] h = h.1
Chain-le r lim m b (c ∷ cs) h = omega (arith, h.1, Chain-le r lim m c cs h.2)

-- A chain stays one where its bytes stay.
pub Chain_congr :
    (r r' lim lim' : ℕ) (m m' : Memory) (b : ℕ) (bs : List ℕ)
    → Chain r lim m b bs
    → r' ≤ r
    → lim ≤ lim'
    → ((q : ℕ) → b ≤ q → q < lim → m' q ≡ m q)
    → Chain r' lim' m' b bs
Chain_congr r r' lim lim' m m' b [] h hr hl same =
    let next =
      read_word_congr m m' (next_at b) (λ q p k. same q (omega arith) (omega (arith, h.1))) in
    let size =
      read_word_congr m m' (size_at b) (λ q p k. same q (omega arith) (omega (arith, h.1))) in
    (omega (arith, h.0, next), omega (arith, h.1, size))
Chain_congr r r' lim lim' m m' b (c ∷ cs) h hr hl same =
    let le = Chain-le r lim m c cs h.2 in
    let next =
      read_word_congr m m' (next_at b) (λ q p k. same q (omega arith) (omega (arith, h.1, le))) in
    let size =
      read_word_congr m m' (size_at b) (λ q p k. same q (omega arith) (omega (arith, h.1, le))) in
    (
      omega (arith, h.0, next),
      omega (arith, h.1, size),
      Chain_congr r r' lim lim' m m' c cs h.2 hr hl (λ q p k. same q (omega (arith, h.1)) k),
    )

-- b is one of the blocks.
abbrev pub IsBlock : ℕ → List ℕ → Type 0
IsBlock b [] = ⊥
IsBlock b (c ∷ cs) = (b ≡ c) ⊎ IsBlock b cs

pub IsBlock-append : (b : ℕ) (ds bs : List ℕ) → IsBlock b bs → IsBlock b (ds ++ bs)
IsBlock-append b [] bs h = h
IsBlock-append b (d ∷ ds) bs h = inr (IsBlock-append b ds bs h)

-- No live block of the chain meets the bytes from `lo` up to `hi`.
abbrev pub IsClear : Memory → ℕ → ℕ → List ℕ → Type 0
IsClear m lo hi [] = Unit
IsClear m lo hi (b ∷ bs) =
    ((size_of m b ≡ 0) ⊎ ((b + info_size + size_of m b ≤ lo) ⊎ (hi ≤ b))) × IsClear m lo hi bs

pub IsClear-above :
    (r lim : ℕ) (m : Memory) (lo hi b : ℕ) (bs : List ℕ)
    → Chain r lim m b bs
    → hi ≤ b
    → IsClear m lo hi (b ∷ bs)
IsClear-above r lim m lo hi b [] h k = (inr (inr k), tt)
IsClear-above r lim m lo hi b (c ∷ cs) h k =
    (inr (inr k), IsClear-above r lim m lo hi c cs h.2 (omega (arith, h.1)))

abbrev pub AllFree : Memory → List ℕ → Type 0
AllFree m [] = Unit
AllFree m (b ∷ bs) = (size_of m b ≡ 0) × AllFree m bs

pub AllFree-IsClear : (m : Memory) (lo hi : ℕ) (bs : List ℕ) → AllFree m bs → IsClear m lo hi bs
AllFree-IsClear m lo hi [] h = tt
AllFree-IsClear m lo hi (b ∷ bs) h = (inl h.0, AllFree-IsClear m lo hi bs h.1)

pub IsClear-append :
    (m : Memory) (lo hi : ℕ) (ds bs : List ℕ)
    → AllFree m ds
    → IsClear m lo hi bs
    → IsClear m lo hi (ds ++ bs)
IsClear-append m lo hi [] bs h k = k
IsClear-append m lo hi (d ∷ ds) bs h k = (inl h.0, IsClear-append m lo hi ds bs h.1 k)

-- A block behind free ones.
pub IsBlock-live :
    (m : Memory) (b : ℕ) (ds bs : List ℕ)
    → AllFree m ds
    → 0 < size_of m b
    → IsBlock b (ds ++ bs)
    → IsBlock b bs
IsBlock-live m b [] bs h l i = i
IsBlock-live m b (d ∷ ds) bs h l (inl e) = absurd (omega (arith, h.0, l, ap (size_of m) e))
IsBlock-live m b (d ∷ ds) bs h l (inr i) = IsBlock-live m b ds bs h.1 l i

pub AllFree-IsBlock :
    (m : Memory) (b : ℕ) (ds : List ℕ) → AllFree m ds → IsBlock b ds → size_of m b ≡ 0
AllFree-IsBlock m b [] h i = elim i [ ]
AllFree-IsBlock m b (d ∷ ds) h (inl e) = ap (size_of m) e ∙ h.0
AllFree-IsBlock m b (d ∷ ds) h (inr i) = AllFree-IsBlock m b ds h.1 i

-- The rest of a chain, from a block n of it.
pub Chain-rest :
    (r lim : ℕ) (m : Memory) (b : ℕ) (ds : List ℕ) (n : ℕ) (cs : List ℕ)
    → Chain r lim m b (ds ++ (n ∷ cs))
    → Chain r lim m n cs × (b + info_size + size_of m b ≤ n)
Chain-rest r lim m b [] n cs h = (h.2, h.1)
Chain-rest r lim m b (d ∷ ds) n cs h =
    let (rest, le) = Chain-rest r lim m d ds n cs h.2 in (rest, omega (arith, h.1, le))

-- The chain from n on replaced.
pub Chain-replace :
    (r r' lim lim' : ℕ) (m m' : Memory) (b : ℕ) (ds : List ℕ) (n : ℕ) (cs cs' : List ℕ)
    → Chain r lim m b (ds ++ (n ∷ cs))
    → ((q : ℕ) → b ≤ q → q < n → m' q ≡ m q)
    → Chain r' lim' m' n cs'
    → Chain r' lim' m' b (ds ++ (n ∷ cs'))
Chain-replace r r' lim lim' m m' b [] n cs cs' h same k =
    let next =
      read_word_congr m m' (next_at b) (λ q p l. same q (omega arith) (omega (arith, h.1))) in
    let size =
      read_word_congr m m' (size_at b) (λ q p l. same q (omega arith) (omega (arith, h.1))) in
    (omega (arith, h.0, next), omega (arith, h.1, size), k)
Chain-replace r r' lim lim' m m' b (d ∷ ds) n cs cs' h same k =
    let le = (Chain-rest r lim m d ds n cs h.2).1 in
    let next =
      read_word_congr m m' (next_at b) (λ q p l. same q (omega arith) (omega (arith, h.1, le))) in
    let size =
      read_word_congr m m' (size_at b) (λ q p l. same q (omega arith) (omega (arith, h.1, le))) in
    (
      omega (arith, h.0, next),
      omega (arith, h.1, size),
      Chain-replace r r' lim lim' m m' d ds n cs cs' h.2 (λ q p l. same q (omega (arith, h.1)) l) k,
    )

-- What `get_next` finds behind the block b of a chain: `r` if all blocks there are free, and otherwise
-- the first that is not.
abbrev pub Found : ℕ → Memory → List ℕ → ℕ → Type 0
Found r m bs n =
    ((n ≡ r) × AllFree m bs)
    ⊎ ((ds : List ℕ) × (cs : List ℕ) × (bs ≡ ds ++ (n ∷ cs)) × AllFree m ds)

Found-free :
    (r : ℕ) (m : Memory) (c : ℕ) (bs : List ℕ) (n : ℕ)
    → size_of m c ≡ 0
    → Found r m bs n
    → Found r m (c ∷ bs) n
Found-free r m c bs n z (inl (e, free)) = inl (e, (z, free))
Found-free r m c bs n z (inr (ds, cs, e, free)) =
    inr (c ∷ ds, cs, ap (λ (l : List ℕ). c ∷ l) e, (z, free))

pub next_loop-Chain :
    (fuel r lim : ℕ) (m : Memory) (b : ℕ) (bs : List ℕ)
    → Chain r lim m b bs
    → lim ≤ r
    → length bs < fuel
    → (n : ℕ) × (next_loop fuel r m (next_of m b) ≡ some n) × Found r m bs n
unfolding next_loop
next_loop-Chain zero r lim m b bs h k l = absurd (omega arith)
next_loop-Chain (suc fuel) r lim m b [] h k l = (r, ground (arith, h.0), inl (refl, tt))
next_loop-Chain (suc fuel) r lim m b (c ∷ cs) h k l =
    let le = Chain-le r lim m c cs h.2 in
    let below : ltb c r ≡ true = ground (arith, le) in
    elim (Bool-cases (size_of m c == 0)) [
      | inl e ↦
          let (n, run, found) = next_loop-Chain fuel r lim m c cs h.2 k (omega arith) in
          let zero_size : size_of m c ≡ 0 = ground arith in
          (n, rw h.0 (rw (below, e) run), Found-free r m c cs n zero_size found)
      | inr e ↦ (c, rw h.0 (rw (below, e) (ground (arith, le))), inr ([], cs, refl, tt))
    ]

-- A chain is not longer than its bytes are many.
pub Chain-length :
    (r lim : ℕ) (m : Memory) (b : ℕ) (bs : List ℕ) → Chain r lim m b bs → b + length bs < lim
Chain-length r lim m b [] h = omega (arith, h.1)
Chain-length r lim m b (c ∷ cs) h = omega (arith, h.1, Chain-length r lim m c cs h.2)

-- The live blocks of a chain keep their reference, their size and their bytes.
abbrev pub Kept : Memory → Memory → List ℕ → Type 0
Kept m m' [] = Unit
Kept m m' (b ∷ bs) =
    ((size_of m b ≡ 0) ⊎ ((q : ℕ) → b + 8 ≤ q → q < b + info_size + size_of m b → m' q ≡ m q))
    × Kept m m' bs

pub Kept-live :
    (m m' : Memory) (b : ℕ) (bs : List ℕ)
    → Kept m m' bs
    → IsBlock b bs
    → 0 < size_of m b
    → (q : ℕ) → b + 8 ≤ q
    → q < b + info_size + size_of m b
    → m' q ≡ m q
Kept-live m m' b [] h i l = elim i [ ]
Kept-live m m' b (c ∷ cs) (inl z, h) (inl e) l = absurd (omega (arith, z, l, ap (size_of m) e))
Kept-live m m' b (c ∷ cs) (inr same, h) (inl e) l =
    λ q p k. same q (omega (arith, e)) (omega (arith, e, ap (size_of m) e))
Kept-live m m' b (c ∷ cs) h (inr i) l = Kept-live m m' b cs h.1 i l

pub Kept-append :
    (m m' : Memory) (ds bs : List ℕ) → AllFree m ds → Kept m m' bs → Kept m m' (ds ++ bs)
Kept-append m m' [] bs h k = k
Kept-append m m' (d ∷ ds) bs h k = (inl h.0, Kept-append m m' ds bs h.1 k)

pub AllFree-Kept : (m m' : Memory) (bs : List ℕ) → AllFree m bs → Kept m m' bs
AllFree-Kept m m' [] h = tt
AllFree-Kept m m' (b ∷ bs) h = (inl h.0, AllFree-Kept m m' bs h.1)

pub Chain-Kept :
    (r lim : ℕ) (m m' : Memory) (b : ℕ) (bs : List ℕ)
    → Chain r lim m b bs
    → ((q : ℕ) → b ≤ q → q < lim → m' q ≡ m q)
    → Kept m m' (b ∷ bs)
Chain-Kept r lim m m' b [] h same = (inr (λ q p k. same q (omega arith) (omega (arith, h.1))), tt)
Chain-Kept r lim m m' b (c ∷ cs) h same =
    let le = Chain-le r lim m c cs h.2 in
    (
      inr (λ q p k. same q (omega arith) (omega (arith, h.1, le))),
      Chain-Kept r lim m m' c cs h.2 (λ q p k. same q (omega (arith, h.1)) k),
    )
