-- ===== src/Alloc/Insert.antt =====
-- What an allocation behind a block of a chain gives: the new block and the chain around it.
use technosphere.Alloc.Allocator.{
  Allocator, info_size, end_of, begin_ref, data_end, place, size_at, reference_at,
}
use technosphere.Alloc.Chain.{
  IsBlock, IsBlock-append, IsBlock-live, AllFree-IsBlock, size_of, Chain, Chain-le, Chain_congr,
  Chain-rest, Chain-replace, IsClear, IsClear-above, IsClear-append, AllFree, AllFree-IsClear, Kept,
  Kept-append, AllFree-Kept, Chain-Kept,
}
use technosphere.Alloc.Place.{
  Room, place_out, next-place, next-place_new, size-place, back-place, reference-place,
  begin_ref-place, data_end-place,
}
use technosphere.Alloc.Words.{read_word, read_word_congr}
use technosphere.Cache.Memory.{Memory}
use technosphere.Common.{
  ℕ, ◌+◌, ◌≤◌, ◌<◌, ◌^◌, ◌≡◌, ◌⊎◌, refl, inl, inr, List, [], ◌∷◌, ◌++◌, arith, min,
}

-- What the loop relies on: the blocks end before the references, and the reference that is free stands
-- behind the blocks.
pub record Setting (a : Allocator) (m : Memory) (slot n : ℕ) : Type 0 where
  pub apart : data_end a m ≤ begin_ref a m
  pub inside : begin_ref a m ≤ end_of a
  pub top : end_of a < 2 ^ 64
  pub behind : data_end a m < slot
  pub room : slot + 8 ≤ end_of a
  pub small : n + info_size < 2 ^ 64

-- What a successful allocation gives: a block at `to` that meets no live block and no reference, in
-- a chain again.
pub record Fresh (a : Allocator) (slot n : ℕ) (m m' : Memory) (b : ℕ) (bs : List ℕ) : Type 0 where
  pub to : ℕ
  pub above : b < to
  pub below : to + info_size + n ≤ slot
  pub clear : IsClear m to (to + info_size + n) (b ∷ bs)
  pub blocks : List ℕ
  pub member : IsBlock to blocks
  pub stays : (c : ℕ) → IsBlock c (b ∷ bs) → 0 < size_of m c → IsBlock c (b ∷ blocks)
  pub outside :
      (q : ℕ) → data_end a m ≤ q → to + info_size + n ≤ q → (q < slot) ⊎ (slot + 8 ≤ q) → m' q ≡ m q
  pub chain : Chain (begin_ref a m') (data_end a m') m' b blocks
  pub holds : read_word m' slot ≡ to
  pub sized : size_of m' to ≡ n
  pub referred : read_word m' (reference_at to) ≡ slot
  pub kept : Kept m m' (b ∷ bs)
  pub before : (q : ℕ) → a.base + info_size ≤ q → q < b → m' q ≡ m q
  pub new_end : data_end a m' ≤ begin_ref a m'
  pub new_ref : begin_ref a m' ≡ min (begin_ref a m) slot

module _ (a : Allocator) (slot n : ℕ) (m : Memory) (w : Setting a m slot n) where
  open w use {apart, inside, top, behind, room, small}

  -- the block is put behind b, before r
  pub place_last :
      (b : ℕ) (bs : List ℕ)
      → a.base + info_size ≤ b
      → Chain (begin_ref a m) (data_end a m) m b bs
      → AllFree m bs
      → b + info_size + size_of m b + info_size + n ≤ min (begin_ref a m) slot
      → Fresh a slot n m (place a b (b + info_size + size_of m b) (begin_ref a m) slot n m) b bs
  place_last b bs above h free fits =
      let r = begin_ref a m in
      let to = b + info_size + size_of m b in
      let m' = place a b to r slot n m in
      let le = Chain-le r (data_end a m) m b bs h in
      let at : Room a b to slot n = record {
        above = above;
        behind = omega arith;
        below = omega arith;
        top = omega arith;
      } in
      let out = place_out a b to r slot n m at in
      let size = read_word_congr m m' (size_at b) (λ q p k.
        out q (omega arith) (inr (omega arith)) (inl (omega arith)) (inl (omega (arith, le)))) in
      let ref = begin_ref-place a b to r slot n m at in
      let end = data_end-place a b to r slot n m at (omega arith) in
      record {
        to = to;
        above = omega arith;
        below = omega arith;
        clear = (inr (inl (omega arith)), AllFree-IsClear m to (to + info_size + n) bs free);
        blocks = to ∷ [];
        member = inl refl;
        stays = λ c i l. elim i [
          | inl e ↦ inl e
          | inr k ↦ absurd (omega (arith, l, AllFree-IsBlock m c bs free k))
        ];
        outside =
            λ q h k l. out q (omega (arith, le)) (inr (omega (arith, le))) (inr (omega arith)) l;
        chain = (
          next-place a b to r slot n m at,
          omega (arith, size),
          (
            omega (arith, ref, next-place_new a b to r slot n m at (omega arith)),
            omega (arith, end, size-place a b to r slot n m at),
          ),
        );
        holds = reference-place a b to r slot n m at;
        sized = size-place a b to r slot n m at;
        referred = back-place a b to r slot n m at;
        kept = (
          inr (λ q p k.
              out q (omega arith) (inr (omega arith)) (inl (omega arith))
                (inl (omega (arith, le)))),
          AllFree-Kept m m' bs free,
        );
        before = λ q p k. out q p (inl k) (inl (omega arith)) (inl (omega (arith, le)));
        new_end = omega (arith, ref, end);
        new_ref = ref;
      }

  -- the block is put behind b, before the live block `next`
  pub place_between :
      (b : ℕ) (ds : List ℕ) (next : ℕ) (cs : List ℕ)
      → a.base + info_size ≤ b
      → Chain (begin_ref a m) (data_end a m) m b (ds ++ (next ∷ cs))
      → AllFree m ds
      → b + info_size + size_of m b + info_size + n ≤ min next slot
      → Fresh a slot n m
          (place a b (b + info_size + size_of m b) next slot n m)
          b
          (ds ++ (next ∷ cs))
  place_between b ds next cs above h free fits =
      let r = begin_ref a m in
      let lim = data_end a m in
      let to = b + info_size + size_of m b in
      let m' = place a b to next slot n m in
      let (rest, le) = Chain-rest r lim m b ds next cs h in
      let le' = Chain-le r lim m next cs rest in
      let at : Room a b to slot n = record {
        above = above;
        behind = omega arith;
        below = omega arith;
        top = omega arith;
      } in
      let out = place_out a b to next slot n m at in
      let size = read_word_congr m m' (size_at b) (λ q p k.
        out q (omega arith) (inr (omega arith)) (inl (omega arith)) (inl (omega arith))) in
      let ref = begin_ref-place a b to next slot n m at in
      let end = data_end-place a b to next slot n m at (omega arith) in
      let same : (q : ℕ) → next ≤ q → q < lim → m' q ≡ m q =
        λ q p k. out q (omega arith) (inr (omega arith)) (inr (omega arith)) (inl (omega arith)) in
      record {
        to = to;
        above = omega arith;
        below = omega arith;
        clear = (
          inr (inl (omega arith)),
          IsClear-append m to (to + info_size + n) ds (next ∷ cs) free
              (IsClear-above r lim m to (to + info_size + n) next cs rest (omega arith)),
        );
        blocks = to ∷ next ∷ cs;
        member = inl refl;
        stays = λ c i l. elim i [
          | inl e ↦ inl e
          | inr k ↦ inr (inr (IsBlock-live m c ds (next ∷ cs) free l k))
        ];
        outside = λ q h k l. out q (omega arith) (inr (omega arith)) (inr (omega arith)) l;
        chain = (
          next-place a b to next slot n m at,
          omega (arith, size),
          (
            next-place_new a b to next slot n m at (omega (arith, le')),
            omega (arith, size-place a b to next slot n m at),
            Chain_congr r (begin_ref a m') lim (data_end a m') m m' next cs rest
                (omega (arith, ref)) (omega (arith, end)) same,
          ),
        );
        holds = reference-place a b to next slot n m at;
        sized = size-place a b to next slot n m at;
        referred = back-place a b to next slot n m at;
        kept = (
          inr (λ q p k.
              out q (omega arith) (inr (omega arith)) (inl (omega arith)) (inl (omega arith))),
          Kept-append m m' ds (next ∷ cs) free (Chain-Kept r lim m m' next cs rest same),
        );
        before = λ q p k. out q p (inl k) (inl (omega arith)) (inl (omega arith));
        new_end = omega (arith, ref, end, le');
        new_ref = ref;
      }

  -- a block put behind a later one
  pub step_back :
      (m' : Memory) (b : ℕ) (ds : List ℕ) (next : ℕ) (cs : List ℕ)
      → a.base + info_size ≤ b
      → Chain (begin_ref a m) (data_end a m) m b (ds ++ (next ∷ cs))
      → AllFree m ds
      → Fresh a slot n m m' next cs
      → Fresh a slot n m m' b (ds ++ (next ∷ cs))
  step_back m' b ds next cs above h free f =
      let r = begin_ref a m in
      let lim = data_end a m in
      let (rest, le) = Chain-rest r lim m b ds next cs h in
      record {
        to = f.to;
        above = omega (arith, f.above);
        below = f.below;
        clear = (
          inr (inl (omega (arith, f.above))),
          IsClear-append m f.to (f.to + info_size + n) ds (next ∷ cs) free f.clear,
        );
        blocks = ds ++ (next ∷ f.blocks);
        member = IsBlock-append f.to ds (next ∷ f.blocks) (inr f.member);
        stays = λ c i l. elim i [
          | inl e ↦ inl e
          | inr k ↦ inr (
              IsBlock-append c ds (next ∷ f.blocks)
                (f.stays c (IsBlock-live m c ds (next ∷ cs) free l k) l))
        ];
        outside = f.outside;
        chain =
            Chain-replace r (begin_ref a m') lim (data_end a m') m m' b ds next cs f.blocks h
              (λ q p k. f.before q (omega arith) k) f.chain;
        holds = f.holds;
        sized = f.sized;
        referred = f.referred;
        kept = (
          inr (λ q p k. f.before q (omega arith) (omega arith)),
          Kept-append m m' ds (next ∷ cs) free f.kept,
        );
        before = λ q p k. f.before q p (omega arith);
        new_end = f.new_end;
        new_ref = f.new_ref;
      }
