-- ===== src/Alloc/Loop.antt =====
-- The loop of `alloc`: it finds a place behind a block that is large enough, or throws.
use mathlib.Core.Path.{subst}
use technosphere.Alloc.Allocator.{
  Allocator, no_memory, done, failed, info_size, begin_ref, data_end, get_next, place, alloc_at,
  alloc_loop,
}
use technosphere.Alloc.Chain.{
  size_of, Chain, Chain-le, Chain-rest, Chain-length, AllFree, Found, next_loop-Chain,
}
use technosphere.Alloc.Words.{add64, sub64}
use technosphere.Cache.Memory.{Memory}
use technosphere.Common.{
  ℕ, zero, suc, ◌+◌, ◌-◌, ◌≤◌, ◌<◌, ◌^◌, ◌≡◌, ◌⊎◌, inl, inr, ap, sym, ◌∙◌, none, some, List, ◌∷◌,
  ◌++◌, arith, leb, min, length, length-append, Bool-cases,
}
use technosphere.Alloc.Insert.{Setting, Fresh, place_last, place_between, step_back}

module _ (a : Allocator) (slot n : ℕ) (m : Memory) (w : Setting a m slot n) where
  open w use {apart, inside, top, behind, room, small}

  alloc_loop-some :
      (fuel b next : ℕ) (m' : Memory)
      → b < begin_ref a m
      → get_next a m b ≡ some next
      → alloc_at a slot n b next m ≡ some m'
      → alloc_loop (suc fuel) a slot n b m ≡ done (some slot) m'
  unfolding alloc_loop
  alloc_loop-some fuel b next m' h e f = ground (arith, h, e, f)

  alloc_loop-none :
      (fuel b next : ℕ)
      → b < begin_ref a m
      → get_next a m b ≡ some next
      → alloc_at a slot n b next m ≡ none
      → alloc_loop (suc fuel) a slot n b m ≡ alloc_loop fuel a slot n next m
  unfolding alloc_loop
  alloc_loop-none fuel b next h e f = ground (arith, h, e, f)

  alloc_loop-end :
      (fuel b : ℕ)
      → 0 < fuel
      → begin_ref a m ≤ b
      → alloc_loop fuel a slot n b m ≡ failed no_memory m
  unfolding alloc_loop
  alloc_loop-end zero b f h = absurd (omega arith)
  alloc_loop-end (suc fuel) b f h = ground (arith, h)

  -- the test of a round, without wrap-around
  alloc_at-lem :
      (b next : ℕ)
      → b + info_size + size_of m b ≤ min next slot
      → next < 2 ^ 64
      → ((alloc_at a slot n b next m ≡ some (place a b (b + info_size + size_of m b) next slot n m))
          × (b + info_size + size_of m b + info_size + n ≤ min next slot))
        ⊎ (alloc_at a slot n b next m ≡ none)
  unfolding alloc_at
  alloc_at-lem b next h k =
      let to : add64 (add64 b info_size) (size_of m b) ≡ b + info_size + size_of m b =
        omega arith in
      let dist : sub64 (sub64 (sub64 (min next slot) b) (size_of m b)) info_size
          ≡ min next slot - (b + info_size + size_of m b) =
        omega arith in
      let need : add64 n info_size ≡ n + info_size = omega arith in
      elim (Bool-cases (leb (n + info_size) (min next slot - (b + info_size + size_of m b)))) [
        | inl e ↦ inl (rw (to, dist, need, e), ground (arith, h, e))
        | inr e ↦ inr (rw (to, dist, need, e))
      ]

  -- The loop from b throws, or puts a block somewhere behind b.
  abbrev pub Ends : ℕ → ℕ → List ℕ → Type 0
  Ends fuel b bs =
      (alloc_loop fuel a slot n b m ≡ failed no_memory m)
      ⊎ ((m' : Memory) × (alloc_loop fuel a slot n b m ≡ done (some slot) m')
          × Fresh a slot n m m' b bs)

  later :
      (fuel b next : ℕ) (ds cs : List ℕ)
      → a.base + info_size ≤ b
      → Chain (begin_ref a m) (data_end a m) m b (ds ++ (next ∷ cs))
      → AllFree m ds
      → alloc_loop (suc fuel) a slot n b m ≡ alloc_loop fuel a slot n next m
      → Ends fuel next cs
      → Ends (suc fuel) b (ds ++ (next ∷ cs))
  later fuel b next ds cs above h free e (inl f) = inl (e ∙ f)
  later fuel b next ds cs above h free e (inr (m', f, fresh)) =
      inr (m', e ∙ f, step_back a slot n m w m' b ds next cs above h free fresh)

  one_round :
      (fuel b next : ℕ) (bs : List ℕ)
      → a.base + info_size ≤ b
      → Chain (begin_ref a m) (data_end a m) m b bs
      → suc (length bs) < suc fuel
      → get_next a m b ≡ some next
      → Found (begin_ref a m) m bs next
      → ((cs : List ℕ)
          → a.base + info_size ≤ next
          → Chain (begin_ref a m) (data_end a m) m next cs
          → suc (length cs) < fuel
          → Ends fuel next cs)
      → Ends (suc fuel) b bs
  one_round fuel b next bs above h l run (inl (e, free)) ih =
      let r = begin_ref a m in
      let le = Chain-le r (data_end a m) m b bs h in
      let to = b + info_size + size_of m b in
      elim (alloc_at-lem b next (omega (arith, e, le)) (omega (arith, e))) [
        | inl (found, fits) ↦ inr (
          place a b to next slot n m,
          alloc_loop-some fuel b next (place a b to next slot n m) (omega (arith, le)) run found,
          subst (λ (x : ℕ). Fresh a slot n m (place a b to x slot n m) b bs) (sym e)
              (place_last a slot n m w b bs above h free (omega (arith, e, fits))),
        )
        | inr none_ ↦ inl (
            alloc_loop-none fuel b next (omega (arith, le)) run none_
            ∙ alloc_loop-end fuel next (omega arith) (omega (arith, e)))
      ]
  one_round fuel b next bs above h l run (inr (ds, cs, e, free)) ih =
      let r = begin_ref a m in
      let lim = data_end a m in
      let to = b + info_size + size_of m b in
      let h' = subst (Chain r lim m b) e h in
      let (rest, le) = Chain-rest r lim m b ds next cs h' in
      let le' = Chain-le r lim m next cs rest in
      let long : suc (length cs) < fuel =
        omega (arith, l, ap length e, length-append {0} ds (next ∷ cs)) in
      subst (Ends (suc fuel) b) (sym e)
        (elim (alloc_at-lem b next (omega (arith, le, le')) (omega (arith, le'))) [
          | inl (found, fits) ↦ inr (
            place a b to next slot n m,
            alloc_loop-some fuel b next (place a b to next slot n m) (omega (arith, le, le')) run
                found,
            place_between a slot n m w b ds next cs above h' free fits,
          )
          | inr none_ ↦
              later fuel b next ds cs above h' free
                (alloc_loop-none fuel b next (omega (arith, le, le')) run none_)
                (ih cs (omega (arith, le)) rest long)
        ])

  pub alloc_loop-Fresh :
      (fuel b : ℕ) (bs : List ℕ)
      → a.base + info_size ≤ b
      → Chain (begin_ref a m) (data_end a m) m b bs
      → suc (length bs) < fuel
      → Ends fuel b bs
  unfolding get_next
  alloc_loop-Fresh zero b bs above h l = absurd (omega arith)
  alloc_loop-Fresh (suc fuel) b bs above h l =
      let r = begin_ref a m in
      let lim = data_end a m in
      let le = Chain-le r lim m b bs h in
      let long = Chain-length r lim m b bs h in
      let (next, run, found) = next_loop-Chain a.size r lim m b bs h apart (omega (arith, long)) in
      one_round fuel b next bs above h l run found (alloc_loop-Fresh fuel next)
