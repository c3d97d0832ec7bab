-- ===== src/Echo/Poll/Set.antt =====
-- The array of the poll server, as the loop over its clients fills it.
use technosphere.Common.{
  ℕ, ◌+◌, ◌≡◌, ◌≤◌, ◌<◌, inl, inr, none, true, some, List, [], ◌∷◌, length, ltb, if◌then◌else◌,
  Bool-cases, arith, refl, ap,
}
use mathlib.Core.Option
use technosphere.Echo.Calls.{Fd, Event}
use technosphere.Echo.Poll.{Server, fill_from, fill_set, handle_all, round}

fill_from-fits :
    (index : ℕ) (fds : List Fd) → index + length fds ≤ 32 → fill_from index fds ≡ some fds
unfolding fill_from
fill_from-fits index [] h = refl
fill_from-fits index (fd ∷ fds) h =
    let rest = fill_from-fits (index + 1) fds (omega (arith, h)) in
    let inside : ltb index 32 ≡ true = ground (arith, h) in
    rw inside (ap (Option.map (λ (l : List Fd). fd ∷ l)) rest)

fill_from-over :
    (index : ℕ) (fds : List Fd) → index ≤ 32 → 32 < index + length fds → fill_from index fds ≡ none
unfolding fill_from
fill_from-over index [] le h = absurd (omega (arith, le, h))
fill_from-over index (fd ∷ fds) le h = elim (Bool-cases (ltb index 32)) [
  | inl f ↦
      let rest = fill_from-over (index + 1) fds (ground (arith, f)) (omega (arith, h)) in
      rw f (ap (Option.map (λ (l : List Fd). fd ∷ l)) rest)
  | inr f ↦ rw f refl
]

-- One round with its array written out.
pub round-lem :
    (es : List Event) (s : Server)
    → round es s ≡ (
        if ltb (length (s.slaves)) 32
        then some (handle_all (some (s.master) ∷ (s.slaves)) es s)
        else none)
unfolding round fill_set
round-lem es s = elim (Bool-cases (ltb (length (s.slaves)) 32)) [
  | inl f ↦
      let set : fill_set s ≡ some (some (s.master) ∷ (s.slaves)) =
        fill_from-fits 0 (some (s.master) ∷ (s.slaves)) (ground (arith, f)) in
      ground (arith, set, f)
  | inr f ↦
      let set : fill_set s ≡ none =
        fill_from-over 0 (some (s.master) ∷ (s.slaves)) (omega arith) (ground (arith, f)) in
      ground (arith, set, f)
]
