-- ===== src/Echo/Poll/Bounds.antt =====
-- The array of the poll server.
use mathlib.Core.Option.{none-ne-some, some-injective}
use mathlib.Core.Path.{subst}
use technosphere.Common.{
  ◌≡◌, ◌↔◌, ◌≤◌, inl, inr, refl, ap, sym, ◌∙◌, none, some, List, [], ◌∷◌, ◌++◌, length, ltb,
  Bool-cases, Option-cases, arith,
}
use technosphere.Echo.Calls.{Event}
use technosphere.Echo.Poll.{Server, handle_all, round, rounds}
use technosphere.Echo.Poll.Set.{round-lem}

round_bounds : (es : List Event) (s : Server) → (round es s ≡ none) ↔ (32 ≤ length (s.slaves))
round_bounds es s = elim (Bool-cases (ltb (length (s.slaves)) 32)) [
  | inl f ↦
      let runs : round es s ≡ some (handle_all (some (s.master) ∷ (s.slaves)) es s) =
        round-lem es s ∙ rw f refl in
      (λ e. absurd (none-ne-some _ (sym e ∙ runs)), λ h. absurd (ground (arith, f, h)))
  | inr f ↦ (λ e. ground (arith, f), λ h. round-lem es s ∙ rw f refl)
]

rounds-stop :
    (es : List Event) (ess : List (List Event)) (s : Server)
    → round es s ≡ none
    → rounds (es ∷ ess) s ≡ none
unfolding rounds
rounds-stop es ess s h = ground (arith, h)

rounds-go :
    (es : List Event) (ess : List (List Event)) (s s' : Server)
    → round es s ≡ some s'
    → rounds (es ∷ ess) s ≡ rounds ess s'
unfolding rounds
rounds-go es ess s s' h = ground (arith, h)

-- After some of the rounds there are 32 clients or more, and another round follows.
abbrev pub Crowded : List (List Event) → Server → Type 0
Crowded ess s =
    (before : List (List Event)) × (es : List Event) × (after : List (List Event)) × (s' : Server)
    × (ess ≡ before ++ (es ∷ after))
    × (rounds before s ≡ some s')
    × (32 ≤ length (s'.slaves))

overflow_later :
    (before : List (List Event)) (es : List Event) (after : List (List Event)) (s s' : Server)
    → rounds before s ≡ some s'
    → round es s' ≡ none
    → rounds (before ++ (es ∷ after)) s ≡ none
unfolding rounds
overflow_later [] es after s s' run h =
    rounds-stop es after s (ap (round es) (some-injective s s' run) ∙ h)
overflow_later (b ∷ before) es after s s' run h = elim (Option-cases (round b s)) [
  | inl f ↦ absurd (none-ne-some s' (sym (rounds-stop b before s f) ∙ run))
  | inr (s₁, f) ↦
      rounds-go b (before ++ (es ∷ after)) s s₁ f
      ∙ overflow_later before es after s₁ s' (sym (rounds-go b before s s₁ f) ∙ run) h
]

overflow_at : (ess : List (List Event)) (s : Server) → rounds ess s ≡ none → Crowded ess s
unfolding rounds
overflow_at [] s h = absurd (none-ne-some s (sym h))
overflow_at (es ∷ ess) s h = elim (Option-cases (round es s)) [
  | inl f ↦ ([], es, ess, s, refl, refl, (round_bounds es s).0 f)
  | inr (s₁, f) ↦
      let (before, es', after, s', e, run, many) =
        overflow_at ess s₁ (sym (rounds-go es ess s s₁ f) ∙ h) in
      (
        es ∷ before,
        es',
        after,
        s',
        ap (λ (l : List (List Event)). es ∷ l) e,
        rounds-go es before s s₁ f ∙ run,
        many,
      )
]

-- The server writes beyond its array exactly if a round begins with 32 clients or more, whatever `poll`
-- reports.
pub rounds_bounds : (ess : List (List Event)) (s : Server) → (rounds ess s ≡ none) ↔ Crowded ess s
rounds_bounds ess s = (
  overflow_at ess s,
  λ w.
      let (before, es, after, s', e, run, many) = w in
      subst (λ (l : List (List Event)). rounds l s ≡ none) (sym e)
        (overflow_later before es after s s' run ((round_bounds es s').1 many)),
)
