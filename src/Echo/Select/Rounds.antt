-- ===== src/Echo/Select/Rounds.antt =====
-- The rounds of the select server that are defined.
use mathlib.Core.Option.{none-ne-some, some-injective}
use mathlib.Core.Path.{subst}
use technosphere.Common.{
  ℕ, ◌≡◌, inl, inr, refl, ap, sym, ◌∙◌, Bool, true, false, not, Option, none, some, List, [], ◌∷◌,
  if◌then◌else◌, Bool-cases, Option-cases, arith,
}
use technosphere.Echo.Calls.{Fd, fd_eq, Call, Event, recv, send, is_zero, at_most_zero}
use technosphere.Echo.Contract.{
  IsEcho, Silent-IsEcho, recv-send, recv_zero-IsEcho, set_nonblock-IsEcho,
}
use technosphere.Echo.Descriptors.{member, member-insert}
use technosphere.Echo.Select.{
  Server, Run, exits, undefined, running, serve, serve_all, accept, accept_ready, Report,
  serve_round, round, all_settable, max_element,
}

-- From s to s' no client was lost.
abbrev pub Grows : Server → Server → Type 0
Grows s s' = (x : Fd) → member x (s.slaves) ≡ true → member x (s'.slaves) ≡ true

-- What a step from s leaves.
abbrev pub Fine : Server → Server → Type 0
Fine s s' = IsEcho (s'.io.calls) × Grows s s'

zero_at_most : (size : Option ℕ) → is_zero size ≡ true → at_most_zero size ≡ true
zero_at_most none h = refl
zero_at_most (some n) h = h

serve-Fine :
    (fd : Fd) (e : Event) (s s' : Server) → IsEcho (s.io.calls) → serve fd e s ≡ some s' → Fine s s'
unfolding serve
serve-Fine fd e s s' h run =
    let size = (recv fd (e.received) (s.io)).0 in
    let io = (recv fd (e.received) (s.io)).1 in
    elim (Bool-cases (is_zero ((recv fd (e.received) (s.io)).0))) [
      | inl z ↦ elim (Bool-cases (not (((recv fd (e.received) (s.io)).1).again))) [
        | inl f ↦
            let stops : serve fd e s ≡ none = rw (z, f) refl in
            absurd (none-ne-some s' (sym stops ∙ run))
        | inr f ↦
            let goes : serve fd e s ≡ some (record s { io = io }) = rw (z, f) refl in
            subst (Fine s) (some-injective _ s' (sym goes ∙ run))
              (recv_zero-IsEcho fd (e.received) (s.io) (zero_at_most size z) h, λ x k. k)
      ]
      | inr z ↦
          let goes : serve fd e s ≡ some (record s { io = send fd size (e.sent) io }) = rw z refl in
          subst (Fine s) (some-injective _ s' (sym goes ∙ run))
            (recv-send fd (e.received) (e.sent) (s.io) h, λ x k. k)
    ]

serve_all-Fine :
    (fds : List Fd) (es : List Event) (s s' : Server)
    → IsEcho (s.io.calls)
    → serve_all fds es s ≡ some s'
    → Fine s s'
unfolding serve_all
serve_all-Fine [] es s s' h run = subst (Fine s) (some-injective s s' run) (h, λ x k. k)
serve_all-Fine (fd ∷ fds) [] s s' h run = subst (Fine s) (some-injective s s' run) (h, λ x k. k)
serve_all-Fine (fd ∷ fds) (e ∷ es) s s' h run = elim (Bool-cases (e.readable)) [
  | inr r ↦
      let skips : serve_all (fd ∷ fds) (e ∷ es) s ≡ serve_all fds es s = ground (arith, r) in
      serve_all-Fine fds es s s' h (sym skips ∙ run)
  | inl r ↦ elim (Option-cases (serve fd e s)) [
    | inl f ↦
        let stops : serve_all (fd ∷ fds) (e ∷ es) s ≡ none = ground (arith, r, f) in
        absurd (none-ne-some s' (sym stops ∙ run))
    | inr (s₁, f) ↦
        let goes : serve_all (fd ∷ fds) (e ∷ es) s ≡ serve_all fds es s₁ = ground (arith, r, f) in
        let (echo, grows) = serve-Fine fd e s s₁ h f in
        let (echo', grows') = serve_all-Fine fds es s₁ s' echo (sym goes ∙ run) in
        (echo', λ x k. grows' x (grows x k))
  ]
]

accept-Fine : (e : Event) (s : Server) → IsEcho (s.io.calls) → Fine s (accept_ready e s)
unfolding accept
accept-Fine e s h = elim (Bool-cases (e.readable)) [
  | inr r ↦ rw r (h, λ x k. k)
  | inl r ↦ rw r (
    set_nonblock-IsEcho (e.accepted) (e.getfl) _
        (Silent-IsEcho (Call.accepts (e.accepted)) (s.io.calls) tt h),
    λ x k. member-insert x (e.accepted) (s.slaves) ∙ stays (fd_eq x (e.accepted)) k,
  )
]
  where
    stays : (a : Bool) {b : Bool} → b ≡ true → (if a then true else b) ≡ true
    stays true h = refl
    stays false h = h

abbrev server_of : Run → Option Server
server_of Run.exits = none
server_of Run.undefined = none
server_of (Run.running s) = some s

serve_round-Fine :
    (r : Report) (s s' : Server) → IsEcho (s.io.calls) → serve_round r s ≡ running s' → Fine s s'
unfolding serve_round
serve_round-Fine r s s' h run = elim (Bool-cases (r.selects)) [
  | inr f ↦
      let stops : serve_round r s ≡ exits = rw f refl in
      absurd (none-ne-some s' (ap server_of (sym stops ∙ run)))
  | inl f ↦ elim (Option-cases (serve_all (s.slaves) (r.clients) s)) [
    | inl g ↦
        let stops : serve_round r s ≡ undefined = ground (arith, f, g) in
        absurd (none-ne-some s' (ap server_of (sym stops ∙ run)))
    | inr (s₁, g) ↦
        let goes : serve_round r s ≡ running (accept_ready (r.listener) s₁) =
          ground (arith, f, g) in
        let (echo, grows) = serve_all-Fine (s.slaves) (r.clients) s s₁ h g in
        let (echo', grows') = accept-Fine (r.listener) s₁ echo in
        subst (Fine s) (some-injective _ s' (ap server_of (sym goes ∙ run)))
          (echo', λ x k. grows' x (grows x k))
  ]
]

-- From a log in which `send` was given for each client what came from it, leaving aside those with
-- the size -1, a round that is defined and does not end the program leaves such a log, and loses no
-- client: each member of the set is still one.
pub round-Fine :
    (r : Report) (s s' : Server) → IsEcho (s.io.calls) → round r s ≡ running s' → Fine s s'
unfolding round
round-Fine r s s' h run = elim (Bool-cases (all_settable (some (s.master) ∷ (s.slaves)))) [
  | inr f ↦
      let stops : round r s ≡ undefined = ground (arith, f) in
      absurd (none-ne-some s' (ap server_of (sym stops ∙ run)))
  | inl f ↦ elim (Option-cases (max_element (s.slaves))) [
    | inl g ↦
        let stops : round r s ≡ undefined = ground (arith, f, g) in
        absurd (none-ne-some s' (ap server_of (sym stops ∙ run)))
    | inr (m, g) ↦
        let goes : round r s ≡ serve_round r s = ground (arith, f, g) in
        serve_round-Fine r s s' h (sym goes ∙ run)
  ]
]
