-- ===== src/Echo/Poll/Contract.antt =====
-- The poll server keeps the contract, and knows its clients.
use mathlib.Core.Option.{none-ne-some, some-injective}
use mathlib.Core.Path.{subst}
use technosphere.Common.{
  ℕ, ◌≡◌, inl, inr, refl, ap, sym, ◌∙◌, true, ◌&&◌, not, Option, none, some, List, [], ◌∷◌,
  Bool-cases, Option-cases, arith, length, ltb,
}
use technosphere.Echo.Calls.{
  Fd, fd_eq, Call, Event, Setup, recv, set_nonblock, is_zero, at_most_zero, start, fresh,
}
use technosphere.Echo.Contract.{
  IsEcho, TookAll, sent_to, received_from, sent_to-offered_to, Silent-IsEcho, recv-send,
  recv_zero-IsEcho, shut_and_close-IsEcho, set_nonblock-IsEcho, nil-IsEcho,
}
use technosphere.Echo.Poll.{
  Server, Run, exits, running, serve, accept, handle, handle_all, round, rounds, run_from, main,
}
use technosphere.Echo.Poll.Set.{round-lem}

abbrev Echoes : Server → Type 0
Echoes s = IsEcho (s.io.calls)

zero_at_most : (size : Option ℕ) → is_zero size ≡ true → at_most_zero size ≡ true
zero_at_most none h = refl
zero_at_most (some n) h = h

serve-Echoes : (fd : Fd) (e : Event) (s : Server) → Echoes s → Echoes (serve fd e s)
unfolding serve
serve-Echoes fd e s h = elim (Bool-cases (is_zero ((recv fd (e.received) (s.io)).0))) [
  | inl z ↦
      let kept =
        recv_zero-IsEcho fd (e.received) (s.io) (zero_at_most ((recv fd (e.received) (s.io)).0) z)
          h in
      elim (Bool-cases (not (((recv fd (e.received) (s.io)).1).again))) [
        | inl f ↦ rw (z, f) (shut_and_close-IsEcho fd (e.end_errno) _ kept)
        | inr f ↦ rw (z, f) kept
      ]
  | inr z ↦ rw z (recv-send fd (e.received) (e.sent) (s.io) h)
]

accept-Echoes : (e : Event) (s : Server) → Echoes s → Echoes (accept e s)
unfolding accept
accept-Echoes e s h =
    set_nonblock-IsEcho (e.accepted) (e.getfl) _
      (Silent-IsEcho (Call.accepts (e.accepted)) (s.io.calls) tt h)

handle-Echoes : (fd : Fd) (e : Event) (s : Server) → Echoes s → Echoes (handle fd e s)
unfolding handle
handle-Echoes fd e s h = elim (Bool-cases (e.readable)) [
  | inl r ↦ elim (Bool-cases (fd_eq fd (some (s.master)))) [
    | inl f ↦ rw (r, f) (accept-Echoes e s h)
    | inr f ↦ rw (r, f) (serve-Echoes fd e s h)
  ]
  | inr r ↦ rw r h
]

-- What every step of a server keeps holds after every run.
module _ (P : Server → Type 0)
    (step : (fd : Fd) (e : Event) (s : Server) → P s → P (handle fd e s)) where
  handle_all-keeps : (fds : List Fd) (es : List Event) (s : Server) → P s → P (handle_all fds es s)
  unfolding handle_all
  handle_all-keeps [] es s h = h
  handle_all-keeps (fd ∷ fds) [] s h = h
  handle_all-keeps (fd ∷ fds) (e ∷ es) s h = handle_all-keeps fds es (handle fd e s) (step fd e s h)

  pub round-keeps : (es : List Event) (s s' : Server) → round es s ≡ some s' → P s → P s'
  round-keeps es s s' e h =
      let run = sym (round-lem es s) ∙ e in
      elim (Bool-cases (ltb (length (s.slaves)) 32)) [
        | inl f ↦
            subst P (some-injective _ _ (rw f at run))
              (handle_all-keeps (some (s.master) ∷ (s.slaves)) es s h)
        | inr f ↦ absurd (none-ne-some s' (rw f at run))
      ]

-- After rounds that each keep P.
pub rounds-keeps :
    (P : Server → Type 0)
    → ((es : List Event) (s s' : Server) → round es s ≡ some s' → P s → P s')
    → (ess : List (List Event)) (s s' : Server) → rounds ess s ≡ some s'
    → P s
    → P s'
unfolding rounds
rounds-keeps P keep [] s s' e h = subst P (some-injective s s' e) h
rounds-keeps P keep (es ∷ ess) s s' e h = elim (Option-cases (round es s)) [
  | inl f ↦
      let stops : rounds (es ∷ ess) s ≡ none = ground (arith, f) in
      absurd (none-ne-some s' (sym stops ∙ e))
  | inr (s₁, f) ↦
      let goes : rounds (es ∷ ess) s ≡ rounds ess s₁ = ground (arith, f) in
      rounds-keeps P keep ess s₁ s' (sym goes ∙ e) (keep es s s₁ f h)
]

abbrev pub server_of : Run → Option Server
server_of Run.exits = none
server_of Run.undefined = none
server_of (Run.running s) = some s

server_of-run_from : (o : Option Server) → server_of (run_from o) ≡ o
unfolding run_from
server_of-run_from none = refl
server_of-run_from (some s) = refl

-- The server before its loop.
abbrev pub initial : ℕ → Option ℕ → Server
initial master getfl = record {
  master = master;
  slaves = [];
  io = set_nonblock (some master) getfl fresh;
}

pub main-keeps :
    (P : Server → Type 0)
    → ((master : ℕ) (getfl : Option ℕ) → P (initial master getfl))
    → ((es : List Event) (s s' : Server) → round es s ≡ some s' → P s → P s')
    → (k : Setup) (ess : List (List Event)) (s : Server) → main k ess ≡ running s
    → P s
unfolding main start
main-keeps P first keep k ess s e = elim (Option-cases (k.socket)) [
  | inl f ↦
      let stops : main k ess ≡ exits = rw f refl in
      absurd (none-ne-some s (ap server_of (sym stops ∙ e)))
  | inr (master, f) ↦ elim (Bool-cases (k.binds && k.listens)) [
    | inl g ↦
        let before = initial master (k.getfl) in
        let runs : main k ess ≡ run_from (rounds ess before) = ground (arith, f, g) in
        rounds-keeps P keep ess before s
          (sym (server_of-run_from (rounds ess before)) ∙ ap server_of (sym runs ∙ e))
          (first master (k.getfl))
    | inr g ↦
        let stops : main k ess ≡ exits = ground (arith, f, g) in
        absurd (none-ne-some s (ap server_of (sym stops ∙ e)))
  ]
]

-- In every run of `main` that stays defined, `send` has been given for each client the bytes that were
-- received from it, in order, and no others; and a client for which each `send` took all that it was
-- given, with no error and no short count, has been sent exactly them. The calls of `send` with the size
-- -1 are left aside.
pub main-IsEcho :
    (k : Setup) (ess : List (List Event)) (s : Server)
    → main k ess ≡ running s
    → (client : Fd) → TookAll client (s.io.calls)
    → IsEcho (s.io.calls) × (sent_to client (s.io.calls) ≡ received_from client (s.io.calls))
main-IsEcho k ess s run client took_all =
    let echo =
      main-keeps Echoes (λ master getfl. set_nonblock-IsEcho (some master) getfl fresh nil-IsEcho)
        (round-keeps Echoes handle-Echoes) k ess s run in
    (echo, sent_to-offered_to client (s.io.calls) took_all ∙ echo client)
