-- ===== src/Echo/Poll/Stale.antt =====
-- The poll server with an errno from before.
use technosphere.Common.{
  ℕ, zero, suc, ◌≡◌, refl, ap, ◌∙◌, true, false, some, List, [], ◌∷◌, ◌<◌, ltb, arith, length,
  replicate,
}
use technosphere.Echo.Calls.{Fd, fd_eq, Call, call, Io, Event, Recv, recv}
use technosphere.Echo.Poll.{Server, serve, handle, handle_all, round, rounds}
use technosphere.Echo.Poll.Set.{round-lem}

recv-end :
    (fd : Fd) (r : Recv) (io : Io)
    → r ≡ Recv.at_end
    → recv fd r io ≡ (some 0, call (Call.gets fd []) io)
unfolding recv
recv-end fd r io e = ap (λ (x : Recv). recv fd x io) e

-- A client at its end, while errno is EAGAIN from an earlier call: nothing is closed.
serve-stale :
    (fd : Fd) (e : Event) (s : Server)
    → e.received ≡ Recv.at_end
    → s.io.again ≡ true
    → serve fd e s ≡ record s { io = call (Call.gets fd []) (s.io) }
unfolding serve
serve-stale fd e s at_end again =
    let got = recv-end fd (e.received) (s.io) at_end in rw (got, again) refl

handle-quiet : (fd : Fd) (e : Event) (s : Server) → e.readable ≡ false → handle fd e s ≡ s
unfolding handle
handle-quiet fd e s h = rw h refl

handle-client :
    (fd : Fd) (e : Event) (s : Server)
    → e.readable ≡ true
    → fd_eq fd (some (s.master)) ≡ false
    → handle fd e s ≡ serve fd e s
unfolding handle
handle-client fd e s h k = rw (h, k) refl

round-defined :
    (es : List Event) (s : Server)
    → length (s.slaves) < 32
    → round es s ≡ some (handle_all (some (s.master) ∷ (s.slaves)) es s)
round-defined es s h =
    let few : ltb (length (s.slaves)) 32 ≡ true = ground (arith, h) in round-lem es s ∙ rw few refl

module _ (fd : Fd) (idle ended : Event) (quiet : idle.readable ≡ false)
    (ready : ended.readable ≡ true) (at_end : ended.received ≡ Recv.at_end) where
  -- only the client fd is there, and errno is EAGAIN
  pub record Stale (s : Server) : Type 0 where
    pub one : s.slaves ≡ fd ∷ []
    pub client : fd_eq fd (some (s.master)) ≡ false
    pub again : s.io.again ≡ true

  both :
      (s : Server)
      → Stale s
      → handle_all (some (s.master) ∷ (fd ∷ [])) (idle ∷ (ended ∷ [])) s
        ≡ record s { io = call (Call.gets fd []) (s.io) }
  unfolding handle_all
  both s w =
      ap (handle fd ended) (handle-quiet (some (s.master)) idle s quiet)
      ∙ handle-client fd ended s ready (w.client)
      ∙ serve-stale fd ended s at_end (w.again)

  Stale-round :
      (s : Server) → Stale s → (s' : Server) × (round (idle ∷ (ended ∷ [])) s ≡ some s') × Stale s'
  Stale-round s w = (
    record s { io = call (Call.gets fd []) (s.io) },
    round-defined (idle ∷ (ended ∷ [])) s (omega (arith, ap length (w.one)))
        ∙ ap (λ (xs : List Fd). some (handle_all (some (s.master) ∷ xs) (idle ∷ (ended ∷ [])) s))
            (w.one)
        ∙ ap some (both s w),
    record { one = w.one; client = w.client; again = w.again },
  )

  -- While errno is EAGAIN from an earlier call, the only client is at its end, and `poll` reports it
  -- again and again, the server keeps the client in its set, however many rounds it makes.
  pub rounds-Stale :
      (n : ℕ) (s : Server)
      → Stale s
      → (s' : Server) × (rounds (replicate n (idle ∷ (ended ∷ []))) s ≡ some s') × Stale s'
  unfolding rounds
  rounds-Stale zero s w = (s, refl, w)
  rounds-Stale (suc n) s w =
      let (s₁, run, w₁) = Stale-round s w in
      let (s₂, runs, w₂) = rounds-Stale n s₁ w₁ in
      let rest = replicate n (idle ∷ (ended ∷ [])) in
      let goes : rounds ((idle ∷ (ended ∷ [])) ∷ rest) s ≡ rounds rest s₁ = ground (arith, run) in
      (s₂, goes ∙ runs, w₂)
