-- ===== src/Epoll/Events.antt =====
-- epoll-example.c: the loop over the events. An event comes with the answers of the kernel to the calls
-- that it leads to; where they end, `accept` and `read` give EAGAIN.
use mathlib.Core.Option.{none-ne-some, some-injective}
use technosphere.Common.Bytes.{Bytes}
use technosphere.Common.{
  ℕ, ◌≡◌, inl, inr, refl, sym, ◌∙◌, Bool, true, false, ◌||◌, not, Option, none, some, List, [], ◌∷◌,
  ◌++◌, ◌==◌, if◌then◌else◌, take, arith, Bool-cases, Option-cases,
}
use technosphere.Epoll.Start.{
  Notice, accepted_on, closed_on, Server, Fcntl, make_socket_non_blocking, close_fd,
}

-- `accept`, and for a connection the answers to getnameinfo, a host and a port, to fcntl and to epoll_ctl.
pub data Accept : Type 0 where
  accepted : ℕ → Option (Bytes × Bytes) → Fcntl → Bool → Accept
  again failed : Accept

-- `read`, and for data what `write` writes of it, none for -1.
pub data Read : Type 0 where
  chunk : Bytes → Option ℕ → Read
  end_of_file again failed : Read

pub record Event : Type 0 where
  pub fd : ℕ
  pub err : Bool
  pub hup : Bool
  pub readable : Bool
  pub accepts : List Accept
  pub reads : List Read

abbrev pub note : ℕ → Option (Bytes × Bytes) → List Notice → List Notice
note infd none notices = notices
note infd (some (host, port)) notices = accepted_on infd host port ∷ notices

-- A connection.
abbrev pub take_in : ℕ → Option (Bytes × Bytes) → Server → Server
take_in infd name s = record s {
  sockets = infd ∷ s.sockets;
  watched = infd ∷ s.watched;
  notices = note infd name (s.notices);
}

unfoldable pub accept_loop : List Accept → Server → Option Server
unfolding make_socket_non_blocking
accept_loop [] s = some s
accept_loop (Accept.accepted infd name f ctl ∷ answers) s =
    let rest = accept_loop answers (take_in infd name s) in
    elim (make_socket_non_blocking f) [ none ↦ none | some flags ↦ if ctl then rest else none ]
accept_loop (Accept.again ∷ answers) s = some s
accept_loop (Accept.failed ∷ answers) s = some s

-- `done`, and what was written; none for `abort`.
unfoldable pub read_loop : List Read → Bytes → Option (Bool × Bytes)
read_loop [] output = some (false, output)
read_loop (Read.chunk buf none ∷ answers) output = none
read_loop (Read.chunk buf (some n) ∷ answers) output = read_loop answers (output ++ take n buf)
read_loop (Read.end_of_file ∷ answers) output = some (true, output)
read_loop (Read.again ∷ answers) output = some (false, output)
read_loop (Read.failed ∷ answers) output = some (true, output)

-- Closing a descriptor also ends the watch on it.
unfoldable pub close_socket : ℕ → Server → Server
close_socket fd s = record s {
  sockets = close_fd fd (s.sockets);
  watched = close_fd fd (s.watched);
}

-- The data of a client.
unfoldable pub after_read : ℕ → Bool × Bytes → Server → Server
unfolding close_socket
after_read fd (done, output) s =
    if done
    then close_socket fd (record s { output = output; notices = closed_on fd ∷ s.notices })
    else record s { output = output }

-- An error, or no data.
abbrev pub is_broken : Event → Bool
is_broken e = e.err || (e.hup || not (e.readable))

unfoldable pub handle_event : Event → Server → Option Server
unfolding accept_loop read_loop after_read close_socket
handle_event e s =
    if is_broken e
    then some (close_socket (e.fd) s)
    else if s.sfd == e.fd
    then accept_loop (e.accepts) s
    else elim (read_loop (e.reads) (s.output)) [
      | none ↦ none
      | some r ↦ some (after_read (e.fd) r s)
    ]

-- The events of a run, one after the other; none for `abort`.
unfoldable pub handle_events : List Event → Server → Option Server
unfolding handle_event
handle_events [] s = some s
handle_events (e ∷ events) s = elim (handle_event e s) [
  | none ↦ none
  | some s' ↦ handle_events events s'
]

pub accept_loop-accepted :
    (infd : ℕ) (name : Option (Bytes × Bytes)) (f : Fcntl) (ctl : Bool) (answers : List Accept)
    (s s' : Server)
    → accept_loop (Accept.accepted infd name f ctl ∷ answers) s ≡ some s'
    → accept_loop answers (take_in infd name s) ≡ some s'
unfolding accept_loop
accept_loop-accepted infd name f ctl answers s s' e =
    elim (Option-cases (make_socket_non_blocking f)) [
      | inl m ↦ absurd (ground (arith, m, e))
      | inr (flags, m) ↦ elim (Bool-cases ctl) [
        | inl k ↦ ground (arith, m, k, e)
        | inr k ↦ absurd (ground (arith, m, k, e))
      ]
    ]

pub handle_event-broken :
    (e : Event) (s : Server) → is_broken e ≡ true → handle_event e s ≡ some (close_socket (e.fd) s)
unfolding handle_event
handle_event-broken e s b = rw b refl

pub handle_event-accepts :
    (e : Event) (s : Server)
    → is_broken e ≡ false
    → s.sfd == e.fd ≡ true
    → handle_event e s ≡ accept_loop (e.accepts) s
unfolding handle_event
handle_event-accepts e s b l = rw (b, l) refl

-- Data that is read without an abort.
pub handle_event-reads :
    (e : Event) (s s' : Server)
    → is_broken e ≡ false
    → s.sfd == e.fd ≡ false
    → handle_event e s ≡ some s'
    → (r : Bool × Bytes) × (read_loop (e.reads) (s.output) ≡ some r) × (after_read (e.fd) r s ≡ s')
unfolding handle_event
handle_event-reads e s s' b l k = elim (Option-cases (read_loop (e.reads) (s.output))) [
  | inl m ↦ absurd (none-ne-some _ (rw (b, l, m) at k))
  | inr (r, m) ↦ (r, m, some-injective _ _ (rw (b, l, m) at k))
]

handle_events-some :
    (e : Event) (events : List Event) (s next : Server)
    → handle_event e s ≡ some next
    → handle_events (e ∷ events) s ≡ handle_events events next
unfolding handle_events
handle_events-some e events s next m = ground (arith, m)

handle_events-none :
    (e : Event) (events : List Event) (s : Server)
    → handle_event e s ≡ none
    → handle_events (e ∷ events) s ≡ none
unfolding handle_events
handle_events-none e events s m = ground (arith, m)

-- A step of a run without an abort.
pub handle_events-cons :
    (e : Event) (events : List Event) (s s' : Server)
    → handle_events (e ∷ events) s ≡ some s'
    → (next : Server) × (handle_event e s ≡ some next) × (handle_events events next ≡ some s')
handle_events-cons e events s s' k = elim (Option-cases (handle_event e s)) [
  | inl m ↦ absurd (none-ne-some _ (sym (handle_events-none e events s m) ∙ k))
  | inr (next, m) ↦ (next, m, sym (handle_events-some e events s next m) ∙ k)
]
