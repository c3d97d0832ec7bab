-- ===== src/Echo/Kqueue.antt =====
-- network/echo/kqueue/echo.cpp: the server that waits with `kevent`.
use technosphere.Common.{
  ℕ, ◌≡◌, ◌⊎◌, inl, inr, refl, sym, ◌∙◌, Bool, true, false, not, Option, none, some, List, [], ◌∷◌,
  if◌then◌else◌, Bool-cases, arith,
}
use technosphere.Echo.Calls.{
  Fd, fd_eq, Call, call, Io, Event, Setup, recv, send, set_nonblock, at_most_zero, start,
}
use technosphere.Echo.Contract.{
  IsEcho, Silent-IsEcho, recv-send, recv_zero-IsEcho, set_nonblock-IsEcho,
}
use technosphere.Echo.Descriptors.{fd_eq_refl}
use technosphere.Echo.Live.{
  live, live-usable, IsSafe, Safe, recv-live, send-live, recv-Safe, send-Safe, set_nonblock-IsSafe,
}

-- `KEvent`: whether its filter is EVFILT_READ, its `ident`, and the answers.
pub record KEvent : Type 0 where
  pub reads : Bool
  pub ident : Fd
  pub event : Event

-- A client that can be read, and a new one.
unfoldable pub serve : Fd → Event → Io → Io
unfolding recv send
serve fd e io =
    let (size, io₁) = recv fd (e.received) io in
    if at_most_zero size then call (Call.closes fd) io₁ else send fd size (e.sent) io₁

unfoldable pub accept : Event → Io → Io
unfolding set_nonblock
accept e io =
    call (Call.watches (e.accepted))
      (set_nonblock (e.accepted) (e.getfl) (call (Call.accepts (e.accepted)) io))

-- One round of the loop.
unfoldable pub handle : ℕ → KEvent → Io → Io
unfolding serve accept
handle master k io =
    if k.reads
    then (if fd_eq (k.ident) (some master)
        then accept (k.event) io
        else serve (k.ident) (k.event) io)
    else io

unfoldable pub handle_all : ℕ → List KEvent → Io → Io
unfolding handle
handle_all master [] io = io
handle_all master (k ∷ ks) io = handle_all master ks (handle master k io)

-- `main`, after some events; none if it returns 1.
unfoldable pub main : Setup → List KEvent → Option Io
unfolding start handle_all
main k ks = elim (start k) [
  | none ↦ none
  | some (master, io) ↦ some (handle_all master ks (call (Call.watches (some master)) io))
]

serve-IsEcho : (fd : Fd) (e : Event) (io : Io) → IsEcho (io.calls) → IsEcho ((serve fd e io).calls)
unfolding serve
serve-IsEcho fd e io h = elim (Bool-cases (at_most_zero ((recv fd (e.received) io).0))) [
  | inl z ↦ rw z (Silent-IsEcho (Call.closes fd) _ tt (recv_zero-IsEcho fd (e.received) io z h))
  | inr z ↦ rw z (recv-send fd (e.received) (e.sent) io h)
]

handle-IsEcho :
    (master : ℕ) (k : KEvent) (io : Io) → IsEcho (io.calls) → IsEcho ((handle master k io).calls)
unfolding handle accept
handle-IsEcho master k io h = elim (Bool-cases (k.reads)) [
  | inr r ↦ rw r h
  | inl r ↦ elim (Bool-cases (fd_eq (k.ident) (some master))) [
    | inl f ↦
        let e = k.event in
        rw (r, f)
          (Silent-IsEcho (Call.watches (e.accepted)) _ tt (
            set_nonblock-IsEcho (e.accepted) (e.getfl) _
              (Silent-IsEcho (Call.accepts (e.accepted)) (io.calls) tt h)))
    | inr f ↦ rw (r, f) (serve-IsEcho (k.ident) (k.event) io h)
  ]
]

-- What `kevent` may report: the listening socket, and descriptors that are open.
abbrev pub Reports : ℕ → List KEvent → Io → Type 0
Reports master [] io = Unit
Reports master (k ∷ ks) io =
    ((k.reads ≡ false)
      ⊎ ((fd_eq (k.ident) (some master) ≡ true) ⊎ (live (k.ident) (io.calls) ≡ true)))
    × Reports master ks (handle master k io)

-- A client that is served: it is closed exactly if nothing came from it.
serve-IsSafe : (fd : Fd) (e : Event) (io : Io) → Safe fd (io.calls) → IsSafe ((serve fd e io).calls)
unfolding serve
serve-IsSafe fd e io h = elim (Bool-cases (at_most_zero ((recv fd (e.received) io).0))) [
  | inl z ↦ rw z (recv-Safe fd (e.received) io h)
  | inr z ↦ rw z (
      (send-Safe fd ((recv fd (e.received) io).0) (e.sent) ((recv fd (e.received) io).1)
        (recv-Safe fd (e.received) io h)).1)
]

handle-IsSafe :
    (master : ℕ) (k : KEvent) (io : Io)
    → (k.reads ≡ false)
      ⊎ ((fd_eq (k.ident) (some master) ≡ true) ⊎ (live (k.ident) (io.calls) ≡ true))
    → IsSafe (io.calls)
    → IsSafe ((handle master k io).calls)
unfolding handle accept
handle-IsSafe master k io ok h = elim (Bool-cases (k.reads)) [
  | inr r ↦ rw r h
  | inl r ↦ elim (Bool-cases (fd_eq (k.ident) (some master))) [
    | inl f ↦ rw (r, f) (set_nonblock-IsSafe (k.event.accepted) (k.event.getfl) _ h)
    | inr f ↦
        let open_ : live (k.ident) (io.calls) ≡ true = elim ok [
          | inl e ↦ absurd (ground (arith, sym e ∙ r))
          | inr (inl e) ↦ absurd (ground (arith, sym e ∙ f))
          | inr (inr e) ↦ e
        ] in
        rw (r, f) (serve-IsSafe (k.ident) (k.event) io (live-usable (k.ident) (io.calls) open_, h))
  ]
]

-- From a log in which `send` was given for each client what came from it, and no descriptor but -1 was
-- received from, sent to or closed while it was not open, the events leave such a log, if `kevent` reports
-- only the listening socket and open descriptors. The calls of `send` with the size -1, and what `fcntl`
-- and `kevent` are called with, are left aside.
pub handle_all-IsSafe :
    (master : ℕ) (ks : List KEvent) (io : Io)
    → Reports master ks io
    → IsEcho (io.calls)
    → IsSafe (io.calls)
    → IsEcho ((handle_all master ks io).calls) × IsSafe ((handle_all master ks io).calls)
unfolding handle_all
handle_all-IsSafe master [] io r e s = (e, s)
handle_all-IsSafe master (k ∷ ks) io r e s =
    handle_all-IsSafe master ks (handle master k io) r.1 (handle-IsEcho master k io e)
      (handle-IsSafe master k io r.0 s)

-- The client is open after the event exactly if bytes came from it.
pub serve-live :
    (fd : Fd) (e : Event) (io : Io)
    → live fd (io.calls) ≡ true
    → live fd ((serve fd e io).calls) ≡ not (at_most_zero ((recv fd (e.received) io).0))
unfolding serve live
serve-live fd e io h = elim (Bool-cases (at_most_zero ((recv fd (e.received) io).0))) [
  | inl z ↦ let same = fd_eq_refl fd in rw (z, same) refl
  | inr z ↦ rw z (
      send-live fd fd ((recv fd (e.received) io).0) (e.sent) _
      ∙ recv-live fd fd (e.received) io
      ∙ h)
]
