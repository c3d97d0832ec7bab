-- ===== src/Echo/Libev.antt =====
-- network/echo/libev/echo.cpp: the callbacks of the server that uses libev.
use technosphere.Common.{ℕ, suc, Bool, Option, none, some, List, [], ◌∷◌, if◌then◌else◌}
use technosphere.Echo.Calls.{
  Fd, Call, call, Io, Event, Setup, recv, send, set_nonblock, at_most_zero, start,
}

-- The loop of libev: the watchers that it was given, those that were allocated for nothing, and the rest.
pub record Loop : Type 0 where
  pub watchers : List Fd
  pub lost : ℕ
  pub io : Io

-- `read_cb` of a watcher, with whether EV_ERROR is set; none where it uses the watcher that it freed.
unfoldable pub read_cb : Bool → Fd → Event → Loop → Option Loop
unfolding recv send
read_cb error fd e s =
    let (size, io) = recv fd (e.received) (s.io) in
    if error
    then some s
    else if at_most_zero size
    then none
    else some (record s { io = send fd size (e.sent) io })

-- `accept_cb`: the watcher is allocated first.
unfoldable pub accept_cb : Bool → Event → Loop → Loop
unfolding set_nonblock
accept_cb error e s =
    let io = call (Call.accepts (e.accepted)) (s.io) in
    if error then record s { lost = suc (s.lost) } else elim (e.accepted) [
      | none ↦ record s { lost = suc (s.lost); io = io }
      | some fd ↦ record s {
        watchers = some fd ∷ (s.watchers);
        io = call (Call.watches (some fd)) (set_nonblock (some fd) (e.getfl) io);
      }
    ]

-- `main` up to `ev_run`; none if it returns 1.
unfoldable pub main : Setup → Option Loop
unfolding start
main k = elim (start k) [
  | none ↦ none
  | some (master, io) ↦
      some (record {
        watchers = some master ∷ [];
        lost = 0;
        io = call (Call.watches (some master)) io;
      })
]
