-- ===== src/Echo/Libevent.antt =====
-- network/echo/libevent/echo.cpp: the callbacks of the server that uses libevent.
use technosphere.Common.{Option, none, some, if◌then◌else◌}
use technosphere.Echo.Calls.{
  Fd, Call, call, Io, Event, Setup, recv, send, set_nonblock, at_most_zero, start,
}

-- `on_read`: the descriptor is an argument, and is used also when it was closed.
unfoldable pub on_read : Fd → Event → Io → Io
unfolding recv send
on_read fd e io =
    let (size, io₁) = recv fd (e.received) io in
    if at_most_zero size
    then send fd size (e.sent) (call (Call.unwatches fd) (call (Call.closes fd) io₁))
    else send fd size (e.sent) io₁

-- `on_accept`: the result -1 is not told from a descriptor.
unfoldable pub on_accept : Event → Io → Io
unfolding set_nonblock
on_accept e io =
    call (Call.watches (e.accepted))
      (set_nonblock (e.accepted) (e.getfl) (call (Call.accepts (e.accepted)) io))

-- `main` up to `event_dispatch`; none if it returns 1.
unfoldable pub main : Setup → Option Io
unfolding start
main k = elim (start k) [
  | none ↦ none
  | some (master, io) ↦ some (call (Call.watches (some master)) io)
]
