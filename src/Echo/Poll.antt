-- ===== src/Echo/Poll.antt =====
-- network/echo/poll/echo.cpp: the server that waits with `poll`.
pub mod Set
pub mod Contract
pub mod Clients
pub mod Stale
pub mod Bounds
use mathlib.Core.Option
use technosphere.Common.{
  ℕ, Bool, true, false, ◌&&◌, not, Option, none, some, List, [], ◌∷◌, ◌+◌, ltb, if◌then◌else◌,
}
use technosphere.Echo.Calls.{
  Fd, fd_eq, Call, call, Io, Event, Setup, recv, send, shut_and_close, set_nonblock, is_zero, start,
}
use technosphere.Echo.Descriptors.{insert, erase}

-- `POLL_SIZE`
abbrev pub poll_size : ℕ
poll_size = 32

-- `MasterSocket`, `SlaveSockets`, and the rest.
pub record Server : Type 0 where
  pub master : ℕ
  pub slaves : List Fd
  pub io : Io

-- `main` ends with 1, does what is undefined, or is in its loop.
pub data Run : Type 0 where
  exits : Run
  undefined : Run
  running : Server → Run

-- The entries of the array `Set` that are written, from `Index` on; none for a write beyond its end.
unfoldable pub fill_from : ℕ → List Fd → Option (List Fd)
fill_from index [] = some []
fill_from index (fd ∷ fds) =
    let rest = fill_from (index + 1) fds in
    if ltb index poll_size then Option.map (λ (l : List Fd). fd ∷ l) rest else none

-- `Set[0]`, and the loop over `SlaveSockets`.
unfoldable pub fill_set : Server → Option (List Fd)
unfolding fill_from
fill_set s = fill_from 0 (some (s.master) ∷ (s.slaves))

-- A client that can be read.
unfoldable pub serve : Fd → Event → Server → Server
unfolding recv send shut_and_close erase
serve fd e s =
    let (size, io) = recv fd (e.received) (s.io) in
    if is_zero size && not (io.again)
    then record s { slaves = erase fd (s.slaves); io = shut_and_close fd (e.end_errno) io }
    else if is_zero size
    then record s { io = io }
    else record s { io = send fd size (e.sent) io }

-- A new client.
unfoldable pub accept : Event → Server → Server
unfolding set_nonblock insert
accept e s = record s {
  slaves = insert (e.accepted) (s.slaves);
  io = set_nonblock (e.accepted) (e.getfl) (call (Call.accepts (e.accepted)) (s.io));
}

-- One entry of the array.
unfoldable pub handle : Fd → Event → Server → Server
unfolding serve accept
handle fd e s =
    if e.readable then (if fd_eq fd (some (s.master)) then accept e s else serve fd e s) else s

-- The loop over the entries; those without an event have no `revents`.
unfoldable pub handle_all : List Fd → List Event → Server → Server
unfolding handle
handle_all [] es s = s
handle_all (fd ∷ fds) [] s = s
handle_all (fd ∷ fds) (e ∷ es) s = handle_all fds es (handle fd e s)

-- One round, with what `poll` reports.
unfoldable pub round : List Event → Server → Option Server
unfolding fill_set handle_all
round es s = elim (fill_set s) [ none ↦ none | some set ↦ some (handle_all set es s) ]

unfoldable pub rounds : List (List Event) → Server → Option Server
unfolding round
rounds [] s = some s
rounds (es ∷ ess) s = elim (round es s) [ none ↦ none | some s' ↦ rounds ess s' ]

unfoldable pub run_from : Option Server → Run
run_from none = undefined
run_from (some s) = running s

-- `main`, after some rounds.
unfoldable pub main : Setup → List (List Event) → Run
unfolding start rounds run_from
main k ess = elim (start k) [
  | none ↦ exits
  | some (master, io) ↦ run_from (rounds ess (record { master = master; slaves = []; io = io }))
]
