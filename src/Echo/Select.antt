-- ===== src/Echo/Select.antt =====
-- network/echo/select/echo.cpp: the server that waits with `select`.
pub mod Rounds
use technosphere.Common.{
  ℕ, ◌+◌, ◌≤◌, ◌≡◌, inl, inr, refl, ap, sym, ◌∙◌, Bool, true, false, ◌&&◌, not, Option, none, some,
  List, [], ◌∷◌, if◌then◌else◌, ltb, Bool-cases, arith, max,
}
use technosphere.Echo.Calls.{
  Fd, fd_eq, Call, call, Io, Event, Setup, recv, send, set_nonblock, is_zero, start, fresh,
}
use technosphere.Echo.Descriptors.{insert}

-- `MasterSocket`, `SlaveSockets`, and the rest.
pub record Server : Type 0 where
  pub master : ℕ
  pub slaves : List Fd
  pub io : Io

pub data Run : Type 0 where
  exits : Run
  undefined : Run
  running : Server → Run

-- `FD_SET` of each descriptor is defined.
abbrev pub settable : Fd → Bool
settable none = false
settable (some n) = ltb n 1024

abbrev pub all_settable : List Fd → Bool
all_settable [] = true
all_settable (x ∷ xs) = settable x && all_settable xs

-- `*std::max_element` of descriptors that are settable; none for the end of an empty set.
unfoldable pub max_element : List Fd → Option ℕ
max_element [] = none
max_element (none ∷ xs) = max_element xs
max_element (some n ∷ xs) = elim (max_element xs) [ none ↦ some n | some m ↦ some (max n m) ]

-- A client that can be read; none where the element that the loop stands at is erased, since the loop
-- goes on from it.
unfoldable pub serve : Fd → Event → Server → Option Server
unfolding recv send
serve fd e s =
    let (size, io) = recv fd (e.received) (s.io) in
    if is_zero size && not (io.again)
    then none
    else if is_zero size
    then some (record s { io = io })
    else some (record s { io = send fd size (e.sent) io })

unfoldable pub serve_all : List Fd → List Event → Server → Option Server
unfolding serve
serve_all [] es s = some s
serve_all (fd ∷ fds) [] s = some s
serve_all (fd ∷ fds) (e ∷ es) s =
    let skipped = serve_all fds es s in
    if e.readable
    then elim (serve fd e s) [ none ↦ none | some s' ↦ serve_all fds es s' ]
    else skipped

unfoldable pub accept : Event → Server → Server
unfolding set_nonblock insert
accept e s = record s {
  slaves = insert (e.accepted) (s.slaves);
  io = set_nonblock (e.accepted) (e.getfl) (call (Call.accepts (e.accepted)) (s.io));
}

-- What `select` reports: whether its result is above 0, the clients, and the listening socket.
pub record Report : Type 0 where
  pub selects : Bool
  pub clients : List Event
  pub listener : Event

abbrev pub accept_ready : Event → Server → Server
accept_ready e s = if e.readable then accept e s else s

-- The part of a round behind `select`.
unfoldable pub serve_round : Report → Server → Run
unfolding serve_all accept
serve_round r s =
    if r.selects
    then elim (serve_all (s.slaves) (r.clients) s) [
      | none ↦ undefined
      | some s' ↦ running (accept_ready (r.listener) s')
    ]
    else exits

-- One round.
unfoldable pub round : Report → Server → Run
unfolding max_element serve_round
round r s =
    if all_settable (some (s.master) ∷ (s.slaves))
    then elim (max_element (s.slaves)) [ none ↦ undefined | some m ↦ serve_round r s ]
    else undefined

unfoldable pub rounds : List Report → Server → Run
unfolding round
rounds [] s = running s
rounds (r ∷ rs) s = elim (round r s) [
  | exits ↦ exits
  | undefined ↦ undefined
  | running s' ↦ rounds rs s'
]

unfoldable pub main : Setup → List Report → Run
unfolding start rounds
main k rs = elim (start k) [
  | none ↦ exits
  | some (master, io) ↦ rounds rs (record { master = master; slaves = []; io = io })
]

no_clients :
    (master : ℕ) (io : Io) (r : Report) (rs : List Report)
    → rounds (r ∷ rs) (record { master = master; slaves = []; io = io }) ≡ undefined
unfolding rounds round max_element
no_clients master io r rs = elim (Bool-cases (settable (some master))) [
  | inl e ↦ ground (arith, e)
  | inr e ↦ ground (arith, e)
]

-- When the start succeeds the first round is undefined, whatever `select` would report: there is no
-- client yet, and the greatest element of the empty set is read.
pub main-undefined :
    (k : Setup) (master : ℕ) (r : Report) (rs : List Report)
    → k.socket ≡ some master
    → k.binds ≡ true
    → k.listens ≡ true
    → main k (r ∷ rs) ≡ undefined
unfolding main start
main-undefined k master r rs s b l =
    let begins : main k (r ∷ rs)
        ≡ rounds (r ∷ rs) (record {
          master = master;
          slaves = [];
          io = set_nonblock (some master) (k.getfl) fresh;
        }) =
      ground (arith, s, b, l) in
    begins ∙ no_clients master (set_nonblock (some master) (k.getfl) fresh) r rs
