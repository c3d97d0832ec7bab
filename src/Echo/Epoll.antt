-- ===== src/Echo/Epoll.antt =====
-- network/echo/epoll/echo.cpp: the server that waits with `epoll_wait`.
use technosphere.Common.{
  ℕ, inl, inr, Bool, Option, none, some, List, [], ◌∷◌, if◌then◌else◌, Bool-cases,
}
use technosphere.Echo.Calls.{
  Fd, fd_eq, Call, call, Io, Event, Setup, recv, send, shut_and_close, set_nonblock, start,
}
use technosphere.Echo.Contract.{
  IsEcho, Silent-IsEcho, recv-send, shut_and_close-IsEcho, set_nonblock-IsEcho,
}

-- An entry of `Events`: whether EPOLLERR or EPOLLHUP is set, the descriptor, and the answers.
pub record EpollEvent : Type 0 where
  pub broken : Bool
  pub fd : Fd
  pub event : Event

unfoldable pub accept : Event → Io → Io
unfolding set_nonblock
accept e io =
    call (Call.watches (e.accepted))
      (set_nonblock (e.accepted) (e.getfl) (call (Call.accepts (e.accepted)) io))

-- A client: whatever `recv` returns is the size of the `send`.
unfoldable pub serve : Fd → Event → Io → Io
unfolding recv send
serve fd e io = let (size, io₁) = recv fd (e.received) io in send fd size (e.sent) io₁

unfoldable pub handle : ℕ → EpollEvent → Io → Io
unfolding serve accept shut_and_close
handle master k io =
    if k.broken
    then shut_and_close (k.fd) (k.event.end_errno) io
    else if fd_eq (k.fd) (some master)
    then accept (k.event) io
    else serve (k.fd) (k.event) io

unfoldable pub handle_all : ℕ → List EpollEvent → Io → Io
unfolding handle
handle_all master [] io = io
handle_all master (k ∷ ks) io = handle_all master ks (handle master k io)

-- The rounds, with what `epoll_wait` gives. For its -1 the loop up to `N` as an unsigned reads
-- `Events` beyond its end.
unfoldable pub rounds : ℕ → List (Option (List EpollEvent)) → Io → Option Io
unfolding handle_all
rounds master [] io = some io
rounds master (none ∷ rest) io = none
rounds master (some ks ∷ rest) io = rounds master rest (handle_all master ks io)

pub data Run : Type 0 where
  exits : Run
  undefined : Run
  running : Io → Run

unfoldable pub run_from : Option Io → Run
run_from none = undefined
run_from (some io) = running io

unfoldable pub main : Setup → List (Option (List EpollEvent)) → Run
unfolding start rounds run_from
main k rs = elim (start k) [
  | none ↦ exits
  | some (master, io) ↦ run_from (rounds master rs (call (Call.watches (some master)) io))
]

handle-IsEcho :
    (master : ℕ) (k : EpollEvent) (io : Io)
    → IsEcho (io.calls)
    → IsEcho ((handle master k io).calls)
unfolding handle serve accept
handle-IsEcho master k io h = elim (Bool-cases (k.broken)) [
  | inl b ↦ rw b (shut_and_close-IsEcho (k.fd) (k.event.end_errno) io h)
  | inr b ↦ elim (Bool-cases (fd_eq (k.fd) (some master))) [
    | inl f ↦
        let e = k.event in
        rw (b, f)
          (Silent-IsEcho (Call.watches (e.accepted)) _ tt (
            set_nonblock-IsEcho (e.accepted) (e.getfl) _
              (Silent-IsEcho (Call.accepts (e.accepted)) (io.calls) tt h)))
    | inr f ↦ rw (b, f) (recv-send (k.fd) (k.event.received) (k.event.sent) io h)
  ]
]

pub handle_all-IsEcho :
    (master : ℕ) (ks : List EpollEvent) (io : Io)
    → IsEcho (io.calls)
    → IsEcho ((handle_all master ks io).calls)
unfolding handle_all
handle_all-IsEcho master [] io e = e
handle_all-IsEcho master (k ∷ ks) io e =
    handle_all-IsEcho master ks (handle master k io) (handle-IsEcho master k io e)
