-- ===== src/Echo/Calls.antt =====
-- network/echo/poll/echo.cpp and its neighbours: what the servers share. The kernel's answers are
-- parameters; the calls that are made stand in a log, the newest first.
use technosphere.Common.Bytes.{Bytes}
use technosphere.Common.{
  ℕ, ◌+◌, ◌/◌, ◌%◌, Bool, true, false, ◌&&◌, Option, none, some, List, [], ◌∷◌, ◌++◌, ltb, ◌==◌,
  if◌then◌else◌, length, take, drop,
}

-- A descriptor as an `int`; none is -1.
abbrev pub Fd : Type 0
Fd = Option ℕ

abbrev pub fd_eq : Fd → Fd → Bool
fd_eq none none = true
fd_eq none (some y) = false
fd_eq (some x) none = false
fd_eq (some x) (some y) = x == y

abbrev pub fd_lt : Fd → Fd → Bool
fd_lt none none = false
fd_lt none (some y) = true
fd_lt (some x) none = false
fd_lt (some x) (some y) = ltb x y

-- The calls, with what `accept` returned, what `recv` gave, and the bytes that `send` was given and how
-- many of them it took, 0 where it fails. `overreads` is a `send` whose size is -1 as a `size_t`.
pub data Call : Type 0 where
  accepts : Fd → Call
  sets_flags : Fd → ℕ → Call
  watches : Fd → Call
  unwatches : Fd → Call
  gets : Fd → Bytes → Call
  sends : Fd → Bytes → ℕ → Call
  overreads : Fd → Call
  shuts : Fd → Call
  closes : Fd → Call

-- The static `Buffer`, whether errno is EAGAIN, and the log.
pub record Io : Type 0 where
  pub buffer : Bytes
  pub again : Bool
  pub calls : List Call

abbrev pub call : Call → Io → Io
call c io = record io { calls = c ∷ (io.calls) }

-- A call that leaves errno alone, or sets it to EAGAIN or to something else.
abbrev pub set_errno : Option Bool → Io → Io
set_errno none io = io
set_errno (some b) io = record io { again = b }

-- What `recv` finds: bytes, the end of the stream, or an error, which is EAGAIN or not.
pub data Recv : Type 0 where
  chunk : Bytes → Recv
  at_end : Recv
  fails : Bool → Recv

-- What `send` answers: how many bytes it takes, which may be fewer than it is given, or an error, which
-- is EAGAIN or not. The servers do not look at it.
pub data Sent : Type 0 where
  took : ℕ → Sent
  refused : Bool → Sent

abbrev pub taken : Sent → ℕ
taken (Sent.took k) = k
taken (Sent.refused b) = 0

abbrev pub errno_of : Sent → Option Bool
errno_of (Sent.took k) = none
errno_of (Sent.refused b) = some b

-- What an event comes with: the answers to the calls that it may lead to.
pub record Event : Type 0 where
  pub readable : Bool
  pub accepted : Fd
  pub getfl : Option ℕ
  pub received : Recv
  pub sent : Sent
  pub end_errno : Option Bool

-- `recv(fd, Buffer, 1024, MSG_NOSIGNAL)`: `RecvSize`, none for -1.
unfoldable pub recv : Fd → Recv → Io → Option ℕ × Io
recv fd (Recv.chunk pending) io =
    let got = take 1024 pending in
    (
      some (length got),
      record io {
        buffer = got ++ drop (length got) (io.buffer);
        calls = Call.gets fd got ∷ (io.calls);
      },
    )
recv fd Recv.at_end io = (some 0, call (Call.gets fd []) io)
recv fd (Recv.fails b) io = (none, call (Call.gets fd []) (record io { again = b }))

-- `send(fd, Buffer, RecvSize, MSG_NOSIGNAL)`
unfoldable pub send : Fd → Option ℕ → Sent → Io → Io
send fd none answer io = set_errno (errno_of answer) (call (Call.overreads fd) io)
send fd (some n) answer io =
    set_errno (errno_of answer) (call (Call.sends fd (take n (io.buffer)) (taken answer)) io)

-- `shutdown(fd, SHUT_RDWR); close(fd)`
unfoldable pub shut_and_close : Fd → Option Bool → Io → Io
shut_and_close fd errno io = call (Call.closes fd) (set_errno errno (call (Call.shuts fd) io))

-- `RecvSize == 0`, `RecvSize <= 0`
abbrev pub is_zero : Option ℕ → Bool
is_zero none = false
is_zero (some n) = n == 0

abbrev pub at_most_zero : Option ℕ → Bool
at_most_zero none = true
at_most_zero (some n) = n == 0

-- `flags | O_NONBLOCK`, a single bit
abbrev pub or_nonblock : ℕ → ℕ
or_nonblock flags = if flags / 2048 % 2 == 1 then flags else flags + 2048

-- `set_nonblock`, with what F_GETFL answers; an error there is EBADF.
unfoldable pub set_nonblock : Fd → Option ℕ → Io → Io
set_nonblock fd none io = call (Call.sets_flags fd 2048) (record io { again = false })
set_nonblock fd (some flags) io = call (Call.sets_flags fd (or_nonblock flags)) io

-- What the kernel answers before the loop: the listening socket, and whether bind and listen work.
pub record Setup : Type 0 where
  pub socket : Fd
  pub getfl : Option ℕ
  pub binds : Bool
  pub listens : Bool

abbrev pub fresh : Io
fresh = record { buffer = []; again = false; calls = [] }

-- `main` before its loop: none if it returns 1.
unfoldable pub start : Setup → Option (ℕ × Io)
unfolding set_nonblock
start k = elim (k.socket) [
  | none ↦ none
  | some master ↦
      if k.binds && k.listens
      then some (master, set_nonblock (some master) (k.getfl) fresh)
      else none
]
