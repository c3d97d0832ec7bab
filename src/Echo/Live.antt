-- ===== src/Echo/Live.antt =====
-- Which descriptors are open, by the log of the calls.
use mathlib.Core.Path.{subst}
use technosphere.Common.{
  ℕ, ◌≡◌, refl, ap, sym, Bool, true, false, Option, none, some, List, [], ◌∷◌, if◌then◌else◌,
}
use technosphere.Echo.Calls.{
  Fd, fd_eq, Call, Io, recv, send, shut_and_close, set_nonblock, Recv, Sent, errno_of,
}
use technosphere.Echo.Contract.{set_errno-calls}

-- Not the -1 of an `accept` that failed.
abbrev pub is_descriptor : Fd → Bool
is_descriptor none = false
is_descriptor (some x) = true

-- The descriptor was accepted and not closed since; -1 never was.
unfoldable pub live : Fd → List Call → Bool
live fd [] = false
live fd (Call.accepts x ∷ log) =
    let before = live fd log in if fd_eq fd x then is_descriptor fd else before
live fd (Call.closes x ∷ log) = let before = live fd log in if fd_eq fd x then false else before
live fd (Call.sets_flags x n ∷ log) = live fd log
live fd (Call.watches x ∷ log) = live fd log
live fd (Call.unwatches x ∷ log) = live fd log
live fd (Call.gets x bs ∷ log) = live fd log
live fd (Call.sends x bs k ∷ log) = live fd log
live fd (Call.overreads x ∷ log) = live fd log
live fd (Call.shuts x ∷ log) = live fd log

-- A descriptor that is live, or -1, on which a call fails.
abbrev pub usable : Fd → List Call → Bool
usable fd log = if is_descriptor fd then live fd log else true

-- No descriptor but -1 is given to `recv`, `send`, `shutdown` or `close` while it is not live.
abbrev pub IsSafe : List Call → Type 0
IsSafe [] = Unit
IsSafe (Call.accepts x ∷ log) = IsSafe log
IsSafe (Call.sets_flags x n ∷ log) = IsSafe log
IsSafe (Call.watches x ∷ log) = IsSafe log
IsSafe (Call.unwatches x ∷ log) = IsSafe log
IsSafe (Call.gets x bs ∷ log) = (usable x log ≡ true) × IsSafe log
IsSafe (Call.sends x bs k ∷ log) = (usable x log ≡ true) × IsSafe log
IsSafe (Call.overreads x ∷ log) = (usable x log ≡ true) × IsSafe log
IsSafe (Call.shuts x ∷ log) = (usable x log ≡ true) × IsSafe log
IsSafe (Call.closes x ∷ log) = (usable x log ≡ true) × IsSafe log

pub recv-live :
    (x fd : Fd) (r : Recv) (io : Io) → live x (((recv fd r io).1).calls) ≡ live x (io.calls)
unfolding recv live
recv-live x fd (Recv.chunk pending) io = refl
recv-live x fd Recv.at_end io = refl
recv-live x fd (Recv.fails b) io = refl

pub send-live :
    (x fd : Fd) (size : Option ℕ) (answer : Sent) (io : Io)
    → live x ((send fd size answer io).calls) ≡ live x (io.calls)
unfolding send live
send-live x fd none answer io = ap (live x) (set_errno-calls (errno_of answer) _)
send-live x fd (some n) answer io = ap (live x) (set_errno-calls (errno_of answer) _)

pub shut_and_close-live :
    (x fd : Fd) (errno : Option Bool) (io : Io)
    → live x ((shut_and_close fd errno io).calls)
      ≡ (if fd_eq x fd then false else live x (io.calls))
unfolding shut_and_close live
shut_and_close-live x fd errno io =
    ap (λ (l : List Call). if fd_eq x fd then false else live x l) (set_errno-calls errno _)

pub set_nonblock-live :
    (x fd : Fd) (getfl : Option ℕ) (io : Io)
    → live x ((set_nonblock fd getfl io).calls) ≡ live x (io.calls)
unfolding set_nonblock live
set_nonblock-live x fd none io = refl
set_nonblock-live x fd (some flags) io = refl

-- A live descriptor can be used.
pub live-usable : (fd : Fd) (log : List Call) → live fd log ≡ true → usable fd log ≡ true
live-usable none log h = refl
live-usable (some x) log h = h

-- A log with a call on a descriptor that can be used.
abbrev pub Safe : Fd → List Call → Type 0
Safe fd log = (usable fd log ≡ true) × IsSafe log

pub recv-Safe :
    (fd : Fd) (r : Recv) (io : Io) → Safe fd (io.calls) → Safe fd (((recv fd r io).1).calls)
unfolding recv live
recv-Safe fd (Recv.chunk pending) io h = (h.0, h)
recv-Safe fd Recv.at_end io h = (h.0, h)
recv-Safe fd (Recv.fails b) io h = (h.0, h)

pub send-Safe :
    (fd : Fd) (size : Option ℕ) (answer : Sent) (io : Io)
    → Safe fd (io.calls)
    → Safe fd ((send fd size answer io).calls)
unfolding send live
send-Safe fd none answer io h = subst (Safe fd) (sym (set_errno-calls (errno_of answer) _)) (h.0, h)
send-Safe fd (some n) answer io h =
    subst (Safe fd) (sym (set_errno-calls (errno_of answer) _)) (h.0, h)

pub shut_and_close-IsSafe :
    (fd : Fd) (errno : Option Bool) (io : Io)
    → Safe fd (io.calls)
    → IsSafe ((shut_and_close fd errno io).calls)
unfolding shut_and_close live
shut_and_close-IsSafe fd errno io h = subst (Safe fd) (sym (set_errno-calls errno _)) (h.0, h)

pub set_nonblock-IsSafe :
    (fd : Fd) (getfl : Option ℕ) (io : Io)
    → IsSafe (io.calls)
    → IsSafe ((set_nonblock fd getfl io).calls)
unfolding set_nonblock
set_nonblock-IsSafe fd none io h = h
set_nonblock-IsSafe fd (some flags) io h = h
