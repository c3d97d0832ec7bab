-- ===== src/Echo/Contract.antt =====
-- What an echo server promises, as a property of its log alone: `send` is given for each client what
-- came from it. The calls of `send` with the size -1 are left aside.
use mathlib.Core.Path.{subst}
use technosphere.Common.Bytes.{Bytes, take-append}
use technosphere.Common.{
  ℕ, zero, suc, ◌≡◌, ◌≤◌, ◌⊎◌, inl, inr, refl, ap, sym, ◌∙◌, Bool, true, false, Option, none, some,
  List, [], ◌∷◌, ◌++◌, if◌then◌else◌, length, take, drop, Bool-cases, arith,
}
use technosphere.Echo.Calls.{
  Fd, fd_eq, Call, Io, recv, send, shut_and_close, set_nonblock, Recv, Sent, taken, errno_of,
  set_errno, at_most_zero,
}

-- The bytes that came from the client, and those that `send` was given for it.
unfoldable pub received_from : Fd → List Call → Bytes
received_from fd [] = []
received_from fd (Call.gets x bs ∷ log) =
    let before = received_from fd log in if fd_eq fd x then before ++ bs else before
received_from fd (Call.accepts x ∷ log) = received_from fd log
received_from fd (Call.sets_flags x n ∷ log) = received_from fd log
received_from fd (Call.watches x ∷ log) = received_from fd log
received_from fd (Call.unwatches x ∷ log) = received_from fd log
received_from fd (Call.sends x bs k ∷ log) = received_from fd log
received_from fd (Call.overreads x ∷ log) = received_from fd log
received_from fd (Call.shuts x ∷ log) = received_from fd log
received_from fd (Call.closes x ∷ log) = received_from fd log

unfoldable pub offered_to : Fd → List Call → Bytes
offered_to fd [] = []
offered_to fd (Call.sends x bs k ∷ log) =
    let before = offered_to fd log in if fd_eq fd x then before ++ bs else before
offered_to fd (Call.accepts x ∷ log) = offered_to fd log
offered_to fd (Call.sets_flags x n ∷ log) = offered_to fd log
offered_to fd (Call.watches x ∷ log) = offered_to fd log
offered_to fd (Call.unwatches x ∷ log) = offered_to fd log
offered_to fd (Call.gets x bs ∷ log) = offered_to fd log
offered_to fd (Call.overreads x ∷ log) = offered_to fd log
offered_to fd (Call.shuts x ∷ log) = offered_to fd log
offered_to fd (Call.closes x ∷ log) = offered_to fd log

-- The bytes that `send` took for the client: they alone go to it.
unfoldable pub sent_to : Fd → List Call → Bytes
sent_to fd [] = []
sent_to fd (Call.sends x bs k ∷ log) =
    let before = sent_to fd log in if fd_eq fd x then before ++ take k bs else before
sent_to fd (Call.accepts x ∷ log) = sent_to fd log
sent_to fd (Call.sets_flags x n ∷ log) = sent_to fd log
sent_to fd (Call.watches x ∷ log) = sent_to fd log
sent_to fd (Call.unwatches x ∷ log) = sent_to fd log
sent_to fd (Call.gets x bs ∷ log) = sent_to fd log
sent_to fd (Call.overreads x ∷ log) = sent_to fd log
sent_to fd (Call.shuts x ∷ log) = sent_to fd log
sent_to fd (Call.closes x ∷ log) = sent_to fd log

-- Each `send` for the client took all that it was given.
abbrev pub TookAll : Fd → List Call → Type 0
TookAll fd [] = Unit
TookAll fd (Call.sends x bs k ∷ log) = ((fd_eq fd x ≡ false) ⊎ (length bs ≤ k)) × TookAll fd log
TookAll fd (Call.accepts x ∷ log) = TookAll fd log
TookAll fd (Call.sets_flags x n ∷ log) = TookAll fd log
TookAll fd (Call.watches x ∷ log) = TookAll fd log
TookAll fd (Call.unwatches x ∷ log) = TookAll fd log
TookAll fd (Call.gets x bs ∷ log) = TookAll fd log
TookAll fd (Call.overreads x ∷ log) = TookAll fd log
TookAll fd (Call.shuts x ∷ log) = TookAll fd log
TookAll fd (Call.closes x ∷ log) = TookAll fd log

take_all : (k : ℕ) (bs : Bytes) → length bs ≤ k → take k bs ≡ bs
take_all zero [] h = refl
take_all (suc k) [] h = refl
take_all zero (b ∷ bs) h = absurd (omega (arith, h))
take_all (suc k) (b ∷ bs) h = ap (λ (t : Bytes). b ∷ t) (take_all k bs (omega (arith, h)))

pub sent_to-offered_to :
    (fd : Fd) (log : List Call) → TookAll fd log → sent_to fd log ≡ offered_to fd log
unfolding sent_to offered_to
sent_to-offered_to fd [] h = refl
sent_to-offered_to fd (Call.sends x bs k ∷ log) (h, hs) =
    let rest = sent_to-offered_to fd log hs in
    elim (Bool-cases (fd_eq fd x)) [
      | inr f ↦ rw f rest
      | inl f ↦ elim h [
        | inl g ↦ absurd (ground (arith, f, g))
        | inr le ↦ let all = take_all k bs le in rw (f, all) (ap (λ (t : Bytes). t ++ bs) rest)
      ]
    ]
sent_to-offered_to fd (Call.accepts x ∷ log) h = sent_to-offered_to fd log h
sent_to-offered_to fd (Call.sets_flags x n ∷ log) h = sent_to-offered_to fd log h
sent_to-offered_to fd (Call.watches x ∷ log) h = sent_to-offered_to fd log h
sent_to-offered_to fd (Call.unwatches x ∷ log) h = sent_to-offered_to fd log h
sent_to-offered_to fd (Call.gets x bs ∷ log) h = sent_to-offered_to fd log h
sent_to-offered_to fd (Call.overreads x ∷ log) h = sent_to-offered_to fd log h
sent_to-offered_to fd (Call.shuts x ∷ log) h = sent_to-offered_to fd log h
sent_to-offered_to fd (Call.closes x ∷ log) h = sent_to-offered_to fd log h

abbrev pub IsEcho : List Call → Type 0
IsEcho log = (fd : Fd) → offered_to fd log ≡ received_from fd log

pub nil-IsEcho : IsEcho []
unfolding offered_to received_from
nil-IsEcho fd = refl

-- Calls that carry no bytes.
abbrev pub Silent : Call → Type 0
Silent (Call.gets x bs) = ⊥
Silent (Call.sends x bs k) = ⊥
Silent (Call.accepts x) = Unit
Silent (Call.sets_flags x n) = Unit
Silent (Call.watches x) = Unit
Silent (Call.unwatches x) = Unit
Silent (Call.overreads x) = Unit
Silent (Call.shuts x) = Unit
Silent (Call.closes x) = Unit

pub Silent-IsEcho : (c : Call) (log : List Call) → Silent c → IsEcho log → IsEcho (c ∷ log)
unfolding offered_to received_from
Silent-IsEcho (Call.gets x bs) log s e = elim s [ ]
Silent-IsEcho (Call.sends x bs k) log s e = elim s [ ]
Silent-IsEcho (Call.accepts x) log s e = λ fd. e fd
Silent-IsEcho (Call.sets_flags x n) log s e = λ fd. e fd
Silent-IsEcho (Call.watches x) log s e = λ fd. e fd
Silent-IsEcho (Call.unwatches x) log s e = λ fd. e fd
Silent-IsEcho (Call.overreads x) log s e = λ fd. e fd
Silent-IsEcho (Call.shuts x) log s e = λ fd. e fd
Silent-IsEcho (Call.closes x) log s e = λ fd. e fd

append-nil : (bs : Bytes) → bs ++ [] ≡ bs
append-nil [] = refl
append-nil (b ∷ bs) = ap (λ (t : Bytes). b ∷ t) (append-nil bs)

-- Bytes that come from a client and go back to it.
pub both-IsEcho :
    (x : Fd) (bs : Bytes) (k : ℕ) (log : List Call)
    → IsEcho log
    → IsEcho (Call.sends x bs k ∷ (Call.gets x bs ∷ log))
unfolding offered_to received_from
both-IsEcho x bs k log e fd = elim (Bool-cases (fd_eq fd x)) [
  | inl f ↦ rw f (ap (λ (t : Bytes). t ++ bs) (e fd))
  | inr f ↦ rw f (e fd)
]

-- The end of a stream.
pub nothing-IsEcho : (x : Fd) (log : List Call) → IsEcho log → IsEcho (Call.gets x [] ∷ log)
unfolding offered_to received_from
nothing-IsEcho x log e fd = elim (Bool-cases (fd_eq fd x)) [
  | inl f ↦ rw f (e fd ∙ sym (append-nil (received_from fd log)))
  | inr f ↦ rw f (e fd)
]

pub set_errno-calls : (errno : Option Bool) (io : Io) → (set_errno errno io).calls ≡ io.calls
set_errno-calls none io = refl
set_errno-calls (some b) io = refl

-- `recv` and then `send` of as many bytes: the bytes of other clients that are still in the buffer do
-- not go out.
pub recv-send :
    (x : Fd) (r : Recv) (answer : Sent) (io : Io)
    → IsEcho (io.calls)
    → IsEcho ((send x ((recv x r io).0) answer ((recv x r io).1)).calls)
unfolding recv send
recv-send x (Recv.chunk pending) answer io e =
    let got = take 1024 pending in
    let same = take-append got (drop (length got) (io.buffer)) in
    let both = both-IsEcho x got (taken answer) (io.calls) e in
    λ fd.
      subst (λ (log : List Call). offered_to fd log ≡ received_from fd log)
        (sym (
          set_errno-calls (errno_of answer) _
          ∙ ap (λ (t : Bytes). Call.sends x t (taken answer) ∷ (Call.gets x got ∷ (io.calls)))
              same))
        (both fd)
recv-send x Recv.at_end answer io e = λ fd.
    subst (λ (log : List Call). offered_to fd log ≡ received_from fd log)
      (sym (set_errno-calls (errno_of answer) _)) (both-IsEcho x [] (taken answer) (io.calls) e fd)
recv-send x (Recv.fails b) answer io e = λ fd.
    subst (λ (log : List Call). offered_to fd log ≡ received_from fd log)
      (sym (set_errno-calls (errno_of answer) _))
      (Silent-IsEcho (Call.overreads x) _ tt (nothing-IsEcho x (io.calls) e) fd)

-- The end of a connection.
pub shut_and_close-IsEcho :
    (x : Fd) (errno : Option Bool) (io : Io)
    → IsEcho (io.calls)
    → IsEcho ((shut_and_close x errno io).calls)
unfolding shut_and_close
shut_and_close-IsEcho x errno io e =
    let ended = Silent-IsEcho (Call.shuts x) (io.calls) tt e in
    Silent-IsEcho (Call.closes x) _ tt (λ fd.
      subst (λ (log : List Call). offered_to fd log ≡ received_from fd log)
        (sym (set_errno-calls errno _)) (ended fd))

-- A new connection.
pub set_nonblock-IsEcho :
    (x : Fd) (getfl : Option ℕ) (io : Io)
    → IsEcho (io.calls)
    → IsEcho ((set_nonblock x getfl io).calls)
unfolding set_nonblock
set_nonblock-IsEcho x none io e = Silent-IsEcho (Call.sets_flags x 2048) _ tt e
set_nonblock-IsEcho x (some flags) io e = Silent-IsEcho (Call.sets_flags x _) _ tt e

length_zero : (bs : Bytes) → length bs ≡ 0 → bs ≡ []
length_zero [] e = refl
length_zero (b ∷ bs) e = absurd (omega (arith, e))

-- A `recv` that gives no byte.
pub recv_zero-IsEcho :
    (x : Fd) (r : Recv) (io : Io)
    → at_most_zero ((recv x r io).0) ≡ true
    → IsEcho (io.calls)
    → IsEcho (((recv x r io).1).calls)
unfolding recv
recv_zero-IsEcho x (Recv.chunk pending) io z e =
    let got = take 1024 pending in
    let none_ : length got ≡ 0 = ground (arith, z) in
    subst (λ (t : Bytes). IsEcho (Call.gets x t ∷ (io.calls))) (sym (length_zero got none_))
      (nothing-IsEcho x (io.calls) e)
recv_zero-IsEcho x Recv.at_end io z e = nothing-IsEcho x (io.calls) e
recv_zero-IsEcho x (Recv.fails b) io z e = nothing-IsEcho x (io.calls) e
