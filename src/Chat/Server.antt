-- ===== src/Chat/Server.antt =====
-- sphere_prac/p2/chatsrv.cpp: the handlers of the event loop. The kernel's side of an event is its
-- argument: which descriptor it is about, and what `recv` gave; `send fd bytes` is what a `send`
-- returns. `none` stands for undefined behaviour: an iterator past the end, or one that an `erase`
-- made invalid.
pub mod Parts
pub mod Steps
use mathlib.Core.Option
use technosphere.Chat.Client.{Client, new_client, receive}
use technosphere.Common.Bytes.{Bytes, c_str, codes}
use technosphere.Common.{
  ℕ, zero, suc, ◌+◌, Bool, true, false, Option, none, some, List, [], ◌∷◌, ◌++◌, ◌==◌,
  if◌then◌else◌, ◌-◌, ◌^◌, ltb, min, take, drop, length, map,
}

abbrev pub max_msg_size : ℕ
max_msg_size = 1024

abbrev pub welcome : Bytes
welcome = codes "Welcome\n"

-- What was sent: a descriptor and the bytes, with their final NUL.
abbrev pub Sent : Type 0
Sent = List (ℕ × Bytes)

-- What `send` returns: `none` for -1, or how many bytes it sent.
abbrev pub Send : Type 0
Send = ℕ → Bytes → Option ℕ

-- `send(..) <= 0` is false
unfoldable pub is_sent : Option ℕ → Bool
is_sent none = false
is_sent (some n) = ltb 0 n

-- The result as a `size_t`, in which -1 is the largest number.
unfoldable pub size_t_result : Option ℕ → ℕ
size_t_result none = 2 ^ 64 - 1
size_t_result (some n) = n

-- The parts into which a message is cut, from position j on. The second argument of `substr` is a
-- length, and the code passes the position of the end. `none`: the fuel ran out.
unfoldable pub parts_from : ℕ → ℕ → Bytes → Option (List Bytes)
parts_from zero j msg = none
parts_from (suc fuel) j msg =
    let part = take (min (j + max_msg_size) (length msg)) (drop j msg) in
    let rest = parts_from fuel (j + max_msg_size) msg in
    if ltb j (length msg) then Option.map (λ (ps : List Bytes). part ∷ ps) rest else some []

unfoldable pub parts : Bytes → Option (List Bytes)
unfolding parts_from
parts msg = parts_from (length msg + 1) 0 msg

-- `drop_client`: erases the first client of the descriptor. (The `shutdown` and `close` of the
-- descriptor are the kernel's.)
unfoldable pub drop_client : ℕ → List Client → Option (List Client)
drop_client fd [] = none
drop_client fd (c ∷ cs) =
    if c.fd == fd then some cs else Option.map (λ (l : List Client). c ∷ l) (drop_client fd cs)

-- The loop over the clients for one part. A failed `send` erases the client under the iterator.
unfoldable pub send_all : Send → Bytes → List Client → Option Sent
unfolding is_sent
send_all send bytes [] = some []
send_all send bytes (c ∷ cs) =
    if is_sent (send c.fd bytes)
    then Option.map (λ (l : Sent). (c.fd, bytes) ∷ l) (send_all send bytes cs)
    else none

-- A part goes out as a C string.
unfoldable pub send_parts : Send → List Client → List Bytes → Option Sent
unfolding send_all
send_parts send cs [] = some []
send_parts send cs (p ∷ ps) = elim (send_all send (c_str p ++ (0 ∷ [])) cs) [
  | none ↦ none
  | some now ↦ Option.map (λ (l : Sent). now ++ l) (send_parts send cs ps)
]

unfoldable pub send_messages : Send → List Client → List Bytes → Option Sent
unfolding send_parts parts
send_messages send cs [] = some []
send_messages send cs (m ∷ ms) = elim (parts m) [
  | none ↦ none
  | some ps ↦ elim (send_parts send cs ps) [
    | none ↦ none
    | some now ↦ Option.map (λ (l : Sent). now ++ l) (send_messages send cs ms)
  ]
]

-- `find` and the calls on the client that it finds: the clients afterwards, and the messages taken.
unfoldable pub receive_at : ℕ → Bytes → List Client → Option (List Client × List Bytes)
receive_at fd bytes [] = none
receive_at fd bytes (c ∷ cs) =
    if c.fd == fd
    then Option.map (λ (r : Client × List Bytes). (r.0 ∷ cs, r.1)) (receive c bytes)
    else Option.map (λ (r : List Client × List Bytes). (c ∷ r.0, r.1)) (receive_at fd bytes cs)

pub data Event : Type 0 where
  -- EPOLLERR or EPOLLHUP
  hang_up : ℕ → Event
  -- `accept` gave this descriptor
  connect : ℕ → Event
  -- `recv` failed with another error than EAGAIN
  broken : ℕ → Event
  -- `recv` put these bytes into the buffer of zeros
  readable : ℕ → Bytes → Event

-- The messages that a client gave are sent to all.
unfoldable pub after_receive :
    Send → Option (List Client × List Bytes) → Option (List Client × Sent)
unfolding send_messages
after_receive send none = none
after_receive send (some r) = Option.map (λ (l : Sent). (r.0, l)) (send_messages send r.0 r.1)

-- One event: the clients afterwards, and what was sent.
unfoldable pub on_event : Send → Event → List Client → Option (List Client × Sent)
unfolding drop_client receive_at after_receive new_client size_t_result
on_event send (hang_up fd) cs = Option.map (λ (l : List Client). (l, [])) (drop_client fd cs)
on_event send (connect fd) cs =
    let all = cs ++ (new_client fd ∷ []) in
    let bytes = welcome ++ (0 ∷ []) in
    if ltb (size_t_result (send fd bytes)) (length bytes)
    then Option.map (λ (l : List Client). (l, [])) (drop_client fd all)
    else some (all, (fd, bytes) ∷ [])
on_event send (broken fd) cs = Option.map (λ (l : List Client). (l, [])) (drop_client fd cs)
on_event send (readable fd bytes) cs = after_receive send (receive_at fd bytes cs)
