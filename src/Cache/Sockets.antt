-- ===== src/Cache/Sockets.antt =====
-- sphere_prac/p5/sock_ops.c: the sockets between the main process, its workers and the clients. What the
-- kernel answers is a parameter; the state is the list of the open descriptors, and -1 is none.
use technosphere.Common.Bytes.{Bytes}
use technosphere.Common.{
  ℕ, ◌+◌, ◌/◌, ◌%◌, ◌≡◌, refl, Bool, false, ◌&&◌, not, Option, none, some, List, [], ◌∷◌, ◌==◌,
  if◌then◌else◌, get_or, map, Bool-cases, inl, inr,
}

-- The answers of `socket`, `setsockopt`, `bind`, `listen` and `connect`.
pub record Calls : Type 0 where
  pub socket : Option ℕ
  pub setsockopt : Bool
  pub bind : Bool
  pub listen : Bool
  pub connect : Bool

-- Without a socket setsockopt fails; the result of listen is not looked at.
unfoldable pub get_master_socket_and_listen : Calls → List ℕ → Option ℕ × List ℕ
get_master_socket_and_listen k open_fds = elim (k.socket) [
  | none ↦ (none, open_fds)
  | some fd ↦ if k.setsockopt && k.bind then (some fd, fd ∷ open_fds) else (none, fd ∷ open_fds)
]

-- On an error the result is 1.
unfoldable pub get_internal_server_socket : Calls → List ℕ → ℕ × List ℕ
get_internal_server_socket k open_fds = elim (k.socket) [
  | none ↦ (1, open_fds)
  | some fd ↦ if k.bind && k.listen then (fd, fd ∷ open_fds) else (1, fd ∷ open_fds)
]

unfoldable pub connect_to_internal_socket : Calls → List ℕ → Option ℕ × List ℕ
connect_to_internal_socket k open_fds = elim (k.socket) [
  | none ↦ (none, open_fds)
  | some fd ↦ if k.connect then (some fd, fd ∷ open_fds) else (none, fd ∷ open_fds)
]

-- `make_socket_non_blocking`, with the answers of the two calls of fcntl: the flags afterwards.
unfoldable pub set_non_blocking : Option ℕ → Bool → Option ℕ
set_non_blocking none sets = none
set_non_blocking (some flags) sets =
    if sets then some (if flags / 2048 % 2 == 1 then flags else flags + 2048) else none

-- A control message. `SOL_SOCKET` and `SCM_RIGHTS` are 1 on Linux.
pub record Cmsg : Type 0 where
  pub cmsg_level : ℕ
  pub cmsg_type : ℕ
  pub payload : ℕ

abbrev pub sol_socket : ℕ
sol_socket = 1

abbrev pub scm_rights : ℕ
scm_rights = 1

-- A `msghdr`: the byte of its vector, its control messages, and the flag MSG_CTRUNC.
pub record Message : Type 0 where
  pub buffer : Bytes
  pub control : List Cmsg
  pub truncated : Bool

-- The message of `send_fd`: the byte `F`, and the descriptor.
unfoldable pub send_fd : ℕ → Message
send_fd fd = record {
  buffer = 70 ∷ [];
  control = record { cmsg_level = sol_socket; cmsg_type = scm_rights; payload = fd } ∷ [];
  truncated = false;
}

-- The loop over the control messages.
unfoldable pub find_rights : List Cmsg → Option ℕ
find_rights [] = none
find_rights (c ∷ control) =
    let rest = find_rights control in
    if (c.cmsg_level == sol_socket) && (c.cmsg_type == scm_rights) then some (c.payload) else rest

-- `recv_fd`, where recvmsg gives a message, or none for a negative result. At the end of the stream the
-- message is empty, and the byte is `stale`, whatever the stack held.
unfoldable pub recv_fd : ℕ → Option Message → Option ℕ
unfolding find_rights
recv_fd stale none = none
recv_fd stale (some m) =
    if not (get_or (m.buffer) 0 stale == 70)
    then none
    else if m.truncated
    then none
    else find_rights (m.control)

-- The kernel gives the receiver a descriptor of its own for each that is passed.
abbrev pub deliver : (ℕ → ℕ) → Message → Message
deliver install m = record m {
  control = map (λ (c : Cmsg). record c { payload = install (c.payload) }) (m.control);
}

-- A descriptor that is sent is received.
pub recv_fd-send_fd :
    (install : ℕ → ℕ) (stale fd : ℕ)
    → recv_fd stale (some (deliver install (send_fd fd))) ≡ some (install fd)
unfolding recv_fd send_fd
recv_fd-send_fd install stale fd = refl

-- At the end of the stream the result is -1, also where the stack still holds the byte `F`.
pub recv_fd_closed :
    (stale : ℕ)
    → recv_fd stale (some (record { buffer = []; control = []; truncated = false })) ≡ none
unfolding recv_fd
recv_fd_closed stale = elim (Bool-cases (stale == 70)) [ inl e ↦ rw e refl | inr e ↦ rw e refl ]
