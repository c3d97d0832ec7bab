-- ===== src/Epoll/Start.antt =====
-- epoll-example.c: create_and_bind, make_socket_non_blocking, and `main` up to its loop. What the kernel
-- answers is a parameter; the state is the list of the open descriptors.
use mathlib.Core.Path.{subst}
use technosphere.Common.Bytes.{Bytes}
use technosphere.Common.{
  ℕ, ◌+◌, ◌/◌, ◌%◌, ◌≡◌, ◌⊎◌, inl, inr, refl, ap, Bool, true, false, Option, none, some, List, [],
  ◌∷◌, ◌==◌, if◌then◌else◌, arith, ◌++◌, Bool-cases, Option-cases,
}

-- `close(fd)`
abbrev pub close_fd : ℕ → List ℕ → List ℕ
close_fd fd [] = []
close_fd fd (x ∷ xs) = let rest = close_fd fd xs in if x == fd then rest else x ∷ rest

-- `flags | O_NONBLOCK`, a single bit
abbrev pub or_nonblock : ℕ → ℕ
or_nonblock flags = if flags / 2048 % 2 == 1 then flags else flags + 2048

-- The answers of `fcntl`: the flags, and whether they could be set.
pub record Fcntl : Type 0 where
  pub getfl : Option ℕ
  pub setfl : Bool

-- The flags afterwards, none for the result -1.
unfoldable pub make_socket_non_blocking : Fcntl → Option ℕ
make_socket_non_blocking f = elim (f.getfl) [
  | none ↦ none
  | some flags ↦ if f.setfl then some (or_nonblock flags) else none
]

-- An address of `getaddrinfo`: the descriptor that `socket` gives for it, and whether `bind` works.
pub record Addr : Type 0 where
  pub socket : Option ℕ
  pub binds : Bool

-- The loop over the addresses: a descriptor that is bound, none for -1, and what is open.
unfoldable pub bind_loop : List Addr → List ℕ → Option ℕ × List ℕ
bind_loop [] open_fds = (none, open_fds)
bind_loop (a ∷ addrs) open_fds = elim (a.socket) [
  | none ↦ bind_loop addrs open_fds
  | some sfd ↦
      if a.binds
      then (some sfd, sfd ∷ open_fds)
      else bind_loop addrs (close_fd sfd (sfd ∷ open_fds))
]

-- `create_and_bind`; the addresses are none if getaddrinfo fails.
unfoldable pub create_and_bind : Option (List Addr) → List ℕ → Option ℕ × List ℕ
unfolding bind_loop
create_and_bind none open_fds = (none, open_fds)
create_and_bind (some addrs) open_fds = bind_loop addrs open_fds

-- What the kernel answers to `main`.
pub record Answers : Type 0 where
  pub addrs : Option (List Addr)
  pub fcntl : Fcntl
  pub listens : Bool
  pub epoll_create : Option ℕ
  pub epoll_ctl : Bool

-- A line that `printf` prints, with the host and the port of the client.
pub data Notice : Type 0 where
  accepted_on : ℕ → Bytes → Bytes → Notice
  closed_on : ℕ → Notice

-- The server before its loop: the listening socket, the epoll instance, the open sockets and those that
-- the instance watches; what was written to descriptor 1; and what was printed to `stdout`, which has a
-- buffer of its own, the newest first.
pub record Server : Type 0 where
  pub sfd : ℕ
  pub efd : ℕ
  pub sockets : List ℕ
  pub watched : List ℕ
  pub output : Bytes
  pub notices : List Notice

pub data Started : Type 0 where
  started : Server → Started
  exit_failure : Started
  aborted : Started

-- `main` up to the loop, with `argc`.
unfoldable pub start_at : Answers → ℕ → Started
unfolding make_socket_non_blocking
start_at k sfd = elim (make_socket_non_blocking (k.fcntl)) [
  | none ↦ aborted
  | some flags ↦
      if k.listens
      then elim (k.epoll_create) [
        | none ↦ aborted
        | some efd ↦
            if k.epoll_ctl
            then started (record {
              sfd = sfd;
              efd = efd;
              sockets = sfd ∷ [];
              watched = sfd ∷ [];
              output = [];
              notices = [];
            })
            else aborted
      ]
      else aborted
]

unfoldable pub start : Answers → ℕ → Started
unfolding create_and_bind start_at
start k argc =
    if argc == 2
    then elim ((create_and_bind (k.addrs) []).0) [ none ↦ aborted | some sfd ↦ start_at k sfd ]
    else exit_failure

-- The descriptor is not in the list.
abbrev pub NotIn : ℕ → List ℕ → Type 0
NotIn fd [] = Unit
NotIn fd (x ∷ xs) = ((x == fd) ≡ false) × NotIn fd xs

pub close_fd-NotIn : (fd : ℕ) (xs : List ℕ) → NotIn fd xs → close_fd fd xs ≡ xs
close_fd-NotIn fd [] h = refl
close_fd-NotIn fd (x ∷ xs) h = ground (arith, h.0, close_fd-NotIn fd xs h.1)

pub close_fd_self : (fd : ℕ) (xs : List ℕ) → NotIn fd xs → close_fd fd (fd ∷ xs) ≡ xs
close_fd_self fd xs h = ground (arith, close_fd-NotIn fd xs h)

-- The descriptors of the addresses are not among the open ones.
abbrev pub AreNew : List Addr → List ℕ → Type 0
AreNew [] open_fds = Unit
AreNew (a ∷ addrs) open_fds =
    ((fd : ℕ) → a.socket ≡ some fd → NotIn fd open_fds) × AreNew addrs open_fds

-- No address gives a descriptor that can be bound.
abbrev pub Fails : Addr → Type 0
Fails a = (a.socket ≡ none) ⊎ (a.binds ≡ false)

abbrev pub AllFail : List Addr → Type 0
AllFail [] = Unit
AllFail (a ∷ addrs) = Fails a × AllFail addrs

-- The first address that can be bound.
abbrev pub FirstBound : List Addr → ℕ → Type 0
FirstBound addrs fd =
    (before : List Addr) × (a : Addr) × (after : List Addr) × (addrs ≡ before ++ (a ∷ after))
    × AllFail before
    × (a.socket ≡ some fd)
    × (a.binds ≡ true)

abbrev pub Bound : List Addr → List ℕ → Option ℕ × List ℕ → Type 0
Bound addrs open_fds r =
    (AllFail addrs × (r ≡ (none, open_fds)))
    ⊎ ((fd : ℕ) × FirstBound addrs fd × (r ≡ (some fd, fd ∷ open_fds)))

Bound-later :
    (a : Addr) (addrs : List Addr) (open_fds : List ℕ) (r : Option ℕ × List ℕ)
    → Fails a
    → Bound addrs open_fds r
    → Bound (a ∷ addrs) open_fds r
Bound-later a addrs open_fds r h (inl (f, e)) = inl ((h, f), e)
Bound-later a addrs open_fds r h (inr (fd, (before, b, after, e, f, s, t), k)) =
    inr (fd, (a ∷ before, b, after, ap (λ (l : List Addr). a ∷ l) e, (h, f), s, t), k)

pub create_and_bind-Bound :
    (addrs : List Addr) (open_fds : List ℕ)
    → AreNew addrs open_fds
    → Bound addrs open_fds (create_and_bind (some addrs) open_fds)
unfolding create_and_bind bind_loop
create_and_bind-Bound [] open_fds h = inl (tt, refl)
create_and_bind-Bound (a ∷ addrs) open_fds h = elim (Option-cases (a.socket)) [
  | inl e ↦
      subst (Bound (a ∷ addrs) open_fds) (rw e refl)
        (Bound-later a addrs open_fds _ (inl e) (create_and_bind-Bound addrs open_fds h.1))
  | inr (fd, e) ↦ elim (Bool-cases (a.binds)) [
    | inl f ↦ inr (fd, ([], a, addrs, refl, tt, e, f), rw (e, f) refl)
    | inr f ↦
        subst (Bound (a ∷ addrs) open_fds) (rw (e, f, close_fd_self fd open_fds (h.0 fd e)) refl)
          (Bound-later a addrs open_fds _ (inr f) (create_and_bind-Bound addrs open_fds h.1))
  ]
]
