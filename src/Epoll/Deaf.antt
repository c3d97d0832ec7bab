-- ===== src/Epoll/Deaf.antt =====
-- After an error on the listening socket.
use mathlib.Core.Option.{some-injective}
use mathlib.Core.Path.{subst}
use technosphere.Common.Bytes.{Bytes}
use technosphere.Common.{
  ℕ, ◌≡◌, ◌⊎◌, inl, inr, refl, sym, ap, ◌∙◌, Bool, true, false, some, List, [], ◌∷◌, ◌==◌, arith,
  Bool-cases,
}
use technosphere.Epoll.Events.{
  Event, is_broken, close_socket, after_read, handle_event, handle_events, handle_event-broken,
  handle_event-reads, handle_events-cons,
}
use technosphere.Epoll.Start.{Server, close_fd, NotIn}

-- The descriptor is in the list.
abbrev pub IsIn : ℕ → List ℕ → Type 0
IsIn fd [] = ⊥
IsIn fd (x ∷ xs) = (x ≡ fd) ⊎ IsIn fd xs

-- `epoll_wait` reports watched descriptors only.
abbrev pub Delivered : List Event → Server → Type 0
Delivered [] s = Unit
Delivered (e ∷ events) s =
    IsIn (e.fd) (s.watched) × ((s' : Server) → handle_event e s ≡ some s' → Delivered events s')

-- No socket comes new.
abbrev pub NoneNew : Server → Server → Type 0
NoneNew s s' = (fd : ℕ) → IsIn fd (s'.sockets) → IsIn fd (s.sockets)

NotIn-IsIn : (a b : ℕ) (xs : List ℕ) → NotIn a xs → IsIn b xs → a == b ≡ false
NotIn-IsIn a b [] h i = elim i [ ]
NotIn-IsIn a b (x ∷ xs) h (inl e) = ground (arith, h.0, e)
NotIn-IsIn a b (x ∷ xs) h (inr i) = NotIn-IsIn a b xs h.1 i

NotIn-close_fd_same : (fd : ℕ) (xs : List ℕ) → NotIn fd (close_fd fd xs)
NotIn-close_fd_same fd [] = tt
NotIn-close_fd_same fd (x ∷ xs) = elim (Bool-cases (x == fd)) [
  | inl e ↦ rw e (NotIn-close_fd_same fd xs)
  | inr e ↦ rw e (e, NotIn-close_fd_same fd xs)
]

NotIn-close_fd : (a fd : ℕ) (xs : List ℕ) → NotIn a xs → NotIn a (close_fd fd xs)
NotIn-close_fd a fd [] h = tt
NotIn-close_fd a fd (x ∷ xs) h = elim (Bool-cases (x == fd)) [
  | inl e ↦ rw e (NotIn-close_fd a fd xs h.1)
  | inr e ↦ rw e (h.0, NotIn-close_fd a fd xs h.1)
]

IsIn-close_fd : (a fd : ℕ) (xs : List ℕ) → IsIn a (close_fd fd xs) → IsIn a xs
IsIn-close_fd a fd [] h = h
IsIn-close_fd a fd (x ∷ xs) h = elim (Bool-cases (x == fd)) [
  | inl e ↦ inr (IsIn-close_fd a fd xs (rw e at h))
  | inr e ↦ elim (rw e at h) [ inl f ↦ inl f | inr i ↦ inr (IsIn-close_fd a fd xs i) ]
]

-- A server that does not watch its listening socket, after a step.
abbrev IsDeaf : Server → Server → Type 0
IsDeaf s s' = (s'.sfd ≡ s.sfd) × NotIn (s.sfd) (s'.watched) × NoneNew s s'

close_socket-IsDeaf :
    (fd : ℕ) (s : Server) → NotIn (s.sfd) (s.watched) → IsDeaf s (close_socket fd s)
unfolding close_socket
close_socket-IsDeaf fd s h =
    (refl, NotIn-close_fd (s.sfd) fd (s.watched) h, λ a i. IsIn-close_fd a fd (s.sockets) i)

after_read-IsDeaf :
    (fd : ℕ) (r : Bool × Bytes) (s : Server)
    → NotIn (s.sfd) (s.watched)
    → IsDeaf s (after_read fd r s)
unfolding after_read close_socket
after_read-IsDeaf fd (true, output) s h =
    (refl, NotIn-close_fd (s.sfd) fd (s.watched) h, λ a i. IsIn-close_fd a fd (s.sockets) i)
after_read-IsDeaf fd (false, output) s h = (refl, h, λ a i. i)

handle_event-IsDeaf :
    (e : Event) (s s' : Server)
    → NotIn (s.sfd) (s.watched)
    → IsIn (e.fd) (s.watched)
    → handle_event e s ≡ some s'
    → IsDeaf s s'
handle_event-IsDeaf e s s' h i k = elim (Bool-cases (is_broken e)) [
  | inl b ↦
      subst (IsDeaf s) (some-injective _ _ (sym (handle_event-broken e s b) ∙ k))
        (close_socket-IsDeaf (e.fd) s h)
  | inr b ↦
      let (r, read, after) =
        handle_event-reads e s s' b (NotIn-IsIn (s.sfd) (e.fd) (s.watched) h i) k in
      subst (IsDeaf s) after (after_read-IsDeaf (e.fd) r s h)
]

handle_events-IsDeaf :
    (events : List Event) (s s' : Server)
    → NotIn (s.sfd) (s.watched)
    → Delivered events s
    → handle_events events s ≡ some s'
    → NoneNew s s'
unfolding handle_events
handle_events-IsDeaf [] s s' h d k = subst (NoneNew s) (some-injective _ _ k) (λ a i. i)
handle_events-IsDeaf (e ∷ events) s s' h d k =
    let (next, step, rest) = handle_events-cons e events s s' k in
    let (same, deaf, none_new) = handle_event-IsDeaf e s next h d.0 step in
    λ a i. none_new a (handle_events-IsDeaf events next s' (rw same deaf) (d.1 next step) rest a i)

-- An error on the listening socket closes it, and the server runs on: whatever happens on the sockets
-- that it still watches, no connection is accepted any more.
pub handle_events-deaf :
    (e : Event) (events : List Event) (s s' : Server)
    → is_broken e ≡ true
    → e.fd ≡ s.sfd
    → Delivered events (close_socket (e.fd) s)
    → handle_events (e ∷ events) s ≡ some s'
    → NoneNew s s'
unfolding close_socket
handle_events-deaf e events s s' b l d k =
    let (next, step, rest) = handle_events-cons e events s s' k in
    let closed : next ≡ close_socket (e.fd) s =
      some-injective _ _ (sym step ∙ handle_event-broken e s b) in
    let run : handle_events events (close_socket (e.fd) s) ≡ some s' =
      ap (handle_events events) (sym closed) ∙ rest in
    let unwatched : NotIn (s.sfd) (close_fd (e.fd) (s.watched)) =
      rw l (NotIn-close_fd_same (s.sfd) (s.watched)) in
    λ a i.
      IsIn-close_fd a (e.fd) (s.sockets)
        (handle_events-IsDeaf events (close_socket (e.fd) s) s' unwatched d run a i)
