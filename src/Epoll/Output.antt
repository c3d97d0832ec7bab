-- ===== src/Epoll/Output.antt =====
-- What the server writes to descriptor 1, and which sockets it watches.
use technosphere.Common.Bytes.{Bytes}
use technosphere.Common.{ℕ, ◌≡◌, some, List, [], ◌∷◌, ◌++◌, ◌==◌, if◌then◌else◌, take}
use technosphere.Epoll.Events.{Read, Event, is_broken}
use technosphere.Epoll.Start.{Server}

-- The data before the first answer that is none, as far as it is written.
abbrev pub sent : List Read → Bytes
sent (Read.chunk buf (some n) ∷ answers) = take n buf ++ sent answers
sent _ = []

abbrev pub printed_by : ℕ → Event → Bytes
printed_by sfd e = if is_broken e then [] else if sfd == e.fd then [] else sent (e.reads)

-- What the events bring from the clients.
abbrev pub printed : ℕ → List Event → Bytes
printed sfd [] = []
printed sfd (e ∷ events) = printed_by sfd e ++ printed sfd events

-- Every open socket is watched, and no other.
abbrev pub IsServing : Server → Type 0
IsServing s = s.watched ≡ s.sockets

-- What a step keeps.
abbrev Kept : Server → Bytes → Server → Type 0
Kept s more s' = (s'.sfd ≡ s.sfd) × IsServing s' × (s'.output ≡ s.output ++ more)
