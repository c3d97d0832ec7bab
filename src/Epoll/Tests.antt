-- ===== src/Epoll/Tests.antt =====
-- Runs of the server of epoll-example.c.
use technosphere.Common.Bytes.{codes}
use technosphere.Common.{◌≡◌, inl, refl, true, false, none, some, List, [], ◌∷◌}
use technosphere.Epoll.Deaf.{NoneNew, handle_events-deaf}
use technosphere.Epoll.Events.{Accept, Read, Event, close_socket, handle_events}
use technosphere.Epoll.Start.{Server, accepted_on, closed_on, Fcntl, Addr, create_and_bind}

-- The first address has no socket, the second cannot be bound.
abbrev addrs : List Addr
addrs =
    record { socket = none; binds = true }
    ∷ record { socket = some 4; binds = false }
    ∷ record { socket = some 4; binds = true }
    ∷ []

second_bound : create_and_bind (some addrs) (3 ∷ []) ≡ (some 4, 4 ∷ 3 ∷ [])
unfolding create_and_bind
second_bound = refl

abbrev plain_fcntl : Fcntl
plain_fcntl = record { getfl = some 2; setfl = true }

abbrev server : Server
server = record { sfd = 4; efd = 5; sockets = 4 ∷ []; watched = 4 ∷ []; output = []; notices = [] }

abbrev events : List Event
events =
    record {
      fd = 4;
      err = false;
      hup = false;
      readable = true;
      accepts =
          Accept.accepted 6 (some (codes "::1", codes "4242")) plain_fcntl true ∷ Accept.again ∷ [];
      reads = [];
    }
    ∷ record {
      fd = 6;
      err = false;
      hup = false;
      readable = true;
      accepts = [];
      reads = Read.chunk (codes "hello") (some 5) ∷ Read.end_of_file ∷ [];
    }
    ∷ []

abbrev served : Server
served = record {
  sfd = 4;
  efd = 5;
  sockets = 4 ∷ [];
  watched = 4 ∷ [];
  output = codes "hello";
  notices = closed_on 6 ∷ (accepted_on 6 (codes "::1") (codes "4242") ∷ []);
}

run : handle_events events server ≡ some served
unfolding handle_events
run = refl

abbrev failing : Event
failing = record { fd = 4; err = true; hup = false; readable = true; accepts = []; reads = [] }

-- With the client 6, which sends on afterwards.
abbrev busy : Server
busy = record {
  sfd = 4;
  efd = 5;
  sockets = 6 ∷ 4 ∷ [];
  watched = 6 ∷ 4 ∷ [];
  output = [];
  notices = [];
}

abbrev data_event : Event
data_event = record {
  fd = 6;
  err = false;
  hup = false;
  readable = true;
  accepts = [];
  reads = Read.chunk (codes "hello") (some 5) ∷ [];
}

abbrev deaf : Server
deaf = record {
  sfd = 4;
  efd = 5;
  sockets = 6 ∷ [];
  watched = 6 ∷ [];
  output = codes "hello";
  notices = [];
}

handle_events-deaf_example : NoneNew busy deaf
unfolding handle_events close_socket
handle_events-deaf_example =
    handle_events-deaf failing (data_event ∷ []) busy deaf refl refl (inl refl, λ s e. tt) refl
