-- ===== src/Echo/Tests.antt =====
-- The theorems on the echo servers: a client on the descriptor 5 that says "hi" and ends.
use technosphere.Common.{
  ℕ, zero, suc, ◌≡◌, ◌↔◌, inr, refl, true, false, none, some, List, arith, [], ◌∷◌, replicate,
}
use technosphere.Common.Bytes.{codes}
use technosphere.Echo.Calls.{Fd, Call, Io, Event, Recv, Sent, Setup}
use technosphere.Echo.Contract.{IsEcho, TookAll, offered_to, sent_to, received_from}
use technosphere.Echo.Live.{live, IsSafe}
use technosphere.Echo.Poll
use technosphere.Echo.Kqueue
use technosphere.Echo.Poll.Contract
use technosphere.Echo.Poll.Clients
use technosphere.Echo.Poll.Stale
use technosphere.Echo.Poll.Bounds

abbrev setup : Setup
setup = record { socket = some 3; getfl = some 2; binds = true; listens = true }

abbrev idle : Event
idle = record {
  readable = false;
  accepted = none;
  getfl = none;
  received = Recv.at_end;
  sent = Sent.took 1024;
  end_errno = none;
}

abbrev arrives : Event
arrives = record idle { readable = true; accepted = some 5; getfl = some 2 }

abbrev says : Event
says = record idle { readable = true; received = Recv.chunk (codes "hi") }

abbrev ends : Event
ends = record idle { readable = true }

abbrev events : List (List Event)
events = (arrives ∷ []) ∷ (idle ∷ (says ∷ [])) ∷ (idle ∷ (ends ∷ [])) ∷ []

abbrev served : Poll.Server
served = record {
  master = 3;
  slaves = [];
  io = record {
    buffer = codes "hi";
    again = false;
    calls =
        Call.closes (some 5)
        ∷ Call.shuts (some 5)
        ∷ Call.gets (some 5) []
        ∷ Call.sends (some 5) (codes "hi") 1024
        ∷ Call.gets (some 5) (codes "hi")
        ∷ Call.sets_flags (some 5) 2050
        ∷ Call.accepts (some 5)
        ∷ Call.sets_flags (some 3) 2050
        ∷ [];
  };
}

poll_run : Poll.main setup events ≡ Poll.running served
unfolding Poll.main
poll_run = refl

served-TookAll : TookAll (some 5) (served.io.calls)
served-TookAll = (inr (omega arith), tt)

main-IsEcho_example :
    IsEcho (served.io.calls)
    × (sent_to (some 5) (served.io.calls) ≡ received_from (some 5) (served.io.calls))
main-IsEcho_example = Contract.main-IsEcho setup events served poll_run (some 5) served-TookAll

main-Known_example : Clients.Known served
main-Known_example = Clients.main-Known setup events served poll_run

-- A client that is at its end while errno is EAGAIN.
abbrev stale : Poll.Server
stale = record {
  master = 3;
  slaves = some 5 ∷ [];
  io = record { buffer = []; again = true; calls = [] };
}

stale-Stale : Stale.Stale (some 5) idle ends refl refl refl stale
stale-Stale = record { one = refl; client = refl; again = refl }

rounds-Stale_example :
    (s' : Poll.Server) × (Poll.rounds (replicate 100 (idle ∷ (ends ∷ []))) stale ≡ some s')
    × Stale.Stale (some 5) idle ends refl refl refl s'
rounds-Stale_example = Stale.rounds-Stale (some 5) idle ends refl refl refl 100 stale stale-Stale

-- With 32 clients, on the descriptors from 5 on.
abbrev descriptors_from : ℕ → ℕ → List Fd
descriptors_from n zero = []
descriptors_from n (suc k) = some n ∷ descriptors_from (suc n) k

abbrev crowd : Poll.Server
crowd = record stale { slaves = descriptors_from 5 32 }

rounds_bounds_example :
    (Poll.rounds ((idle ∷ []) ∷ []) crowd ≡ none) ↔ Bounds.Crowded ((idle ∷ []) ∷ []) crowd
rounds_bounds_example = Bounds.rounds_bounds ((idle ∷ []) ∷ []) crowd

-- The same client at the other servers.
abbrev opened : Io
opened = record { buffer = []; again = false; calls = Call.accepts (some 5) ∷ [] }

opened-IsEcho : IsEcho (opened.calls)
unfolding offered_to received_from
opened-IsEcho fd = refl

abbrev kevents : List Kqueue.KEvent
kevents =
    record { reads = true; ident = some 5; event = says }
    ∷ record { reads = true; ident = some 5; event = ends }
    ∷ []

kevents-Reports : Kqueue.Reports 3 kevents opened
unfolding Kqueue.handle live
kevents-Reports = (inr (inr refl), (inr (inr refl), tt))

handle_all-IsSafe_example :
    IsEcho ((Kqueue.handle_all 3 kevents opened).calls)
    × IsSafe ((Kqueue.handle_all 3 kevents opened).calls)
handle_all-IsSafe_example =
    Kqueue.handle_all-IsSafe 3 kevents opened kevents-Reports opened-IsEcho tt
