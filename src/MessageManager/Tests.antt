-- ===== src/MessageManager/Tests.antt =====
-- Runs of the message senders, and each theorem at a concrete input.
use dep2p.Base.{
  ℕ, ◌+◌, ◌≤◌, ◌≡◌, ◌≢◌, ◌⊎◌, refl, true, false, not, [], ◌∷◌, none, some, ◌==◌, arith,
}
use dep2p.Base.Maps.{fetch}
use dep2p.Base.Predicates.{elem}
use dep2p.MessageManager.{
  Transport, opened, wrote, reset, Sender, Line, Attempt, answered, Made, new_sender, send_request,
  sender_for_peer, forget_failed, change_sender,
}
use dep2p.MessageManager.Streams
use dep2p.MessageManager.Streams.{IsKept, open_streams, held}
use dep2p.MessageManager.Retries
use dep2p.MessageManager.Retries.{SendOutcome}
use dep2p.MessageManager.Pool.{
  Pool, start, Step, look_up, give_up, forget, request, Reached, starts, steps,
}
use dep2p.MessageManager.Owners

-- A network in which the stream 0 does not take writes, and each stream is the next number.
abbrev stale : Transport ℕ
stale = record {
  State = ℕ;
  new_stream = λ n. (some n, n + 1);
  write = λ s m n. (not (s == 0), n);
  read = λ s n. (some 7, n);
  close = λ s n. (true, n);
}

abbrev on_stream : Line ℕ
on_stream = record {
  sender = record { stream = some 0; invalid = false; single_mes = 2 };
  net = 1;
  log = opened 0 ∷ [];
}

-- The stale stream is given up, and the message goes over a new one.
retried :
    send_request stale 5 on_stream
    ≡ some (
      answered 7 true,
      record {
        sender = record { stream = some 1; invalid = false; single_mes = 3 };
        net = 2;
        log = wrote 1 ∷ opened 1 ∷ reset 0 ∷ wrote 0 ∷ opened 0 ∷ [];
      },
    )
unfolding send_request
retried = refl

on_stream-IsKept : IsKept on_stream
unfolding open_streams held
on_stream-IsKept = record { owned = refl; idle = λ e. cc }

send_request-IsKept_example :
    (r : Attempt ℕ) × (l' : Line ℕ) × (send_request stale 5 on_stream ≡ some (r, l')) × IsKept l'
send_request-IsKept_example = Streams.send_request-IsKept stale 5 on_stream on_stream-IsKept

send_request-Outcome_example :
    (r : Attempt ℕ) × (l' : Line ℕ) × (send_request stale 5 on_stream ≡ some (r, l'))
    × SendOutcome stale on_stream r l'
    × (l'.sender.single_mes ≤ 4)
send_request-Outcome_example = Retries.send_request-Outcome stale 5 on_stream (omega arith)

-- A call makes the sender of the peer 9, and another call sends a request over it.
abbrev used : Sender
used = record { stream = some 3; invalid = false; single_mes = 0 }

abbrev line : Line ℕ
line = record { sender = used; net = 4; log = wrote 3 ∷ opened 3 ∷ [] }

abbrev made : Made
made = record { p = 9; sender = new_sender; log = [] }

abbrev made_used : Made
made_used = record { p = 9; sender = used; log = wrote 3 ∷ opened 3 ∷ [] }

abbrev shared : Pool
shared = record {
  m = record { strmap = (9, 0) ∷ []; senders = (0, made_used) ∷ []; next = 1 };
  invalidating = [];
  failed = [];
  gave_up = [];
}

abbrev looked_up : Pool
looked_up = record {
  m = record { strmap = (9, 0) ∷ []; senders = (0, made) ∷ []; next = 1 };
  invalidating = [];
  failed = [];
  gave_up = [];
}

look_up_9 : Step stale start looked_up
unfolding sender_for_peer
look_up_9 = look_up start 9

request_0 : Step stale looked_up shared
unfolding change_sender send_request
request_0 = request looked_up 0 made 3 5 (answered 7 true) line refl refl

shared-Reached : Reached stale shared
shared-Reached = steps (steps starts look_up_9) request_0

Reached-owner_example :
    (open_streams made_used.log ≡ held made_used.sender.stream)
    × (made_used.sender.stream ≢ none
        → (fetch 9 shared.m.strmap ≡ some 0)
          ⊎ (elem 0 shared.invalidating ≡ true)
          ⊎ (elem 0 shared.gave_up ≡ true))
Reached-owner_example = Owners.Reached-owner stale shared-Reached 0 made_used (unfold fetch in refl)

-- When the first call gives up its wait for the lock, it takes the sender out of the map with no
-- invalidation: the stream of the other call stays open, and no OnDisconnect finds it.
abbrev lost : Pool
lost = record {
  m = record { strmap = []; senders = (0, made_used) ∷ []; next = 1 };
  invalidating = [];
  failed = 0 ∷ [];
  gave_up = 0 ∷ [];
}

lost-Reached : Reached stale lost
unfolding forget_failed
lost-Reached =
    let given_up : Pool = record shared { failed = 0 ∷ []; gave_up = 0 ∷ [] } in
    steps (steps shared-Reached (give_up shared 0))
      (forget given_up 0 made_used (unfold fetch in refl) refl)
