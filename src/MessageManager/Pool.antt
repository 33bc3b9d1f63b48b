-- ===== src/MessageManager/Pool.antt =====
-- The senders of all peers of message_manager.go, used by any number of goroutines.
pub mod Changes
pub mod Steps
use dep2p.Base.{
  ℕ, ◌+◌, ◌≤◌, ◌<◌, ◌≡◌, ◌≢◌, ◌⊎◌, refl, sym, ap, ◌∙◌, inl, inr, Bool, true, false, not, List, [],
  ◌∷◌, Option, none, some, ◌==◌, if◌then◌else◌, if_true, if_false, Bool-cases, Option-cases, arith,
}
use dep2p.Base.Maps.{Map, fetch, put, delete, fetch-put, fetch-delete}
use dep2p.Base.Predicates.{elem, keep}
use dep2p.Keyspace.{PeerId}
use dep2p.MessageManager.{
  Transport, Attempt, Sender, Line, Made, MessageSender, new_sender, prep_or_invalidate, invalidate,
  send_request, send_message, sender_for_peer, forget_failed, on_disconnect, change_sender,
}
use dep2p.MessageManager.Streams.{
  IsKept, open_streams, held, prep_or_invalidate-IsKept, invalidate-IsKept, send_request-IsKept,
  send_message-IsKept,
}

-- The senders with what the goroutines have still to do: the invalidations of OnDisconnect, and the
-- senders that messageSenderForPeer could not prepare and has to take out of the map. `gave_up` has
-- those for which either could not get the lock, since its context had ended.
pub record Pool : Type 0 where
  pub m : MessageSender
  pub invalidating : List ℕ
  pub failed : List ℕ
  pub gave_up : List ℕ

abbrev pub at_rest : {S : Type 0} → Made → S → Line S
at_rest made net = record { sender = made.sender; net = net; log = made.log }

-- A goroutine of OnDisconnect has ended.
abbrev pub without : ℕ → List ℕ → List ℕ
without n = keep (λ k. not (k == n))

-- What holds between the steps: each sender keeps its streams, and is in the map, or waits for its
-- invalidation, or was given up, or is invalid.
pub record IsSound (x : Pool) : Type 0 where
  pub fresh : (n : ℕ) (made : Made) → fetch n x.m.senders ≡ some made → n < x.m.next
  pub kept :
      (n : ℕ) (made : Made)
      → fetch n x.m.senders ≡ some made
      → IsKept {S = Unit {0}} (at_rest made tt)
  pub owner :
      (n : ℕ) (made : Made)
      → fetch n x.m.senders ≡ some made
      → (fetch made.p x.m.strmap ≡ some n)
        ⊎ (elem n x.invalidating ≡ true)
        ⊎ (elem n x.gave_up ≡ true)
        ⊎ (made.sender.invalid ≡ true)
  pub useless :
      (n : ℕ)
      → elem n x.failed ≡ true
      → (elem n x.gave_up ≡ true)
        ⊎ ((made : Made) × (fetch n x.m.senders ≡ some made) × (made.sender.invalid ≡ true))

abbrev pub start : Pool
start = record {
  m = record { strmap = []; senders = []; next = 0 };
  invalidating = [];
  failed = [];
  gave_up = [];
}

-- A step of a goroutine, with the network in any state.
module _ {M : Type 0} (T : Transport M) where
  pub data Step : Pool → Pool → Type 0 where
    look_up : (x : Pool) (p : PeerId) → Step x (record x { m = (sender_for_peer p x.m).1 })
    prepare :
        (x : Pool) (n : ℕ) (made : Made) (net : T.State)
        → fetch n x.m.senders ≡ some made
        → Step x (record x {
          m = change_sender n (prep_or_invalidate T (at_rest made net)).1 x.m;
          failed = if (prep_or_invalidate T (at_rest made net)).0 then x.failed else n ∷ x.failed;
        })
    give_up :
        (x : Pool) (n : ℕ) → Step x (record x { failed = n ∷ x.failed; gave_up = n ∷ x.gave_up })
    forget :
        (x : Pool) (n : ℕ) (made : Made)
        → fetch n x.m.senders ≡ some made
        → elem n x.failed ≡ true
        → Step x (record x { m = (forget_failed made.p n x.m).1 })
    request :
        (x : Pool) (n : ℕ) (made : Made) (net : T.State) (mes : M) (r : Attempt M)
        (l : Line T.State)
        → fetch n x.m.senders ≡ some made
        → send_request T mes (at_rest made net) ≡ some (r, l)
        → Step x (record x { m = change_sender n l x.m })
    message :
        (x : Pool) (n : ℕ) (made : Made) (net : T.State) (mes : M) (r : Attempt (Unit {0}))
        (l : Line T.State)
        → fetch n x.m.senders ≡ some made
        → send_message T mes (at_rest made net) ≡ some (r, l)
        → Step x (record x { m = change_sender n l x.m })
    disconnect :
        (x : Pool) (p : PeerId) (n : ℕ)
        → (on_disconnect p x.m).0 ≡ some n
        → Step x (record x { m = (on_disconnect p x.m).1; invalidating = n ∷ x.invalidating })
    invalidated :
        (x : Pool) (n : ℕ) (made : Made) (net : T.State)
        → fetch n x.m.senders ≡ some made
        → elem n x.invalidating ≡ true
        → Step x (record x {
          m = change_sender n (invalidate (at_rest made net)) x.m;
          invalidating = without n x.invalidating;
        })
    abandon :
        (x : Pool) (n : ℕ)
        → elem n x.invalidating ≡ true
        → Step x (record x { invalidating = without n x.invalidating; gave_up = n ∷ x.gave_up })

  pub data Reached : Pool → Type 0 where
    starts : Reached start
    steps : {x y : Pool} → Reached x → Step x y → Reached y
