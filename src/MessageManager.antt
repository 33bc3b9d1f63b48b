-- ===== src/MessageManager.antt =====
-- internal/net/message_manager.go: the senders of messages, one for each peer, and their streams.
-- What the code takes from the network is the parameter `Transport`.
pub mod Streams
pub mod Retries
pub mod Validity
pub mod Pool
pub mod Owners
pub mod Tests
use dep2p.Base.{
  ℕ, zero, suc, ◌+◌, ◌≡◌, Bool, true, false, List, [], ◌∷◌, Option, none, some, ltb, ◌==◌,
  if◌then◌else◌,
}
use dep2p.Base.Maps.{Map, fetch, put, delete}
use dep2p.Keyspace.{PeerId}

-- `NewStream`, `WriteMsg`, `ctxReadMsg` and `Close`: none and false are errors.
pub record Transport (M : Type 0) : Type 1 where
  pub State : Type 0
  pub new_stream : State → Option ℕ × State
  pub write : ℕ → M → State → Bool × State
  pub read : ℕ → State → Option M × State
  pub close : ℕ → State → Bool × State

-- What was done with the streams of a sender.
pub data Event : Type 0 where
  opened : ℕ → Event
  wrote : ℕ → Event
  reset : ℕ → Event
  closed : ℕ → Event

-- `peerMessageSender`: the stream s, and the two counters.
pub record Sender : Type 0 where
  pub stream : Option ℕ
  pub invalid : Bool
  pub single_mes : ℕ

-- A sender with the network, and the newest event first.
pub record Line (S : Type 0) : Type 0 where
  pub sender : Sender
  pub net : S
  pub log : List Event

-- The end of a round of the loop of SendRequest or SendMessage: prep has an error, a write or a read
-- has one, or the message that was read, with whether the stream was closed without an error.
pub data Attempt (A : Type 0) : Type 0 where
  not_ready : Attempt A
  broken : Attempt A
  answered : A → Bool → Attempt A

abbrev pub stream_reuse_tries : ℕ
stream_reuse_tries = 3

-- `Reset` of the stream that is held, and the nil after it.
unfoldable pub drop_stream : {S : Type 0} → Line S → Line S
drop_stream l = elim l.sender.stream [
  | none ↦ l
  | some s ↦ record l { sender = record l.sender { stream = none }; log = reset s ∷ l.log }
]

unfoldable pub invalidate : {S : Type 0} → Line S → Line S
unfolding drop_stream
invalidate l = drop_stream (record l { sender = record l.sender { invalid = true } })

module _ {M : Type 0} (T : Transport M) where
  open T use {State, new_stream, write, read, close}

  unfoldable pub open_stream : Option ℕ × State → Line State → Option ℕ × Line State
  open_stream (none, n) l = (none, record l { net = n })
  open_stream (some s, n) l = (
    some s,
    record l { sender = record l.sender { stream = some s }; net = n; log = opened s ∷ l.log },
  )

  -- none is its error, else the stream that the sender then has.
  unfoldable pub prep : Line State → Option ℕ × Line State
  unfolding open_stream
  prep l =
      if l.sender.invalid
      then (none, l)
      else elim l.sender.stream [ some s ↦ (some s, l) | none ↦ open_stream (new_stream l.net) l ]

  unfoldable pub prep_or_invalidate : Line State → Bool × Line State
  unfolding prep invalidate
  prep_or_invalidate l =
      let (ready, l') = prep l in elim ready [ some s ↦ (true, l') | none ↦ (false, invalidate l') ]

  unfoldable pub close_stream :
      {A : Type 0} → ℕ → A → Bool × State → Line State → Attempt A × Line State
  close_stream s a (ok, n) l = (
    answered a ok,
    record l { sender = record l.sender { stream = none }; net = n; log = closed s ∷ l.log },
  )

  -- The end of a round with no error.
  unfoldable pub finish :
      {A : Type 0} → (retry : Bool) → ℕ → A → Line State → Attempt A × Line State
  unfolding close_stream
  finish retry s a l =
      if ltb stream_reuse_tries l.sender.single_mes
      then close_stream s a (close s l.net) l
      else if retry
      then (
        answered a true,
        record l { sender = record l.sender { single_mes = l.sender.single_mes + 1 } },
      )
      else (answered a true, l)

  unfoldable pub on_read : Bool → ℕ → Option M × State → Line State → Attempt M × Line State
  unfolding drop_stream finish
  on_read retry s (none, n) l = (broken, drop_stream (record l { net = n }))
  on_read retry s (some mes, n) l = finish retry s mes (record l { net = n })

  unfoldable pub on_request_written : Bool → ℕ → Bool × State → Line State → Attempt M × Line State
  unfolding drop_stream on_read
  on_request_written retry s (false, n) l = (broken, drop_stream (record l { net = n }))
  on_request_written retry s (true, n) l = on_read retry s (read s n) (record l { net = n })

  -- A round of the loop of `SendRequest`.
  unfoldable pub request_round : M → Bool → Line State → Attempt M × Line State
  unfolding prep on_request_written
  request_round m retry l =
      let (ready, l') = prep l in
      elim ready [
        | none ↦ (not_ready, l')
        | some s ↦
            on_request_written retry s (write s m l'.net) (record l' { log = wrote s ∷ l'.log })
      ]

  unfoldable pub on_message_written :
      Bool → ℕ → Bool × State → Line State → Attempt (Unit {0}) × Line State
  unfolding drop_stream finish
  on_message_written retry s (false, n) l = (broken, drop_stream (record l { net = n }))
  on_message_written retry s (true, n) l = finish retry s tt (record l { net = n })

  -- A round of the loop of `SendMessage`.
  unfoldable pub message_round : M → Bool → Line State → Attempt (Unit {0}) × Line State
  unfolding prep on_message_written
  message_round m retry l =
      let (ready, l') = prep l in
      elim ready [
        | none ↦ (not_ready, l')
        | some s ↦
            on_message_written retry s (write s m l'.net) (record l' { log = wrote s ∷ l'.log })
      ]

-- The loop of either: a round that breaks is made once more, with a new stream. none is fuel that has
-- run out.
unfoldable pub rounds :
    {S A : Type 0}
    → (round : Bool → Line S → Attempt A × Line S) → ℕ
    → Bool
    → Line S
    → Option (Attempt A × Line S)
rounds round zero retry l = none
rounds round (suc fuel) retry l =
    let (result, l') = round retry l in
    elim result [
      | not_ready ↦ some (not_ready, l')
      | answered a ok ↦ some (answered a ok, l')
      | broken ↦ elim retry [ true ↦ some (broken, l') | false ↦ rounds round fuel true l' ]
    ]

module _ {M : Type 0} (T : Transport M) where
  unfoldable pub send_request : M → Line T.State → Option (Attempt M × Line T.State)
  unfolding rounds request_round
  send_request m l = rounds (request_round T m) 2 false l

  unfoldable pub send_message : M → Line T.State → Option (Attempt (Unit {0}) × Line T.State)
  unfolding rounds message_round
  send_message m l = rounds (message_round T m) 2 false l

-- `messageSenderImpl`: the map of the peers' senders, by number, and the senders that were made, with the
-- peer of each.
pub record Made : Type 0 where
  pub p : PeerId
  pub sender : Sender
  pub log : List Event

pub record MessageSender : Type 0 where
  pub strmap : Map ℕ
  pub senders : Map Made
  pub next : ℕ

abbrev pub new_sender : Sender
new_sender = record { stream = none; invalid = false; single_mes = 0 }

-- The start of `messageSenderForPeer`: the number of the sender, and whether it is a new one.
unfoldable pub sender_for_peer : PeerId → MessageSender → (ℕ × Bool) × MessageSender
unfolding fetch put
sender_for_peer p m = elim (fetch p m.strmap) [
  | some n ↦ ((n, false), m)
  | none ↦ (
    (m.next, true),
    record {
      strmap = put p m.next m.strmap;
      senders = put m.next (record { p = p; sender = new_sender; log = [] }) m.senders;
      next = m.next + 1;
    },
  )
]

-- Its end, when prepOrInvalidate of the new sender had an error: the sender that is returned instead,
-- if there is one.
unfoldable pub forget_failed : PeerId → ℕ → MessageSender → Option ℕ × MessageSender
unfolding fetch delete
forget_failed p n m = elim (fetch p m.strmap) [
  | some current ↦
      if n == current then (none, record m { strmap = delete p m.strmap }) else (some current, m)
  | none ↦ (none, m)
]

-- `OnDisconnect`: the sender that the goroutine has to invalidate, if there is one.
unfoldable pub on_disconnect : PeerId → MessageSender → Option ℕ × MessageSender
unfolding fetch delete
on_disconnect p m = elim (fetch p m.strmap) [
  | none ↦ (none, m)
  | some n ↦ (some n, record m { strmap = delete p m.strmap })
]

-- A sender after a call that its lock guards.
unfoldable pub change_sender : {S : Type 0} → ℕ → Line S → MessageSender → MessageSender
unfolding fetch put
change_sender n l m = elim (fetch n m.senders) [
  | none ↦ m
  | some made ↦ record m {
    senders = put n (record made { sender = l.sender; log = l.log }) m.senders;
  }
]
