-- ===== src/MessageManager/Streams.antt =====
-- The streams of a sender: none is lost, and a message is written at most twice.
use dep2p.Base.{
  ℕ, ◌≡◌, ◌≢◌, ◌⊎◌, refl, inl, inr, Bool, true, false, List, [], ◌∷◌, Option, none, some, ◌==◌,
  if◌then◌else◌, Bool-cases, Option-cases, arith,
}
use dep2p.MessageManager.{
  Transport, Event, opened, wrote, reset, closed, Line, Attempt, not_ready, broken, answered,
  drop_stream, invalidate, open_stream, prep, prep_or_invalidate, close_stream, finish, on_read,
  on_request_written, request_round, on_message_written, message_round, rounds, send_request,
  send_message,
}

unfoldable pub take_away : ℕ → List ℕ → List ℕ
take_away s [] = []
take_away s (t ∷ ts) = if t == s then ts else t ∷ take_away s ts

-- The streams that were opened and not ended since.
unfoldable pub open_streams : List Event → List ℕ
open_streams [] = []
open_streams (opened s ∷ log) = s ∷ open_streams log
open_streams (wrote s ∷ log) = open_streams log
open_streams (reset s ∷ log) = take_away s (open_streams log)
open_streams (closed s ∷ log) = take_away s (open_streams log)

unfoldable pub held : Option ℕ → List ℕ
held none = []
held (some s) = s ∷ []

-- The open streams are the one that the sender holds, and an invalid sender holds none.
pub record IsKept {S : Type 0} (l : Line S) : Type 0 where
  pub owned : open_streams l.log ≡ held l.sender.stream
  pub idle : l.sender.invalid ≡ true → l.sender.stream ≡ none

take_away_held : (s : ℕ) → take_away s (s ∷ []) ≡ []
unfolding take_away
take_away_held s = ground arith

module _ {S : Type 0} where
  drop_stream-IsKept :
      (l : Line S) → open_streams l.log ≡ held l.sender.stream → IsKept (drop_stream l)
  unfolding drop_stream open_streams held take_away
  drop_stream-IsKept l e = record {
    owned = ground (arith, e, Option-cases l.sender.stream);
    idle = ground (arith, Option-cases l.sender.stream);
  }

  pub invalidate-IsKept : (l : Line S) → IsKept l → IsKept (invalidate l)
  unfolding invalidate
  invalidate-IsKept l k =
      drop_stream-IsKept (record l { sender = record l.sender { invalid = true } }) k.owned

module _ {M : Type 0} (T : Transport M) where
  open_stream-IsKept :
      (r : Option ℕ × T.State) (l : Line T.State)
      → l.sender.stream ≡ none
      → l.sender.invalid ≡ false
      → IsKept l
      → IsKept (open_stream T r l).1
  unfolding open_stream open_streams held
  open_stream-IsKept (none, n) l e v k = ground (arith, k.owned)
  open_stream-IsKept (some s, n) l e v k = ground (arith, k.owned)

  pub prep-IsKept : (l : Line T.State) → IsKept l → IsKept (prep T l).1
  unfolding prep
  prep-IsKept l k = elim (Bool-cases l.sender.invalid) [
    | inl e ↦ simp e k
    | inr e ↦ elim (Option-cases l.sender.stream) [
      | inl o ↦ simp (e, o) (open_stream-IsKept (T.new_stream l.net) l o e k)
      | inr (s, o) ↦ simp (e, o) k
    ]
  ]

  open_stream_holds :
      (r : Option ℕ × T.State) (l : Line T.State) {s : ℕ}
      → (open_stream T r l).0 ≡ some s
      → ((open_stream T r l).1.sender.stream ≡ some s)
        × ((open_stream T r l).1.sender.invalid ≡ l.sender.invalid)
  unfolding open_stream
  open_stream_holds (none, n) l e = absurd (ground (arith, e))
  open_stream_holds (some s, n) l e = (e, refl)

  -- The stream that prep returns is the one that is held.
  prep_holds :
      (l : Line T.State) {s : ℕ}
      → (prep T l).0 ≡ some s
      → ((prep T l).1.sender.stream ≡ some s) × ((prep T l).1.sender.invalid ≡ false)
  unfolding prep
  prep_holds l e = ground (arith, open_stream_holds (T.new_stream l.net) l)

  pub finish-IsKept :
      {A : Type 0} (retry : Bool) (s : ℕ) (a : A) (l : Line T.State)
      → l.sender.stream ≡ some s
      → IsKept l
      → IsKept (finish T retry s a l).1
  unfolding finish close_stream open_streams held take_away
  finish-IsKept retry s a l e k = record {
    owned = ground (arith, k.owned, k.idle);
    idle = ground (arith, k.owned, k.idle);
  }

  on_read-IsKept :
      (retry : Bool) (s : ℕ) (r : Option M × T.State) (l : Line T.State)
      → l.sender.stream ≡ some s
      → IsKept l
      → IsKept (on_read T retry s r l).1
  unfolding on_read
  on_read-IsKept retry s (none, n) l e k = drop_stream-IsKept (record l { net = n }) k.owned
  on_read-IsKept retry s (some mes, n) l e k =
      finish-IsKept retry s mes (record l { net = n }) e (record { owned = k.owned; idle = k.idle })

  on_request_written-IsKept :
      (retry : Bool) (s : ℕ) (r : Bool × T.State) (l : Line T.State)
      → l.sender.stream ≡ some s
      → IsKept l
      → IsKept (on_request_written T retry s r l).1
  unfolding on_request_written
  on_request_written-IsKept retry s (false, n) l e k =
      drop_stream-IsKept (record l { net = n }) k.owned
  on_request_written-IsKept retry s (true, n) l e k =
      on_read-IsKept retry s (T.read s n) (record l { net = n }) e
        (record { owned = k.owned; idle = k.idle })

  on_message_written-IsKept :
      (retry : Bool) (s : ℕ) (r : Bool × T.State) (l : Line T.State)
      → l.sender.stream ≡ some s
      → IsKept l
      → IsKept (on_message_written T retry s r l).1
  unfolding on_message_written
  on_message_written-IsKept retry s (false, n) l e k =
      drop_stream-IsKept (record l { net = n }) k.owned
  on_message_written-IsKept retry s (true, n) l e k =
      finish-IsKept retry s tt (record l { net = n }) e (record { owned = k.owned; idle = k.idle })

  request_round-IsKept :
      (m : M) (retry : Bool) (l : Line T.State) → IsKept l → IsKept (request_round T m retry l).1
  unfolding request_round
  request_round-IsKept m retry l k =
      let k' = prep-IsKept l k in
      elim (Option-cases (prep T l).0) [
        | inl o ↦ rw (o, request_round) k'
        | inr (s, o) ↦
            let l' = (prep T l).1 in
            rw (o, request_round)
              (on_request_written-IsKept retry s (T.write s m l'.net)
                (record l' { log = wrote s ∷ l'.log }) (prep_holds l o).0
                (record { owned = unfold open_streams in k'.owned; idle = k'.idle }))
      ]

  message_round-IsKept :
      (m : M) (retry : Bool) (l : Line T.State) → IsKept l → IsKept (message_round T m retry l).1
  unfolding message_round
  message_round-IsKept m retry l k =
      let k' = prep-IsKept l k in
      elim (Option-cases (prep T l).0) [
        | inl o ↦ rw (o, message_round) k'
        | inr (s, o) ↦
            let l' = (prep T l).1 in
            rw (o, message_round)
              (on_message_written-IsKept retry s (T.write s m l'.net)
                (record l' { log = wrote s ∷ l'.log }) (prep_holds l o).0
                (record { owned = unfold open_streams in k'.owned; idle = k'.idle }))
      ]

  pub prep_or_invalidate-IsKept : (l : Line T.State) → IsKept l → IsKept (prep_or_invalidate T l).1
  unfolding prep_or_invalidate
  prep_or_invalidate-IsKept l k =
      let k' = prep-IsKept l k in
      elim (Option-cases (prep T l).0) [
        | inl o ↦ rw (o, prep_or_invalidate) (invalidate-IsKept (prep T l).1 k')
        | inr (s, o) ↦ rw (o, prep_or_invalidate) k'
      ]

Attempt-cases :
    {A : Type 0} (x : Attempt A)
    → (x ≡ not_ready) ⊎ (x ≡ broken) ⊎ ((a : A) × (ok : Bool) × (x ≡ answered a ok))
Attempt-cases not_ready = inl refl
Attempt-cases broken = inr (inl refl)
Attempt-cases (answered a ok) = inr (inr (a, ok, refl))

-- Two rounds are enough fuel. `P` holds of the state before a round with the flag and of the one
-- after it, and `Q` of what is returned.
module _ {S A : Type 0} (round : Bool → Line S → Attempt A × Line S)
    (Q : Attempt A → Line S → Type 0) where
  abbrev Ends : ℕ → Bool → Line S → Type 0
  Ends fuel retry l =
      (r : Attempt A) × (l' : Line S) × (rounds round fuel retry l ≡ some (r, l')) × Q r l'

  last_round : (l : Line S) → Q (round true l).0 (round true l).1 → Ends 1 true l
  unfolding rounds
  last_round l q = elim (Attempt-cases (round true l).0) [
    | inl e ↦ (not_ready, (round true l).1, rw (e, rounds) refl, rw e at q)
    | inr (inl e) ↦ (broken, (round true l).1, rw (e, rounds) refl, rw e at q)
    | inr (inr (a, ok, e)) ↦ (answered a ok, (round true l).1, rw (e, rounds) refl, rw e at q)
  ]

  pub two_rounds :
      (l : Line S)
      → ((round false l).0 ≢ broken → Q (round false l).0 (round false l).1)
      → ((round false l).0 ≡ broken
          → let l' = (round false l).1 in Q (round true l').0 (round true l').1)
      → Ends 2 false l
  unfolding rounds
  two_rounds l done more =
      let l' = (round false l).1 in
      elim (Attempt-cases (round false l).0) [
        | inl e ↦ (
          not_ready,
          l',
          rw (e, rounds) refl,
          rw e at (done (λ b. absurd (ground (arith, b, e)))),
        )
        | inr (inl e) ↦ let (r, l2, s, q) = last_round l' (more e) in (r, l2, rw (e, rounds) s, q)
        | inr (inr (a, ok, e)) ↦ (
          answered a ok,
          l',
          rw (e, rounds) refl,
          rw e at (done (λ b. absurd (ground (arith, b, e)))),
        )
      ]

module _ {M : Type 0} (T : Transport M) where
  -- SendRequest ends after at most two rounds of its loop. When no stream of the sender was lost
  -- before, none is lost after it, whatever fails: the streams that were opened and neither reset nor
  -- closed are the one that the sender holds, and an invalid sender holds none.
  pub send_request-IsKept :
      (m : M) (l : Line T.State)
      → IsKept l
      → (r : Attempt M) × (l' : Line T.State) × (send_request T m l ≡ some (r, l')) × IsKept l'
  unfolding send_request
  send_request-IsKept m l k =
      let once = request_round-IsKept T m false l k in
      two_rounds (request_round T m) (λ r. IsKept) l (λ _. once)
        (λ _. request_round-IsKept T m true _ once)

  -- The same for SendMessage.
  pub send_message-IsKept :
      (m : M) (l : Line T.State)
      → IsKept l
      → (r : Attempt (Unit {0})) × (l' : Line T.State) × (send_message T m l ≡ some (r, l'))
        × IsKept l'
  unfolding send_message
  send_message-IsKept m l k =
      let once = message_round-IsKept T m false l k in
      two_rounds (message_round T m) (λ r. IsKept) l (λ _. once)
        (λ _. message_round-IsKept T m true _ once)
