-- ===== src/MessageManager/Validity.antt =====
-- A sender is made invalid by invalidate alone, and stays invalid.
use dep2p.Base.{
  ℕ, ◌≡◌, refl, ◌∙◌, inl, inr, Bool, true, false, ◌∷◌, Option, none, some, Option-cases, arith,
}
use dep2p.MessageManager.{
  Transport, wrote, Line, Attempt, drop_stream, invalidate, open_stream, prep, prep_or_invalidate,
  close_stream, finish, on_read, on_request_written, request_round, on_message_written,
  message_round, send_request, send_message,
}
use dep2p.MessageManager.Streams.{two_rounds}

drop_stream-invalid : {S : Type 0} (l : Line S) → (drop_stream l).sender.invalid ≡ l.sender.invalid
unfolding drop_stream
drop_stream-invalid l = ground (arith, Option-cases l.sender.stream)

pub invalidate-invalid : {S : Type 0} (l : Line S) → (invalidate l).sender.invalid ≡ true
unfolding invalidate
invalidate-invalid l =
    drop_stream-invalid (record l { sender = record l.sender { invalid = true } })

module _ {M : Type 0} (T : Transport M) where
  open_stream-invalid :
      (r : Option ℕ × T.State) (l : Line T.State)
      → (open_stream T r l).1.sender.invalid ≡ l.sender.invalid
  unfolding open_stream
  open_stream-invalid (none, n) l = refl
  open_stream-invalid (some s, n) l = refl

  pub prep-invalid : (l : Line T.State) → (prep T l).1.sender.invalid ≡ l.sender.invalid
  unfolding prep
  prep-invalid l = ground (arith, open_stream-invalid (T.new_stream l.net) l)

  finish-invalid :
      {A : Type 0} (retry : Bool) (s : ℕ) (a : A) (l : Line T.State)
      → (finish T retry s a l).1.sender.invalid ≡ l.sender.invalid
  unfolding finish close_stream
  finish-invalid retry s a l = ground arith

  on_read-invalid :
      (retry : Bool) (s : ℕ) (r : Option M × T.State) (l : Line T.State)
      → (on_read T retry s r l).1.sender.invalid ≡ l.sender.invalid
  unfolding on_read
  on_read-invalid retry s (none, n) l = drop_stream-invalid (record l { net = n })
  on_read-invalid retry s (some mes, n) l = finish-invalid retry s mes (record l { net = n })

  on_request_written-invalid :
      (retry : Bool) (s : ℕ) (r : Bool × T.State) (l : Line T.State)
      → (on_request_written T retry s r l).1.sender.invalid ≡ l.sender.invalid
  unfolding on_request_written
  on_request_written-invalid retry s (false, n) l = drop_stream-invalid (record l { net = n })
  on_request_written-invalid retry s (true, n) l =
      on_read-invalid retry s (T.read s n) (record l { net = n })

  on_message_written-invalid :
      (retry : Bool) (s : ℕ) (r : Bool × T.State) (l : Line T.State)
      → (on_message_written T retry s r l).1.sender.invalid ≡ l.sender.invalid
  unfolding on_message_written
  on_message_written-invalid retry s (false, n) l = drop_stream-invalid (record l { net = n })
  on_message_written-invalid retry s (true, n) l = finish-invalid retry s tt (record l { net = n })

  request_round-invalid :
      (m : M) (retry : Bool) (l : Line T.State)
      → (request_round T m retry l).1.sender.invalid ≡ l.sender.invalid
  unfolding request_round
  request_round-invalid m retry l = elim (Option-cases (prep T l).0) [
    | inl o ↦ rw (o, request_round) (prep-invalid l)
    | inr (s, o) ↦
        let l' = (prep T l).1 in
        rw (o, request_round)
          (on_request_written-invalid retry s (T.write s m l'.net)
              (record l' { log = wrote s ∷ l'.log })
            ∙ prep-invalid l)
  ]

  message_round-invalid :
      (m : M) (retry : Bool) (l : Line T.State)
      → (message_round T m retry l).1.sender.invalid ≡ l.sender.invalid
  unfolding message_round
  message_round-invalid m retry l = elim (Option-cases (prep T l).0) [
    | inl o ↦ rw (o, message_round) (prep-invalid l)
    | inr (s, o) ↦
        let l' = (prep T l).1 in
        rw (o, message_round)
          (on_message_written-invalid retry s (T.write s m l'.net)
              (record l' { log = wrote s ∷ l'.log })
            ∙ prep-invalid l)
  ]

  pub send_request-invalid :
      (m : M) (l l' : Line T.State) (r : Attempt M)
      → send_request T m l ≡ some (r, l')
      → l'.sender.invalid ≡ l.sender.invalid
  unfolding send_request
  send_request-invalid m l l' r e =
      let once = request_round-invalid m false l in
      let (r2, l2, e2, same) =
        two_rounds (request_round T m) (λ r x. x.sender.invalid ≡ l.sender.invalid) l (λ _. once)
          (λ _. request_round-invalid m true _ ∙ once) in
      let equal : l2 ≡ l' = cc in rw (← equal) same

  pub send_message-invalid :
      (m : M) (l l' : Line T.State) (r : Attempt (Unit {0}))
      → send_message T m l ≡ some (r, l')
      → l'.sender.invalid ≡ l.sender.invalid
  unfolding send_message
  send_message-invalid m l l' r e =
      let once = message_round-invalid m false l in
      let (r2, l2, e2, same) =
        two_rounds (message_round T m) (λ r x. x.sender.invalid ≡ l.sender.invalid) l (λ _. once)
          (λ _. message_round-invalid m true _ ∙ once) in
      let equal : l2 ≡ l' = cc in rw (← equal) same

  -- A call that fails to prepare a sender leaves it invalid.
  pub prep_or_invalidate-invalid :
      (l : Line T.State)
      → (prep_or_invalidate T l).0 ≡ false
      → (prep_or_invalidate T l).1.sender.invalid ≡ true
  unfolding prep_or_invalidate
  prep_or_invalidate-invalid l = elim (Option-cases (prep T l).0) [
    | inl o ↦ rw (o, prep_or_invalidate) (λ _. invalidate-invalid (prep T l).1)
    | inr (s, o) ↦ rw (o, prep_or_invalidate) (λ e. absurd (ground (arith, e)))
  ]

  pub prep_or_invalidate_kept :
      (l : Line T.State)
      → l.sender.invalid ≡ true
      → (prep_or_invalidate T l).1.sender.invalid ≡ true
  unfolding prep_or_invalidate
  prep_or_invalidate_kept l e = elim (Option-cases (prep T l).0) [
    | inl o ↦ rw (o, prep_or_invalidate) (invalidate-invalid (prep T l).1)
    | inr (s, o) ↦ rw (o, prep_or_invalidate) (prep-invalid l ∙ e)
  ]
