-- ===== src/MessageManager/Retries.antt =====
-- How often a message is written, and what the sender has after it.
use dep2p.Base.{
  ℕ, suc, ◌+◌, ◌≤◌, ◌<◌, ◌≡◌, ◌≢◌, refl, inl, inr, Bool, true, false, List, [], ◌∷◌, Option, none,
  some, ltb, if◌then◌else◌, Bool-cases, Option-cases, arith,
}
use dep2p.MessageManager.{
  Transport, Event, opened, wrote, reset, closed, Line, Attempt, not_ready, broken, answered,
  drop_stream, open_stream, prep, close_stream, finish, on_read, on_request_written, request_round,
  send_request, stream_reuse_tries,
}
use dep2p.MessageManager.Streams.{two_rounds}

pub writes : List Event → ℕ
writes [] = 0
writes (wrote s ∷ log) = suc (writes log)
writes (opened s ∷ log) = writes log
writes (reset s ∷ log) = writes log
writes (closed s ∷ log) = writes log

-- What a round comes to: whether it wrote the message, the counter, and the stream that is left.
module _ {S : Type 0} where
  abbrev pub Round : {A : Type 0} → (retry : Bool) (l : Line S) → Attempt A → Line S → Type 0
  Round retry l not_ready l' =
      (writes l'.log ≡ writes l.log) × (l'.sender.single_mes ≡ l.sender.single_mes)
  Round retry l broken l' =
      (writes l'.log ≡ writes l.log + 1)
      × (l'.sender.single_mes ≡ l.sender.single_mes)
      × (l'.sender.stream ≡ none)
  Round retry l (answered a ok) l' =
      (writes l'.log ≡ writes l.log + 1)
      × (stream_reuse_tries < l.sender.single_mes → l'.sender.stream ≡ none)
      × (l'.sender.single_mes ≡ (
          if ltb stream_reuse_tries l.sender.single_mes
          then l.sender.single_mes
          else if retry
          then l.sender.single_mes + 1
          else l.sender.single_mes))

  drop_stream_lem :
      (l : Line S)
      → (writes (drop_stream l).log ≡ writes l.log)
        × ((drop_stream l).sender.single_mes ≡ l.sender.single_mes)
        × ((drop_stream l).sender.stream ≡ none)
  unfolding drop_stream writes
  drop_stream_lem l = ground (arith, Option-cases l.sender.stream)

module _ {M : Type 0} (T : Transport M) where
  open_stream_lem :
      (r : Option ℕ × T.State) (l : Line T.State)
      → (writes (open_stream T r l).1.log ≡ writes l.log)
        × ((open_stream T r l).1.sender.single_mes ≡ l.sender.single_mes)
  unfolding open_stream writes
  open_stream_lem (none, n) l = (refl, refl)
  open_stream_lem (some s, n) l = (refl, refl)

  prep_lem :
      (l : Line T.State)
      → (writes (prep T l).1.log ≡ writes l.log)
        × ((prep T l).1.sender.single_mes ≡ l.sender.single_mes)
  unfolding prep
  prep_lem l = ground (arith, open_stream_lem (T.new_stream l.net) l)

  finish-Round :
      {A : Type 0} (retry : Bool) (s : ℕ) (a : A) (l l0 : Line T.State)
      → writes l.log ≡ writes l0.log + 1
      → l.sender.single_mes ≡ l0.sender.single_mes
      → let r = finish T retry s a l in Round retry l0 r.0 r.1
  unfolding finish close_stream writes
  finish-Round retry s a l l0 w e = elim (Bool-cases (ltb stream_reuse_tries l.sender.single_mes)) [
    | inl spent ↦ rw spent (w, λ _. refl, ground arith)
    | inr reused ↦ elim (Bool-cases retry) [
      | inl again ↦ rw (reused, again) (w, λ h. absurd (ground arith), ground arith)
      | inr first ↦ rw (reused, first) (w, λ h. absurd (ground arith), ground arith)
    ]
  ]

  broken-Round :
      (A : Type 0) (retry : Bool) (l l0 : Line T.State)
      → writes l.log ≡ writes l0.log + 1
      → l.sender.single_mes ≡ l0.sender.single_mes
      → Round {A = A} retry l0 broken (drop_stream l)
  broken-Round A retry l l0 w e = ground (arith, drop_stream_lem l)

  on_read-Round :
      (retry : Bool) (s : ℕ) (r : Option M × T.State) (l l0 : Line T.State)
      → writes l.log ≡ writes l0.log + 1
      → l.sender.single_mes ≡ l0.sender.single_mes
      → let x = on_read T retry s r l in Round retry l0 x.0 x.1
  unfolding on_read
  on_read-Round retry s (none, n) l l0 w e = broken-Round M retry (record l { net = n }) l0 w e
  on_read-Round retry s (some mes, n) l l0 w e =
      finish-Round retry s mes (record l { net = n }) l0 w e

  on_request_written-Round :
      (retry : Bool) (s : ℕ) (r : Bool × T.State) (l l0 : Line T.State)
      → writes l.log ≡ writes l0.log + 1
      → l.sender.single_mes ≡ l0.sender.single_mes
      → let x = on_request_written T retry s r l in Round retry l0 x.0 x.1
  unfolding on_request_written
  on_request_written-Round retry s (false, n) l l0 w e =
      broken-Round M retry (record l { net = n }) l0 w e
  on_request_written-Round retry s (true, n) l l0 w e =
      on_read-Round retry s (T.read s n) (record l { net = n }) l0 w e

  request_round-Round :
      (m : M) (retry : Bool) (l : Line T.State)
      → let x = request_round T m retry l in Round retry l x.0 x.1
  unfolding request_round
  request_round-Round m retry l =
      let (same, count) = prep_lem l in
      elim (Option-cases (prep T l).0) [
        | inl o ↦ rw (o, request_round) (same, count)
        | inr (s, o) ↦
            let l' = (prep T l).1 in
            rw (o, request_round)
              (on_request_written-Round retry s (T.write s m l'.net)
                (record l' { log = wrote s ∷ l'.log }) l (unfold writes in omega (arith, same))
                count)
      ]

  -- What SendRequest comes to, from the state of the sender before it.
  abbrev pub SendOutcome : Line T.State → Attempt M → Line T.State → Type 0
  SendOutcome l not_ready l' = writes l'.log ≤ writes l.log + 1
  SendOutcome l broken l' = (writes l'.log ≡ writes l.log + 2) × (l'.sender.stream ≡ none)
  SendOutcome l (answered mes ok) l' =
      (writes l.log < writes l'.log)
      × (writes l'.log ≤ writes l.log + 2)
      × (stream_reuse_tries < l.sender.single_mes → l'.sender.stream ≡ none)

  first-Outcome :
      (l l' : Line T.State) (r : Attempt M)
      → r ≢ broken
      → Round false l r l'
      → l.sender.single_mes ≤ 4
      → SendOutcome l r l' × (l'.sender.single_mes ≤ 4)
  first-Outcome l l' not_ready ne h small = (ground arith, ground arith)
  first-Outcome l l' broken ne h small = absurd (ne refl)
  first-Outcome l l' (answered a ok) ne h small = ((ground arith, ground arith, h.1), ground arith)

  second-Outcome :
      (l l' l2 : Line T.State) (r : Attempt M)
      → Round {A = M} false l broken l'
      → Round true l' r l2
      → l.sender.single_mes ≤ 4
      → SendOutcome l r l2 × (l2.sender.single_mes ≤ 4)
  second-Outcome l l' l2 not_ready h k small = (ground arith, ground arith)
  second-Outcome l l' l2 broken h k small = ((ground arith, k.2), ground arith)
  second-Outcome l l' l2 (answered a ok) h k small =
      ((ground arith, ground arith, λ over. k.1 (ground arith)), ground arith)

  -- SendRequest returns. With an error of a write or a read it has written the message twice and
  -- holds no stream; with an answer it has written it once or twice, and holds no stream when more
  -- than three messages had needed a second try before. The count of these messages stays within 4.
  pub send_request-Outcome :
      (m : M) (l : Line T.State)
      → l.sender.single_mes ≤ 4
      → (r : Attempt M) × (l' : Line T.State) × (send_request T m l ≡ some (r, l'))
        × SendOutcome l r l'
        × (l'.sender.single_mes ≤ 4)
  unfolding send_request
  send_request-Outcome m l small =
      let once = request_round-Round m false l in
      let l1 = (request_round T m false l).1 in
      let (r, l', e, (outcome, count)) =
        two_rounds (request_round T m) (λ r l'. SendOutcome l r l' × (l'.sender.single_mes ≤ 4)) l
          (λ ne. first-Outcome l _ _ ne once small)
          (λ e. second-Outcome l l1 _ _ (rw e at once) (request_round-Round m true l1) small) in
      (r, l', e, outcome, count)
