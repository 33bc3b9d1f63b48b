-- ===== src/Dht/Streams.antt =====
-- What a stream of messages comes to at the server.
use dep2p.Base.{
  ◌≡◌, ◌⊎◌, refl, sym, ap, ◌∙◌, inl, inr, Bool, true, false, List, [], ◌∷◌, ◌++◌, Option, none,
  some, if_true, if_false, subst, Bool-cases, Option-cases, arith,
}
use dep2p.Keyspace.{PeerId, Primitives}
use dep2p.KBucket.Table.{Diversity}
use dep2p.Messages.{
  MessageType, put_value, get_value, add_provider, get_providers, find_node, ping, Message,
  Multiaddrs,
}
use dep2p.Dht.Server.{
  Node, find_peer_reply, handle_find_peer_message, handle_ping, handler_for_msg_type, Handler,
  failed, reply, Incoming, message, eof, unreadable, Turn, Round, next, returns, on_reply,
  on_message, on_incoming, new_message_round, written, handle_new_message, Ending, open_still,
  closed, reset, handle_new_stream,
}

module _ (handler_for : MessageType → Option Handler) (from : PeerId) where
  -- A request that is answered: it came in server mode, has a handler, the handler has the message for
  -- an answer, and the answer could be written.
  pub record Served (t : Turn) (answer : Message) : Type 0 where
    pub req : Message
    pub handler : Handler
    pub in_server_mode : t.server ≡ true
    pub arrives : t.incoming ≡ message req
    pub handled : handler_for req.type ≡ some handler
    pub answers : handler from req ≡ reply answer
    pub goes_out : t.writes ≡ true

  -- The requests and their answers, one for one and in order.
  abbrev pub AllServed : List Turn → List Message → Type 0
  AllServed [] [] = Unit {0}
  AllServed [] (m ∷ ms) = ⊥
  AllServed (t ∷ ts) [] = ⊥
  AllServed (t ∷ ts) (m ∷ ms) = Served t m × AllServed ts ms

  -- Where the first turn that is not answered leaves the stream.
  abbrev pub Left : List Turn → Ending → Type 0
  Left [] e = e ≡ open_still
  Left (t ∷ ts) e =
      ((answer : Message) → Served t answer → ⊥)
      × (((t.server ≡ true) × (t.incoming ≡ eof) × (e ≡ closed))
          ⊎ ((t.server ≡ true → t.incoming ≡ eof → ⊥) × (e ≡ reset)))

  -- No handler returns no message and no error.
  abbrev pub Answers : Type 0
  Answers =
      (type : MessageType) (handler : Handler) (req : Message)
      → handler_for type ≡ some handler
      → (handler from req ≡ failed) ⊎ ((m : Message) × (handler from req ≡ reply m))

  -- What a round comes to.
  abbrev Goes : Turn → Round → Type 0
  Goes t r = (m : Message) × (r ≡ next (some m)) × Served t m

  abbrev Stops : Turn → Round → Type 0
  Stops t r =
      (ordered : Bool) × (r ≡ returns ordered)
      × ((answer : Message) → Served t answer → ⊥)
      × (((t.server ≡ true) × (t.incoming ≡ eof) × (ordered ≡ true))
          ⊎ ((t.server ≡ true → t.incoming ≡ eof → ⊥) × (ordered ≡ false)))

  not_handled :
      (t : Turn) (req : Message) (answer : Message)
      → t.incoming ≡ message req
      → handler_for req.type ≡ none
      → Served t answer
      → ⊥
  not_handled t req answer e h s =
      let same : s.req ≡ req = ground (arith, s.arrives, e) in
      let found : handler_for req.type ≡ some s.handler =
        ap (λ (r : Message). handler_for r.type) (sym same) ∙ s.handled in
      absurd (ground (arith, h, found))

  same_reply :
      (t : Turn) (req answer : Message) (handler : Handler)
      → t.incoming ≡ message req
      → handler_for req.type ≡ some handler
      → (s : Served t answer) → handler from req ≡ reply answer
  same_reply t req answer handler e h s =
      let same : s.req ≡ req = ground (arith, s.arrives, e) in
      let found : handler_for req.type ≡ some s.handler =
        ap (λ (r : Message). handler_for r.type) (sym same) ∙ s.handled in
      let equal : handler ≡ s.handler = cc in
      ap (λ k. k from req) equal ∙ ap (s.handler from) (sym same) ∙ s.answers

  reply-cases :
      (t : Turn) (req : Message) (handler : Handler)
      → t.server ≡ true
      → t.incoming ≡ message req
      → handler_for req.type ≡ some handler
      → (handler from req ≡ failed) ⊎ ((m : Message) × (handler from req ≡ reply m))
      → Goes t (on_reply handler_for from t.writes (handler from req))
        ⊎ Stops t (on_reply handler_for from t.writes (handler from req))
  unfolding on_reply
  reply-cases t req handler srv e h (inl bad) = inr (
    false,
    rw (bad, on_reply) refl,
    λ a s. absurd (ground (arith, bad, same_reply t req a handler e h s)),
    inr (λ _ end. absurd (ground (arith, e, end)), refl),
  )
  reply-cases t req handler srv e h (inr (m, good)) = elim (Bool-cases t.writes) [
    | inl w ↦ inl (
      m,
      rw (good, on_reply, w) refl,
      record {
        req = req;
        handler = handler;
        in_server_mode = srv;
        arrives = e;
        handled = h;
        answers = good;
        goes_out = w;
      },
    )
    | inr w ↦ inr (
      false,
      rw (good, on_reply, w) refl,
      λ a s. absurd (ground (arith, w, s.goes_out)),
      inr (λ _ end. absurd (ground (arith, e, end)), refl),
    )
  ]

  incoming-cases :
      Answers
      → (t : Turn) (i : Incoming) → t.server ≡ true
      → t.incoming ≡ i
      → Goes t (on_incoming handler_for from t.writes i)
        ⊎ Stops t (on_incoming handler_for from t.writes i)
  unfolding on_incoming on_message
  incoming-cases all t eof srv e =
      inr (true, refl, λ a s. absurd (ground (arith, s.arrives, e)), inl (srv, e, refl))
  incoming-cases all t unreadable srv e = inr (
    false,
    refl,
    λ a s. absurd (ground (arith, s.arrives, e)),
    inr (λ _ end. absurd (ground (arith, e, end)), refl),
  )
  incoming-cases all t (message req) srv e = elim (Option-cases (handler_for req.type)) [
    | inl h ↦ inr (
      false,
      rw (h, on_message) refl,
      λ a s. not_handled t req a e h s,
      inr (λ _ end. absurd (ground (arith, e, end)), refl),
    )
    | inr (handler, h) ↦
        rw (h, on_message) (reply-cases t req handler srv e h (all req.type handler req h))
  ]

  round-cases :
      Answers
      → (t : Turn)
      → Goes t (new_message_round handler_for from t)
        ⊎ Stops t (new_message_round handler_for from t)
  unfolding new_message_round
  round-cases all t = elim (Bool-cases t.server) [
    | inl srv ↦
        subst (λ r. Goes t r ⊎ Stops t r) (sym (if_true _ _ srv))
          (incoming-cases all t t.incoming srv refl)
    | inr srv ↦ inr (
      false,
      if_false _ _ srv,
      λ a s. absurd (ground (arith, srv, s.in_server_mode)),
      inr (λ on _. absurd (ground (arith, srv, on)), refl),
    )
  ]

  stream_lem :
      Answers
      → (turns : List Turn)
      → let r = handle_new_message handler_for from turns in
        (served : List Turn) × (rest : List Turn) × (turns ≡ served ++ rest)
        × AllServed served r.0
        × Left rest (handle_new_stream r)
  unfolding handle_new_message handle_new_stream written
  stream_lem all [] = ([], [], refl, tt, refl)
  stream_lem all (t ∷ turns) =
      let (served, rest, e, each, left) = stream_lem all turns in
      elim (round-cases all t) [
        | inl (m, goes, s) ↦ (
          t ∷ served,
          rest,
          ap (◌∷◌ t) e,
          rw (goes, handle_new_message) (s, each),
          rw (goes, handle_new_message) left,
        )
        | inr (ordered, stops, bad, well) ↦ (
          [],
          t ∷ turns,
          refl,
          rw (stops, handle_new_message) tt,
          (
            bad,
            elim well [
              | inl (srv, end, yes') ↦ inl (srv, end, rw (stops, handle_new_message, yes') refl)
              | inr (not_end, no') ↦ inr (not_end, rw (stops, handle_new_message, no') refl)
            ],
          ),
        )
      ]

module _ {P : Primitives} {D : Diversity} (A : Multiaddrs) (node : Node P D) where
  find_peer_reply-cases :
      (req : Message) (o : Option (List PeerId))
      → (find_peer_reply A node req o ≡ failed)
        ⊎ ((m : Message) × (find_peer_reply A node req o ≡ reply m))
  unfolding find_peer_reply
  find_peer_reply-cases req none = inl refl
  find_peer_reply-cases req (some closest) = inr (_, refl)

  handler-Answers : (from : PeerId) → Answers (handler_for_msg_type A node) from
  unfolding handler_for_msg_type handle_ping handle_find_peer_message
  handler-Answers from find_node handler req h =
      let same : handle_find_peer_message A node ≡ handler = cc in
      rw (← same) (find_peer_reply-cases req _)
  handler-Answers from ping handler req h =
      let same : handle_ping ≡ handler = cc in rw (← same) (inr (req, refl))
  handler-Answers from put_value handler req h = absurd (ground (arith, h))
  handler-Answers from get_value handler req h = absurd (ground (arith, h))
  handler-Answers from add_provider handler req h = absurd (ground (arith, h))
  handler-Answers from get_providers handler req h = absurd (ground (arith, h))

  -- handleNewMessage writes one answer to each request, that of its handler, in their order, up to the
  -- first turn that is not answered: one not in server mode, with no handler, with an error of the
  -- handler or of the write, or with no message. There handleNewStream closes the stream if it was at
  -- its end in server mode, and resets it otherwise.
  pub handle_new_stream_lem :
      (from : PeerId) (turns : List Turn)
      → let handler_for = handler_for_msg_type A node in
        let r = handle_new_message handler_for from turns in
        (served : List Turn) × (rest : List Turn) × (turns ≡ served ++ rest)
        × AllServed handler_for from served r.0
        × Left handler_for from rest (handle_new_stream r)
  handle_new_stream_lem from turns =
      stream_lem (handler_for_msg_type A node) from (handler-Answers from) turns
