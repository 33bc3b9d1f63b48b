-- ===== src/Dht/Modes.antt =====
-- The mode of the node and its stream handlers.
use dep2p.Base.{
  ℕ, ◌≡◌, ◌≢◌, ◌⊎◌, refl, sym, true, false, inl, inr, List, [], ◌∷◌, ◌==◌, ==_iff, if◌then◌else◌,
  Bool-cases, arith,
}
use dep2p.Base.Predicates.{All, keep}
use dep2p.Dht.{
  ModeState, Stream, member, set_handlers, drop_handler, remove_handlers, stays_open,
  move_to_server_mode, move_to_client_mode, set_mode, mode_server, mode_client,
}

set_one :
    (q p : ℕ) (hs : List ℕ)
    → member q hs ≡ true
    → member q (if member p hs then hs else p ∷ hs) ≡ true
unfolding member
set_one q p hs h = ground arith

set_handlers-keeps :
    (q : ℕ) (ps hs : List ℕ) → member q hs ≡ true → member q (set_handlers ps hs) ≡ true
unfolding set_handlers
set_handlers-keeps q [] hs h = h
set_handlers-keeps q (p ∷ ps) hs h = set_handlers-keeps q ps _ (set_one q p hs h)

own_handler : (p : ℕ) (hs : List ℕ) → member p (if member p hs then hs else p ∷ hs) ≡ true
unfolding member
own_handler p hs = ground arith

set_handlers-All : (ps hs : List ℕ) → All (λ p. member p (set_handlers ps hs) ≡ true) ps
unfolding set_handlers
set_handlers-All [] hs = tt
set_handlers-All (p ∷ ps) hs = (
  set_handlers-keeps p ps _ (own_handler p hs),
  set_handlers-All ps (if member p hs then hs else p ∷ hs),
)

dropped : (p : ℕ) (hs : List ℕ) → member p (drop_handler p hs) ≡ false
unfolding member drop_handler
dropped p [] = refl
dropped p (q ∷ hs) = ground (arith, dropped p hs)

drop-keeps : (q p : ℕ) (hs : List ℕ) → member q hs ≡ false → member q (drop_handler p hs) ≡ false
unfolding member drop_handler
drop-keeps q p [] h = refl
drop-keeps q p (r ∷ hs) h = ground (arith, drop-keeps q p hs)

remove_handlers-keeps :
    (q : ℕ) (ps hs : List ℕ) → member q hs ≡ false → member q (remove_handlers ps hs) ≡ false
unfolding remove_handlers
remove_handlers-keeps q [] hs h = h
remove_handlers-keeps q (p ∷ ps) hs h = remove_handlers-keeps q ps _ (drop-keeps q p hs h)

remove_handlers-All : (ps hs : List ℕ) → All (λ p. member p (remove_handlers ps hs) ≡ false) ps
unfolding remove_handlers
remove_handlers-All [] hs = tt
remove_handlers-All (p ∷ ps) hs =
    (remove_handlers-keeps p ps _ (dropped p hs), remove_handlers-All ps (drop_handler p hs))

module _ (server_protocols : List ℕ) where
  -- What a mode means: a server handles each of its protocols, a client none of them.
  pub record IsServed (s : ModeState) : Type 0 where
    pub server : s.mode ≡ mode_server → All (λ p. member p s.handlers ≡ true) server_protocols
    pub client : s.mode ≡ mode_client → All (λ p. member p s.handlers ≡ false) server_protocols

  -- The incoming streams of the protocols of a server are closed, and no other one is.
  abbrev pub ClosesServed : List Stream → List Stream → Type 0
  ClosesServed [] after = after ≡ []
  ClosesServed (k ∷ before) after =
      ((k.inbound ≡ true) × (member k.protocol server_protocols ≡ true) × ClosesServed before after)
      ⊎ (((k.inbound ≡ false) ⊎ (member k.protocol server_protocols ≡ false))
          × ((rest : List Stream) × (after ≡ k ∷ rest) × ClosesServed before rest))

  keep-ClosesServed : (ks : List Stream) → ClosesServed ks (keep (stays_open server_protocols) ks)
  unfolding keep stays_open
  keep-ClosesServed [] = refl
  keep-ClosesServed (k ∷ ks) =
      let rest = keep-ClosesServed ks in
      elim (Bool-cases (member k.protocol server_protocols)) [
        | inr e ↦ rw e (inr (inr refl, (keep (stays_open server_protocols) ks, refl, rest)))
        | inl e ↦ elim (Bool-cases k.inbound) [
          | inl f ↦ rw (e, f) (inl (refl, refl, rest))
          | inr f ↦ rw (e, f) (inr (inl refl, (keep (stays_open server_protocols) ks, refl, rest)))
        ]
      ]

  -- setMode keeps the handlers as the mode asks for. To the mode of a server or a client, it has no
  -- error and that is the mode afterwards; to the present mode it has no error and changes nothing;
  -- to any other mode it has an error and changes nothing. A change to the mode of a client closes
  -- the incoming streams of the protocols of a server and no other stream, and no other call closes
  -- a stream.
  pub set_mode-IsServed :
      (m : ℕ) (s : ModeState)
      → IsServed s
      → let r = set_mode server_protocols m s in
        IsServed r.1
        × ((m ≡ mode_server) ⊎ (m ≡ mode_client) → (r.0 ≡ true) × (r.1.mode ≡ m))
        × (m ≢ mode_server → m ≢ mode_client → m ≢ s.mode → (r.0 ≡ false) × (r.1 ≡ s))
        × (m ≡ s.mode → (r.0 ≡ true) × (r.1 ≡ s))
        × (m ≡ mode_client → s.mode ≢ m → ClosesServed s.streams r.1.streams)
        × (m ≢ mode_client → r.1.streams ≡ s.streams)
  unfolding set_mode move_to_server_mode move_to_client_mode
  set_mode-IsServed m s v = elim (Bool-cases (m == s.mode)) [
    | inl e ↦
        let same : m ≡ s.mode = (==_iff m s.mode).0 e in
        rw e (
          v,
          λ _. (refl, sym same),
          λ _ _ n. absurd (n same),
          λ _. (refl, refl),
          λ _ n. absurd (n (sym same)),
          λ _. refl,
        )
    | inr e ↦
        let other : m ≢ s.mode = λ q. ground arith in
        elim (Bool-cases (m == 1)) [
          | inl a ↦
              let one : m ≡ 1 = (==_iff m 1).0 a in
              rw (e, a)
                (
                  record {
                    server = λ _. set_handlers-All server_protocols s.handlers;
                    client = λ h. absurd (omega arith);
                  },
                  λ _. (refl, sym one),
                  λ n _ _. absurd (n one),
                  λ q. absurd (other q),
                  λ c _. absurd (omega arith),
                  λ _. refl,
                )
          | inr a ↦ elim (Bool-cases (m == 2)) [
            | inl b ↦
                let two : m ≡ 2 = (==_iff m 2).0 b in
                rw (e, a, b)
                  (
                    record {
                      server = λ h. absurd (omega arith);
                      client = λ _. remove_handlers-All server_protocols s.handlers;
                    },
                    λ _. (refl, sym two),
                    λ _ n _. absurd (n two),
                    λ q. absurd (other q),
                    λ _ _. keep-ClosesServed s.streams,
                    λ n. absurd (n two),
                  )
            | inr b ↦
                rw (e, a, b)
                  (
                    v,
                    λ h. absurd (ground arith),
                    λ _ _ _. (refl, refl),
                    λ q. absurd (other q),
                    λ c _. absurd (ground arith),
                    λ _. refl,
                  )
          ]
        ]
  ]
