-- ===== src/ConnSupervisor/Loops.antt =====
-- The two loops, and their lock.
use dep2p.Base.{
  ℕ, ◌≡◌, ◌≢◌, refl, ◌∙◌, inl, inr, true, false, List, [], ◌∷◌, Option, some, ◌==◌, if_true,
  if_false, Bool-cases, arith,
}
use dep2p.Base.Predicates.{All}
use dep2p.Keyspace.{PeerId, Bytes, Primitives}
use dep2p.Keyspace.Distance.{IsDigest}
use dep2p.KBucket.Table.{Diversity}
use dep2p.Messages.{AddrInfo}
use dep2p.ConnSupervisor.{
  ConnSupervisor, done, fatal, ◌>>=◌, is_connected, lock, unlock, Supervisor, found_one,
  handle_chan_new_peer_found, try_each, try,
}
use dep2p.ConnSupervisor.Calls.{SoundTables, connect-Connects}

module _ {T : Type 0} where
  lock-done :
      (cs : ConnSupervisor T)
      → cs.try_connect_lock ≡ false
      → lock cs ≡ done (record cs { try_connect_lock = true })
  unfolding lock
  lock-done cs free = if_false _ _ free

  unlock-done :
      (cs : ConnSupervisor T)
      → cs.try_connect_lock ≡ true
      → unlock cs ≡ done (record cs { try_connect_lock = false })
  unfolding unlock
  unlock-done cs held = if_true _ _ held

  unlock-fatal : (cs : ConnSupervisor T) → cs.try_connect_lock ≡ false → unlock cs ≡ fatal
  unfolding unlock
  unlock-fatal cs free = if_false _ _ free

module _ (P : Primitives) (D : Diversity) (now : ℕ) (latency : PeerId → ℕ) (local : Bytes)
    (handshake : PeerId → Option ℕ) (d : IsDigest local) where
  abbrev S : Type 0
  S = Supervisor P D

  unheld-fatal :
      (ps : List AddrInfo) (cs : S)
      → SoundTables P D cs.routing_tables
      → cs.try_connect_lock ≡ false
      → (try_each P D now latency local handshake ps cs >>= λ cs. unlock cs) ≡ fatal
  unfolding try_each
  unheld-fatal [] cs h free = unlock-fatal cs free
  unheld-fatal (p ∷ ps) cs h free =
      let (cs1, e, c) = connect-Connects P D now latency local handshake d p cs h in
      rw (e, unlock-fatal cs1 (c.lock_kept ∙ free)) refl

  held-fatal :
      (p : AddrInfo) (ps : List AddrInfo) (cs : S)
      → SoundTables P D cs.routing_tables
      → cs.try_connect_lock ≡ true
      → (try_each P D now latency local handshake (p ∷ ps) cs >>= λ cs. unlock cs) ≡ fatal
  unfolding try_each
  held-fatal p ps cs h held =
      let (cs1, e, c) = connect-Connects P D now latency local handshake d p cs h in
      rw (e, unlock-done cs1 (c.lock_kept ∙ held))
        (unheld-fatal ps (record cs1 { try_connect_lock = false }) c.tables refl)

  -- With any peer in the list, and the lock free, try ends in a fatal error, whatever the handshakes
  -- find: each turn of its loop unlocks the lock that is taken once before the loop, and it is unlocked
  -- again at the end. The tables are valid and have room in their buckets, and the key of the node is a
  -- digest.
  pub try-fatal :
      (cs : S)
      → SoundTables P D cs.routing_tables
      → cs.try_connect_lock ≡ false
      → cs.peer_addr_infos ≢ []
      → try P D now latency local handshake cs ≡ fatal
  unfolding try
  try-fatal cs h free some_peer = with_peers cs.peer_addr_infos refl
    where
      with_peers :
          (ps : List AddrInfo)
          → cs.peer_addr_infos ≡ ps
          → try P D now latency local handshake cs ≡ fatal
      with_peers [] e = absurd (some_peer e)
      with_peers (p ∷ ps) e =
          rw (e, try, lock-done cs free)
            (held-fatal p ps (record cs { try_connect_lock = true }) h refl)

  -- The peers of the list, less the own one, whose handshake succeeds.
  abbrev pub Joined : PeerId → S → AddrInfo → Type 0
  Joined self cs p =
      p.id ≢ self → (mode : ℕ) → handshake p.id ≡ some mode → is_connected p.id cs ≡ true

  found_turn :
      (self : PeerId) (p : AddrInfo) (cs : S)
      → SoundTables P D cs.routing_tables
      → cs.try_connect_lock ≡ true
      → (cs' : S) × (found_one P D now latency local handshake self p cs ≡ done cs')
        × SoundTables P D cs'.routing_tables
        × (cs'.try_connect_lock ≡ true)
        × ((q : PeerId) → is_connected q cs ≡ true → is_connected q cs' ≡ true)
        × Joined self cs' p
  unfolding found_one
  found_turn self p cs h held = elim (Bool-cases (p.id == self)) [
    | inl own ↦ (cs, if_true _ _ own, h, held, λ q k. k, λ ne. absurd (ne (ground (arith, own))))
    | inr other ↦
        let (cs', e, c) = connect-Connects P D now latency local handshake d p cs h in
        (cs', if_false _ _ other ∙ e, c.tables, c.lock_kept ∙ held, c.keeps, λ _. c.joins)
  ]

  -- handleChanNewPeerFound returns for the peers of its channel, with the lock free again and every
  -- table valid. No connection is lost, and each peer but the node itself with which the handshake
  -- succeeds is connected.
  pub handle_chan_new_peer_found_lem :
      (self : PeerId) (peers : List AddrInfo) (cs : S)
      → SoundTables P D cs.routing_tables
      → cs.try_connect_lock ≡ false
      → (cs' : S) × (handle_chan_new_peer_found P D now latency local handshake self peers cs
          ≡ done cs')
        × SoundTables P D cs'.routing_tables
        × (cs'.try_connect_lock ≡ false)
        × ((q : PeerId) → is_connected q cs ≡ true → is_connected q cs' ≡ true)
        × All (Joined self cs') peers
  unfolding handle_chan_new_peer_found
  handle_chan_new_peer_found_lem self [] cs h free = (cs, refl, h, free, λ q k. k, tt)
  handle_chan_new_peer_found_lem self (p ∷ peers) cs h free =
      let (cs1, e, sound, held, keeps, joined) =
        found_turn self p (record cs { try_connect_lock = true }) h refl in
      let cs2 : S = record cs1 { try_connect_lock = false } in
      let (cs', e2, sound2, free2, keeps2, all) =
        handle_chan_new_peer_found_lem self peers cs2 sound refl in
      (
        cs',
        rw (lock-done cs free, e, unlock-done cs1 held) e2,
        sound2,
        free2,
        λ q k. keeps2 q (unfold is_connected in keeps q (unfold is_connected in k)),
        (λ ne mode f. keeps2 p.id (unfold is_connected in joined ne mode f), all),
      )
