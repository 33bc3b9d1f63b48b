-- ===== src/Dht/Loop.antt =====
-- The states that `rtPeerLoop` reaches.
use dep2p.Base.{
  ℕ, ◌≤◌, ◌<◌, ◌≡◌, refl, sym, subst, ◌∙◌, true, false, inl, inr, Option, none, some, ◌==◌,
  Bool-cases, Option-cases, arith,
}
use dep2p.Base.Predicates.{All}
use dep2p.Keyspace.{PeerId, Primitives}
use dep2p.KBucket.Bucket.{get_peer}
use dep2p.KBucket.Table.{
  Diversity, AddResult, added, present, high_latency, not_diverse, no_capacity, size,
  update_last_successful_outbound_query_at, bucket_at, bucket_id_for_peer, change_bucket,
  mark_all_peers_irreplaceable,
}
use dep2p.KBucket.Change.{Table}
use dep2p.KBucket.Invariant.{IsValid}
use dep2p.KBucket.Invariant.Adding.{add_peer-IsValid}
use dep2p.KBucket.Invariant.Times.{update_last_successful-IsValid}
use dep2p.KBucket.Invariant.Marking.{mark_all-IsValid, Irreplaceable, mark_all-Irreplaceable}
use dep2p.KBucket.Invariant.Capacity.{add_peer-bucketsize}
use dep2p.Dht.{RtPeerLoop, on_timer, start_bootstrap, on_result, on_peer, on_refresh_finished}

module _ (P : Primitives) (D : Diversity) where
  abbrev L : Type 0
  L = RtPeerLoop P D

  -- One turn of the loop: the timer, which fires only where it is set and has not fired; a peer from
  -- the channel; a refresh that has finished.
  pub data Turn : L → L → Type 0 where
    timer_fires : {l : L} → l.timer_armed ≡ true → Turn l (on_timer P D l)
    peer_comes :
        {l l' : L} (now : ℕ) (latency : PeerId → ℕ) (p : PeerId)
        → on_peer P D now latency p l ≡ some l'
        → Turn l l'
    refresh_ends : {l : L} → Turn l (on_refresh_finished P D l)

  pub data Turns : L → L → Type 0 where
    none_yet : {l : L} → Turns l l
    then_turn : {l m n : L} → Turns l m → Turn m n → Turns l n

  pub record IsGood (l : L) : Type 0 where
    pub valid : IsValid P l.table
    pub room : 0 < l.table.bucketsize
    -- The timer runs only behind two refreshes since the bootstrap began, and while none goes on.
    pub armed : l.timer_armed ≡ true → (2 ≤ l.bootstrap_count) × (l.is_bootstrapping ≡ false)

  start-IsGood : (l : L) → IsGood l → IsGood (start_bootstrap P D l)
  unfolding start_bootstrap
  start-IsGood l g = elim (Bool-cases (size l.table == 0)) [
    | inl e ↦ rw e (record { valid = g.valid; room = g.room; armed = λ h. cc })
    | inr e ↦ rw e g
  ]

  time_size :
      (t : Table P D) (p : PeerId) (now : ℕ)
      → (update_last_successful_outbound_query_at P t p now).1.bucketsize ≡ t.bucketsize
  unfolding update_last_successful_outbound_query_at change_bucket
  time_size t p now = elim (Option-cases (get_peer (bucket_at t (bucket_id_for_peer P t p)) p)) [
    | inl e ↦ rw (e, update_last_successful_outbound_query_at) refl
    | inr (q, e) ↦ rw (e, update_last_successful_outbound_query_at) refl
  ]

  result-IsGood :
      (now : ℕ) (p : PeerId) (r : AddResult) (l : L) → IsGood l → IsGood (on_result P D now p r l)
  unfolding on_result
  result-IsGood now p added l g = record { valid = g.valid; room = g.room; armed = g.armed }
  result-IsGood now p present l g = record {
    valid = update_last_successful-IsValid P l.table p now g.valid;
    room = rw (time_size l.table p now) g.room;
    armed = g.armed;
  }
  result-IsGood now p high_latency l g = g
  result-IsGood now p not_diverse l g = g
  result-IsGood now p no_capacity l g = g

  -- A turn for a peer ends, and in a good state.
  peer-IsGood :
      (now : ℕ) (latency : PeerId → ℕ) (p : PeerId) (l : L)
      → IsGood l
      → (l' : L) × (on_peer P D now latency p l ≡ some l') × IsGood l'
  unfolding on_peer
  peer-IsGood now latency p l g =
      let s = start_bootstrap P D l in
      let gs = start-IsGood l g in
      let ((result, t), e, v) =
        add_peer-IsValid P D now latency p s.mode true s.is_bootstrapping s.table gs.valid
          gs.room in
      let kept =
        add_peer-bucketsize P D now latency p s.mode true s.is_bootstrapping s.table gs.valid
          gs.room (result, t) e in
      let gt : IsGood (record s { table = t }) = record {
        valid = v;
        room = rw kept gs.room;
        armed = gs.armed;
      } in
      (
        on_result P D now p result (record s { table = t }),
        rw (e, on_peer) refl,
        result-IsGood now p result _ gt,
      )

  IsSomeGood : Option L → Type 0
  IsSomeGood none = ⊥
  IsSomeGood (some l) = IsGood l

  Turn-IsGood : {l l' : L} → Turn l l' → IsGood l → IsGood l'
  unfolding on_timer on_refresh_finished mark_all_peers_irreplaceable IsSomeGood
  Turn-IsGood {l = l} (timer_fires h) g = record {
    valid = mark_all-IsValid P l.table g.valid;
    room = g.room;
    armed = λ e. cc;
  }
  Turn-IsGood (peer_comes {l = l} now latency p e) g =
      let (m, f, gm) = peer-IsGood now latency p l g in subst (IsSomeGood) (sym f ∙ e) gm
  Turn-IsGood {l = l} refresh_ends g = record {
    valid = g.valid;
    room = g.room;
    armed = λ e. ground (arith, g.armed);
  }

  Turns-IsGood : {l l' : L} → Turns l l' → IsGood l → IsGood l'
  Turns-IsGood none_yet g = g
  Turns-IsGood (then_turn ts t) g = Turn-IsGood t (Turns-IsGood ts g)

  -- From a valid table with a positive bucket size and no timer, in every state that rtPeerLoop
  -- reaches the table is valid, the turn for any further peer ends, a timer that is set has two
  -- refreshes behind it since the bootstrap began and none goes on, and its firing leaves no peer
  -- of the table replaceable.
  pub Turns-IsValid :
      {l l' : L}
      → IsValid P l.table
      → 0 < l.table.bucketsize
      → l.timer_armed ≡ false
      → Turns l l'
      → IsValid P l'.table
        × ((now : ℕ) (latency : PeerId → ℕ) (p : PeerId)
            → (m : L) × (on_peer P D now latency p l' ≡ some m))
        × (l'.timer_armed ≡ true → (2 ≤ l'.bootstrap_count) × (l'.is_bootstrapping ≡ false))
        × All Irreplaceable (on_timer P D l').table.buckets
  unfolding on_timer
  Turns-IsValid {l = l} {l' = l'} v room off ts =
      let g = Turns-IsGood ts (record { valid = v; room = room; armed = λ h. cc }) in
      (
        g.valid,
        λ now latency p. let (m, e, _) = peer-IsGood now latency p l' g in (m, e),
        g.armed,
        mark_all-Irreplaceable l'.table,
      )
