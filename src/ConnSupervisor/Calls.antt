-- ===== src/ConnSupervisor/Calls.antt =====
-- What a turn of the loops does for a peer.
use dep2p.Base.{
  ℕ, ◌<◌, ◌≡◌, refl, sym, ap, ◌∙◌, inl, inr, Bool, true, false, Option, none, some, ◌==◌,
  if◌then◌else◌, if_true, if_false, Bool-cases, Option-cases, arith,
}
use dep2p.Base.Maps.{Map, fetch, put, fetch-put}
use dep2p.Keyspace.{PeerId, Bytes, Primitives}
use dep2p.Keyspace.Distance.{IsDigest}
use dep2p.KBucket.Bucket.{get_peer}
use dep2p.KBucket.Table.{
  Diversity, AddResult, added, present, high_latency, not_diverse, no_capacity, new_routing_table,
  bucket_at, bucket_id_for_peer, change_bucket, update_last_useful_at,
  update_last_successful_outbound_query_at,
}
use dep2p.KBucket.Change.{Table}
use dep2p.KBucket.Invariant.{IsValid}
use dep2p.KBucket.Invariant.Adding.{add_peer-IsValid}
use dep2p.KBucket.Invariant.Capacity.{add_peer-bucketsize}
use dep2p.KBucket.Invariant.Methods.{new_routing_table-IsValid}
use dep2p.KBucket.Invariant.Times.{update_last_useful_at-IsValid, update_last_successful-IsValid}
use dep2p.Messages.{AddrInfo}
use dep2p.ConnSupervisor.{
  Actuator, done, add_conn, is_connected, add_addrs, Supervisor, new_table, renewed,
  renew_kbucket_routing_table, table_for, shook_hands, connect,
}

module _ (P : Primitives) (D : Diversity) where
  -- A valid table with room in its buckets.
  abbrev pub Sound : Table P D → Type 0
  Sound t = IsValid P t × (0 < t.bucketsize)

  unfoldable pub SoundTables : Map (Table P D) → Type 0
  SoundTables tables = (mode : ℕ) (t : Table P D) → fetch mode tables ≡ some t → Sound t

  useful_size :
      (t : Table P D) (p : PeerId) (time : ℕ)
      → (update_last_useful_at P t p time).1.bucketsize ≡ t.bucketsize
  unfolding update_last_useful_at change_bucket
  useful_size t p time = elim (Option-cases (get_peer (bucket_at t (bucket_id_for_peer P t p)) p)) [
    | inl e ↦ rw (e, update_last_useful_at) refl
    | inr (q, e) ↦ rw (e, update_last_useful_at) refl
  ]

  successful_size :
      (t : Table P D) (p : PeerId) (time : ℕ)
      → (update_last_successful_outbound_query_at P t p time).1.bucketsize ≡ t.bucketsize
  unfolding update_last_successful_outbound_query_at change_bucket
  successful_size t p time =
      elim (Option-cases (get_peer (bucket_at t (bucket_id_for_peer P t p)) p)) [
        | inl e ↦ rw (e, update_last_successful_outbound_query_at) refl
        | inr (q, e) ↦ rw (e, update_last_successful_outbound_query_at) refl
      ]

  renewed-Sound : (p : PeerId) (r : AddResult) (t : Table P D) → Sound t → Sound (renewed P D p r t)
  unfolding renewed
  renewed-Sound p added t (v, pos) =
      let t1 = (update_last_successful_outbound_query_at P t p 0).1 in
      (
        update_last_useful_at-IsValid P t1 p 0 (update_last_successful-IsValid P t p 0 v),
        rw (useful_size t1 p 0, successful_size t p 0) pos,
      )
  renewed-Sound p present t s = s
  renewed-Sound p high_latency t s = s
  renewed-Sound p not_diverse t s = s
  renewed-Sound p no_capacity t s = s

  renew-Sound :
      (now : ℕ) (latency : PeerId → ℕ) (mode : ℕ) (p : PeerId) (t : Table P D)
      → Sound t
      → (t' : Table P D) × (renew_kbucket_routing_table P D now latency mode p t ≡ some t')
        × Sound t'
  unfolding renew_kbucket_routing_table
  renew-Sound now latency mode p t (v, pos) =
      let ((r, t1), e, v1) = add_peer-IsValid P D now latency p mode true false t v pos in
      let kept = add_peer-bucketsize P D now latency p mode true false t v pos (r, t1) e in
      (
        renewed P D p r t1,
        rw (e, renew_kbucket_routing_table) refl,
        renewed-Sound p r t1 (v1, rw kept pos),
      )

  is_connected-add_conn :
      (p : AddrInfo) (c : Bool) (mode : Option ℕ) (q : PeerId) (cs : Supervisor P D)
      → is_connected q (add_conn p c mode cs) ≡ (if p.id == q then c else is_connected q cs)
  unfolding is_connected add_conn
  is_connected-add_conn p c mode q cs =
      let now : Actuator = record { peer_info = p; mode = mode; connected = c } in
      elim (Bool-cases (p.id == q)) [
        | inl e ↦ rw (e, is_connected, fetch-put p.id q now cs.actuators ∙ if_true _ _ e) refl
        | inr e ↦ rw (e, is_connected, fetch-put p.id q now cs.actuators ∙ if_false _ _ e) refl
      ]

  -- A peer that is not connected may be written, and the others stay connected.
  still :
      (p : AddrInfo) (c : Bool) (mode : Option ℕ) (cs : Supervisor P D)
      → is_connected p.id cs ≡ false
      → (q : PeerId) → is_connected q cs ≡ true
      → is_connected q (add_conn p c mode cs) ≡ true
  still p c mode cs away q k = is_connected-add_conn p c mode q cs ∙ elim (Bool-cases (p.id == q)) [
    | inr other ↦ if_false _ _ other ∙ k
    | inl same ↦
        let here : p.id ≡ q = ground (arith, same) in
        let not_there : is_connected q cs ≡ false = ap (λ i. is_connected i cs) (sym here) ∙ away in
        absurd (ground (arith, k, not_there))
  ]

  module _ (now : ℕ) (latency : PeerId → ℕ) (local : Bytes) (handshake : PeerId → Option ℕ)
      (d : IsDigest local) where
    -- What a turn for a peer keeps, and that the peer is connected if the handshake succeeds.
    pub record Connects (p : AddrInfo) (cs cs' : Supervisor P D) : Type 0 where
      pub tables : SoundTables cs'.routing_tables
      pub lock_kept : cs'.try_connect_lock ≡ cs.try_connect_lock
      pub keeps : (q : PeerId) → is_connected q cs ≡ true → is_connected q cs' ≡ true
      pub joins : (mode : ℕ) → handshake p.id ≡ some mode → is_connected p.id cs' ≡ true

    table_for-Sound :
        (mode : ℕ) (cs : Supervisor P D)
        → SoundTables cs.routing_tables
        → Sound (table_for P D now latency local handshake mode cs)
    unfolding table_for new_table SoundTables new_routing_table
    table_for-Sound mode cs h = elim (Option-cases (fetch mode cs.routing_tables)) [
      | inl e ↦
          rw (e, table_for)
            (
              new_routing_table-IsValid P D.State 50 local 3600000000000 360000000000000 none d,
              omega arith,
            )
      | inr (t, e) ↦ rw (e, table_for) (h mode t e)
    ]

    put-SoundTables :
        (mode : ℕ) (t : Table P D) (tables : Map (Table P D))
        → SoundTables tables
        → Sound t
        → SoundTables (put mode t tables)
    unfolding SoundTables
    put-SoundTables mode t tables h s m t' e =
        let now_there = sym (fetch-put mode m t tables) ∙ e in
        elim (Bool-cases (mode == m)) [
          | inl same ↦ let equal : t ≡ t' = cc in rw (← equal) s
          | inr other ↦ h m t' (sym (if_false _ _ other) ∙ now_there)
        ]

    shook_hands-Connects :
        (p : AddrInfo) (o : Option ℕ) (cs : Supervisor P D)
        → handshake p.id ≡ o
        → is_connected p.id cs ≡ false
        → SoundTables cs.routing_tables
        → (cs' : Supervisor P D) × (shook_hands P D now latency local handshake p o cs ≡ done cs')
          × Connects p cs cs'
    unfolding shook_hands
    shook_hands-Connects p none cs e away h = (
      add_conn p false none cs,
      refl,
      record {
        tables = unfold add_conn in h;
        lock_kept = unfold add_conn in refl;
        keeps = still p false none cs away;
        joins = λ mode f. absurd (ground (arith, e, f));
      },
    )
    shook_hands-Connects p (some mode) cs e away h =
        let (t, r, s) =
          renew-Sound now latency mode p.id (table_for P D now latency local handshake mode cs)
            (table_for-Sound mode cs h) in
        let cs1 = record cs { routing_tables = put mode t cs.routing_tables } in
        (
          add_conn p true (some mode) cs1,
          rw (r, shook_hands) refl,
          record {
            tables = unfold add_conn in put-SoundTables mode t cs.routing_tables h s;
            lock_kept = unfold add_conn in refl;
            keeps = λ q k.
                still p true (some mode) cs1 (unfold is_connected in away) q
                  (unfold is_connected in k);
            joins = λ _ _.
                is_connected-add_conn p true (some mode) p.id cs1
                ∙ if_true {b = p.id == p.id} _ _ (ground arith);
          },
        )

    pub connect-Connects :
        (p : AddrInfo) (cs : Supervisor P D)
        → SoundTables cs.routing_tables
        → (cs' : Supervisor P D) × (connect P D now latency local handshake p cs ≡ done cs')
          × Connects p cs cs'
    unfolding connect
    connect-Connects p cs h = elim (Bool-cases (is_connected p.id cs)) [
      | inl there ↦ (
        cs,
        if_true _ _ there,
        record { tables = h; lock_kept = refl; keeps = λ q k. k; joins = λ _ _. there },
      )
      | inr away ↦
          let (cs', e, c) =
            shook_hands-Connects p (handshake p.id) (add_addrs p cs) refl
              (unfold is_connected in unfold add_addrs in away) (unfold add_addrs in h) in
          (
            cs',
            if_false _ _ away ∙ e,
            record {
              tables = c.tables;
              lock_kept = c.lock_kept ∙ (unfold add_addrs in refl);
              keeps = λ q k. c.keeps q (unfold is_connected in unfold add_addrs in k);
              joins = c.joins;
            },
          )
    ]
