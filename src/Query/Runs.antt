-- ===== src/Query/Runs.antt =====
-- Whole rounds of `run`, and the lookups that they reach.
use dep2p.Base.{
  ℕ, ◌+◌, ◌-◌, ◌≤◌, ◌<◌, ◌≡◌, ◌≢◌, refl, sym, ◌∙◌, ◌⊎◌, inl, inr, Bool, true, false, List, [], ◌∷◌,
  ◌++◌, none, some, arith, length, if_false, length-append,
}
use dep2p.Base.Predicates.{keep, All, All-imp, All-append}
use dep2p.Keyspace.{PeerId}
use dep2p.QPeerset.{
  Space, heard, waiting, same_state, QueryPeerset, get_state, sort, find, new_query_peerset,
}
use dep2p.QPeerset.States.{get_referrer_total}
use dep2p.QPeerset.Order.{new_query_peerset-IsValid}
use dep2p.QPeerset.Closest.{num_waiting_lem, get_state-set_state}
use dep2p.QPeerset.Changes.{number, set_state_total}
use dep2p.QPeerset.Found.{NoRepeat}
use dep2p.Query.{
  Config, Query, Outcome, query_peer, hear, spawn_query, spawn_queries, advance, receive, terminate,
  new_query, seed_update, settle_all, record_times,
}
use dep2p.Query.Invariant.{IsSound, hear-Extends}
use dep2p.Query.Updates.{occurs, ended, updated, update_state-Updated, update_state_done}
use dep2p.Query.Rounds.{Keeps, Keeps-sort, ends, goes_on, totality}

append-NoRepeat :
    (ps : List PeerId) (r : PeerId) → NoRepeat ps → All (λ p. p ≢ r) ps → NoRepeat (ps ++ (r ∷ []))
append-NoRepeat [] r h f = (tt, tt)
append-NoRepeat (p ∷ ps) r h f =
    (All-append (λ x. p ≢ x) ps (r ∷ []) h.0 (f.0, tt), append-NoRepeat ps r h.1 f.1)

module _ {S : Space} (c : Config) (stop_fn : QueryPeerset S → Bool) where
  -- A set with the same peers in the same states.
  pub kept-IsSound :
      (q : Query S) (u : QueryPeerset S)
      → IsSound c q
      → Keeps q.query_peers u
      → IsSound c (record q { query_peers = u })
  kept-IsSound q u v k = record {
    set = k.set;
    no_self = k.states c.self ∙ v.no_self;
    once = v.once;
    waits =
        All-imp (λ p. get_state p q.query_peers ≡ some waiting) (λ p. get_state p u ≡ some waiting)
          (λ p h. k.states p ∙ h) q.running v.waits;
    number_waiting = k.same_number ∙ v.number_waiting;
    bound = v.bound;
  }

  -- The new state of one peer: a goroutine more.
  spawned :
      (p : PeerId) (q : Query S)
      → IsSound c q
      → get_state p q.query_peers ≡ some heard
      → length q.running < c.alpha
      → (u : QueryPeerset S) × (spawn_query c stop_fn p q
          ≡ some (record q { query_peers = u; running = q.running ++ (p ∷ []) }))
        × ((r : PeerId) → p ≢ r → get_state r u ≡ get_state r q.query_peers)
        × IsSound c (record q { query_peers = u; running = q.running ++ (p ∷ []) })
  unfolding spawn_query same_state
  spawned p q v e room =
      let (u, done, vu, n) = set_state_total p waiting heard q.query_peers v.set e in
      let (mine, others) = get_state-set_state p waiting q.query_peers u done in
      let (r, known) = get_referrer_total p q.query_peers heard e in
      let not_self : p ≢ c.self = λ h.
        (let bad : get_state p q.query_peers ≡ none = rw h v.no_self in
          let no_path : some heard ≡ none = sym e ∙ bad in absurd cc) in
      let fresh : All (λ x. x ≢ p) q.running =
        All-imp (λ x. get_state x q.query_peers ≡ some waiting) (λ x. x ≢ p)
          (λ x w h.
            (let too : get_state p q.query_peers ≡ some waiting = rw (← h) w in
              let no_path : some heard ≡ some waiting = sym e ∙ too in absurd cc))
          q.running v.waits in
      (
        u,
        rw (known, done, spawn_query) refl,
        others,
        record {
          set = vu;
          no_self = others c.self not_self ∙ v.no_self;
          once = append-NoRepeat q.running p v.once fresh;
          waits =
              All-append (λ x. get_state x u ≡ some waiting) q.running (p ∷ [])
                (still q.running fresh v.waits u others) (mine, tt);
          number_waiting = omega (arith, n, v.number_waiting, length-append q.running (p ∷ []));
          bound = omega (arith, length-append q.running (p ∷ []), room);
        },
      )
    where
      still :
          (rs : List PeerId)
          → All (λ x. x ≢ p) rs
          → All (λ x. get_state x q.query_peers ≡ some waiting) rs
          → (u : QueryPeerset S)
          → ((r : PeerId) → p ≢ r → get_state r u ≡ get_state r q.query_peers)
          → All (λ x. get_state x u ≡ some waiting) rs
      still [] f w u o = tt
      still (r ∷ rs) f w u o = (o r (λ h. f.0 (sym h)) ∙ w.0, still rs f.1 w.1 u o)

  spawn_peers :
      (ps : List PeerId) (q : Query S)
      → IsSound c q
      → All (λ p. get_state p q.query_peers ≡ some heard) ps
      → NoRepeat ps
      → length q.running + length ps ≤ c.alpha
      → (q' : Query S) × (spawn_queries c stop_fn ps q ≡ some q')
        × IsSound c q'
        × (length q'.running ≡ length q.running + length ps)
  unfolding spawn_queries
  spawn_peers [] q v h o room = (q, refl, v, omega arith)
  spawn_peers (p ∷ ps) q v h o room =
      let (u, e, others, v') = spawned p q v h.0 (omega (arith, room)) in
      let q1 : Query S = record q { query_peers = u; running = q.running ++ (p ∷ []) } in
      let (q', f, w, grown) =
        spawn_peers ps q1 v' (later ps o.0 h.1 u others) o.1
          (omega (arith, room, length-append q.running (p ∷ []))) in
      (q', rw (e, spawn_queries) f, w, omega (arith, grown, length-append q.running (p ∷ [])))
    where
      later :
          (rs : List PeerId)
          → All (λ x. p ≢ x) rs
          → All (λ x. get_state x q.query_peers ≡ some heard) rs
          → (u : QueryPeerset S)
          → ((r : PeerId) → p ≢ r → get_state r u ≡ get_state r q.query_peers)
          → All (λ x. get_state x u ≡ some heard) rs
      later [] f w u k = tt
      later (r ∷ rs) f w u k = (k r f.0 ∙ w.0, later rs f.1 w.1 u k)

  -- The loop has ended, or a goroutine runs whose update it waits for.
  abbrev pub Lives : Query S → Type 0
  Lives q = (q.terminated ≡ true) ⊎ (0 < length q.running)

  -- Where a goroutine more may run, the round goes through and starts at most alpha of them.
  pub advance_total :
      (q : Query S)
      → IsSound c q
      → q.terminated ≡ false
      → length q.running < c.alpha
      → (q' : Query S) × (advance c stop_fn q ≡ some q') × IsSound c q' × Lives q'
  unfolding advance terminate
  advance_total q v live room =
      let qp = sort q.query_peers in
      let k = Keeps-sort q.query_peers v.set in
      let n = c.alpha - number q.query_peers.all in
      let more : 0 < n = omega (arith, v.number_waiting, room) in
      elim (totality c stop_fn n qp k.set) [
        | ends reason u e ku ↦
            let kept = kept-IsSound (record q { query_peers = qp }) u (kept-IsSound q qp v k) ku in
            (
              record q { query_peers = u; terminated = true },
              rw (num_waiting_lem q.query_peers, e, advance) refl,
              record {
                set = kept.set;
                no_self = kept.no_self;
                once = kept.once;
                waits = kept.waits;
                number_waiting = kept.number_waiting;
                bound = kept.bound;
              },
              inl refl,
            )
        | goes_on peers u e ku only once few busy ↦
            let kept = kept-IsSound (record q { query_peers = qp }) u (kept-IsSound q qp v k) ku in
            let (q', f, w, grown) =
              spawn_peers peers (record q { query_peers = u }) kept only once
                (omega (arith, few more, v.number_waiting, room)) in
            (
              q',
              rw (num_waiting_lem q.query_peers, e, advance) (if_false _ _ live ∙ f),
              w,
              inr (omega (arith, grown, busy, k.same_number, v.number_waiting)),
            )
      ]

  -- In a lookup that has not ended, the loop's round for the end of any running goroutine does not
  -- panic, whatever its outcome, and leaves a sound lookup: at most alpha goroutines run, one for
  -- each peer that waits. Then the lookup has ended, or a goroutine runs.
  pub receive-IsSound :
      (key : ℕ) (filter : PeerId → Bool) (p : PeerId) (o : Outcome) (q : Query S)
      → IsSound c q
      → q.terminated ≡ false
      → occurs p q.running ≡ true
      → (q' : Query S) × (receive c stop_fn (query_peer c key filter p o) (ended c key filter p q)
          ≡ some q')
        × IsSound c q'
        × Lives q'
  unfolding receive
  receive-IsSound key filter p o q v live here =
      elim (update_state-Updated c key filter p q v live here o) [
        | updated mid e on w room ↦
            let (q', f, x, l) = advance_total mid w on room in (q', rw (e, receive) f, x, l)
      ]

  absent_at_first : (key : ℕ) → get_state c.self (new_query_peerset S key) ≡ none
  unfolding get_state new_query_peerset find
  absent_at_first key = refl

  empty_at_first : (key : ℕ) → number (new_query_peerset S key).all ≡ 0
  unfolding new_query_peerset keep
  empty_at_first key = refl

  -- The round for the seed peers: it goes through, and leaves a sound lookup that has ended or in
  -- which a goroutine runs.
  pub start-IsSound :
      (key : ℕ) (seeds : List PeerId)
      → 0 < c.alpha
      → (q' : Query S) × (receive c stop_fn (seed_update c stop_fn seeds) (new_query S key)
          ≡ some q')
        × IsSound c q'
        × Lives q'
  unfolding receive new_query settle_all record_times
  start-IsSound key seeds pos =
      let x =
        hear-Extends c.self c.self seeds (new_query_peerset S key) (new_query_peerset-IsValid key)
          (absent_at_first key) in
      let u : QueryPeerset S = hear c.self c.self seeds (new_query_peerset S key) in
      let q : Query S = record {
        query_peers = u;
        peer_times = [];
        terminated = false;
        running = [];
      } in
      let done =
        update_state_done c.self (seed_update c stop_fn seeds) (new_query S key) u u refl refl
          refl in
      let sound : IsSound c q = record {
        set = x.set;
        no_self = x.no_self;
        once = tt;
        waits = tt;
        number_waiting = x.same_number ∙ empty_at_first key;
        bound = omega arith;
      } in
      let (q', f, y, l) = advance_total q sound refl pos in (q', rw (done, receive) f, y, l)
