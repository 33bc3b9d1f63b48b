-- ===== src/Query/Reachable.antt =====
-- The lookups that `run` reaches, whatever the network answers and in whatever order.
use dep2p.Base.{ℕ, ◌-◌, ◌<◌, ◌≡◌, refl, subst, inl, Bool, true, false, List, Option, some}
use dep2p.Keyspace.{PeerId}
use dep2p.QPeerset.{Space, QueryPeerset, sort}
use dep2p.QPeerset.Closest.{num_waiting_lem}
use dep2p.QPeerset.Changes.{number}
use dep2p.Query.{
  Config, Query, Outcome, query_peer, receive, cancelled, advance, terminate, new_query,
  seed_update,
}
use dep2p.Query.Invariant.{IsSound}
use dep2p.Query.Updates.{occurs, ended}
use dep2p.Query.Rounds.{Keeps-sort, ends, goes_on, totality}
use dep2p.Query.Runs.{kept-IsSound, receive-IsSound, start-IsSound, Lives}

module _ {S : Space} (c : Config) (stop_fn : QueryPeerset S → Bool) (key : ℕ)
    (filter : PeerId → Bool) where
  -- The states of a lookup between the rounds of its loop: behind the seed peers, behind the end of
  -- any goroutine, and behind a cancellation.
  pub data Reached : Query S → Type 0 where
    seeded :
        (seeds : List PeerId) (q : Query S)
        → receive c stop_fn (seed_update c stop_fn seeds) (new_query S key) ≡ some q
        → Reached q
    answers :
        (p : PeerId) (o : Outcome) (q q' : Query S)
        → Reached q
        → q.terminated ≡ false
        → occurs p q.running ≡ true
        → receive c stop_fn (query_peer c key filter p o) (ended c key filter p q) ≡ some q'
        → Reached q'
    stops :
        (q q' : Query S)
        → Reached q
        → q.terminated ≡ false
        → cancelled c stop_fn q ≡ some q'
        → Reached q'

  -- A cancelled round goes through, and the lookup has ended.
  pub cancelled_total :
      (q : Query S)
      → IsSound c q
      → (q' : Query S) × (cancelled c stop_fn q ≡ some q') × IsSound c q' × (q'.terminated ≡ true)
  unfolding cancelled advance terminate
  cancelled_total q v =
      let qp = sort q.query_peers in
      let k = Keeps-sort q.query_peers v.set in
      elim (totality c stop_fn (c.alpha - number q.query_peers.all) qp k.set) [
        | ends reason u e ku ↦
            let kept =
              kept-IsSound c stop_fn (record q { query_peers = qp }) u
                (kept-IsSound c stop_fn q qp v k) ku in
            (
              over u,
              rw (num_waiting_lem q.query_peers, e, advance, cancelled) refl,
              over_sound u kept,
              refl,
            )
        | goes_on peers u e ku _ _ _ _ ↦
            let kept =
              kept-IsSound c stop_fn (record q { query_peers = qp }) u
                (kept-IsSound c stop_fn q qp v k) ku in
            (
              over u,
              rw (num_waiting_lem q.query_peers, e, advance, cancelled) refl,
              over_sound u kept,
              refl,
            )
      ]
    where
      over : QueryPeerset S → Query S
      over u = record q { query_peers = u; terminated = true }

      over_sound :
          (u : QueryPeerset S) → IsSound c (record q { query_peers = u }) → IsSound c (over u)
      over_sound u w = record {
        set = w.set;
        no_self = w.no_self;
        once = w.once;
        waits = w.waits;
        number_waiting = w.number_waiting;
        bound = w.bound;
      }

  same_result :
      {o : Option (Query S)} {q : Query S} (x : Query S)
      → o ≡ some x
      → o ≡ some q
      → IsSound c x
      → Lives c stop_fn x
      → IsSound c q × Lives c stop_fn q
  same_result {o} {q} x e f v l =
      let same : x ≡ q = cc in subst (λ (y : Query S). IsSound c y × Lives c stop_fn y) same (v, l)

  -- With a positive alpha every reached lookup is sound, so that the goroutines are exactly those of
  -- the peers that wait and at most alpha of them run; and it has ended, or a goroutine runs.
  pub Reached-IsSound : 0 < c.alpha → (q : Query S) → Reached q → IsSound c q × Lives c stop_fn q
  Reached-IsSound pos _ (seeded seeds q e) =
      let (x, f, v, l) = start-IsSound c stop_fn key seeds pos in same_result x f e v l
  Reached-IsSound pos _ (answers p o q0 q h live here e) =
      let (v0, _) = Reached-IsSound pos q0 h in
      let (x, f, v, l) = receive-IsSound c stop_fn key filter p o q0 v0 live here in
      same_result x f e v l
  Reached-IsSound pos _ (stops q0 q h live e) =
      let (v0, _) = Reached-IsSound pos q0 h in
      let (x, f, v, over) = cancelled_total q0 v0 in same_result x f e v (inl over)
