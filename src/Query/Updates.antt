-- ===== src/Query/Updates.antt =====
-- `updateState` for the update of a running goroutine: it does not panic, and the peer has left.
use dep2p.Base.{
  ℕ, ◌+◌, ◌<◌, ◌≡◌, ◌≢◌, refl, sym, ◌∙◌, inl, inr, Bool, true, false, List, [], ◌∷◌, none, some,
  arith, length, if_false, ◌==◌, if◌then◌else◌, Bool-cases, ==_iff,
}
use dep2p.Base.Predicates.{All}
use dep2p.Keyspace.{PeerId}
use dep2p.QPeerset.{Space, waiting, queried, unreachable, same_state, QueryPeerset, get_state}
use dep2p.QPeerset.Found.{NoRepeat}
use dep2p.Query.{
  Config, Query, QueryUpdate, Outcome, dial_failed, query_failed, answered, query_peer, hear,
  settle_all, update_state, record_times,
}
use dep2p.Query.Invariant.{IsSound, Extends, hear-Extends, Settles, settle_total}

-- The goroutines without the first one of this peer.
unfoldable pub without : PeerId → List PeerId → List PeerId
without p [] = []
without p (r ∷ rs) = let rest = without p rs in if r == p then rs else r ∷ rest

-- The peer occurs in the list.
unfoldable pub occurs : PeerId → List PeerId → Bool
occurs p [] = false
occurs p (r ∷ rs) = if r == p then true else occurs p rs

without-All :
    (P : PeerId → Type 0) (p : PeerId) (rs : List PeerId) → All P rs → All P (without p rs)
unfolding without
without-All P p [] h = tt
without-All P p (r ∷ rs) h = elim (Bool-cases (r == p)) [
  | inl e ↦ rw e h.1
  | inr e ↦ rw e (h.0, without-All P p rs h.1)
]

without-NoRepeat : (p : PeerId) (rs : List PeerId) → NoRepeat rs → NoRepeat (without p rs)
unfolding without
without-NoRepeat p [] h = tt
without-NoRepeat p (r ∷ rs) h = elim (Bool-cases (r == p)) [
  | inl e ↦ rw e h.1
  | inr e ↦ rw e (without-All (λ x. r ≢ x) p rs h.0, without-NoRepeat p rs h.1)
]

-- Without repetition no other occurrence stays.
without_gone : (p : PeerId) (rs : List PeerId) → NoRepeat rs → All (λ r. p ≢ r) (without p rs)
unfolding without
without_gone p [] h = tt
without_gone p (r ∷ rs) h = elim (Bool-cases (r == p)) [
  | inl e ↦ let same : r ≡ p = (==_iff r p).0 e in rw (e, ← same) h.0
  | inr e ↦ rw e ((λ k. ground arith), without_gone p rs h.1)
]

length-without :
    (p : PeerId) (rs : List PeerId) → occurs p rs ≡ true → length (without p rs) + 1 ≡ length rs
unfolding without occurs
length-without p [] h = cc
length-without p (r ∷ rs) h = let rest = length-without p rs in ground (arith, rest)

occurs-All :
    (P : PeerId → Type 0) (p : PeerId) (rs : List PeerId) → occurs p rs ≡ true → All P rs → P p
unfolding occurs
occurs-All P p [] h k = absurd cc
occurs-All P p (r ∷ rs) h k = elim (Bool-cases (r == p)) [
  | inl e ↦ rw (← (==_iff r p).0 e) k.0
  | inr e ↦ occurs-All P p rs (rw e at h) k.1
]

-- `updateState` where no loop of it panics.
pub update_state_done :
    {S : Space} (self : PeerId) (up : QueryUpdate) (q : Query S) (mid u : QueryPeerset S)
    → q.terminated ≡ false
    → settle_all queried self up.queried (hear self up.cause up.heard q.query_peers) ≡ some mid
    → settle_all unreachable self up.unreachable mid ≡ some u
    → update_state self up q
      ≡ some (record q {
        query_peers = u;
        peer_times = record_times self up.query_duration up.queried q.peer_times;
      })
unfolding update_state
update_state_done self up q mid u live e f = if_false _ _ live ∙ rw (e, f) refl

module _ {S : Space} (c : Config) (key : ℕ) (filter : PeerId → Bool) where
  -- The goroutine of p has ended, and the loop has received its update.
  abbrev pub ended : PeerId → Query S → Query S
  ended p q = record q { running = without p q.running }

  -- After the update one goroutine less runs.
  settled_IsSound :
      (p : PeerId) (q : Query S) (mid u : QueryPeerset S) (times : List (PeerId × ℕ))
      → IsSound c q
      → occurs p q.running ≡ true
      → Extends c.self q.query_peers mid
      → Settles c.self p mid u
      → IsSound c (record (ended p q) { query_peers = u; peer_times = times })
        × (length (without p q.running) < c.alpha)
  settled_IsSound p q mid u times v here x y =
      let one = length-without p q.running here in
      (
        record {
          set = y.set;
          no_self = y.no_self;
          once = without-NoRepeat p q.running v.once;
          waits =
              both (without p q.running) (without_gone p q.running v.once)
                (without-All (λ r. get_state r q.query_peers ≡ some waiting) p q.running v.waits);
          number_waiting = omega (arith, y.one_less, x.same_number, v.number_waiting, one);
          bound = omega (arith, v.bound, one);
        },
        omega (arith, v.bound, one),
      )
    where
      both :
          (rs : List PeerId)
          → All (λ r. p ≢ r) rs
          → All (λ r. get_state r q.query_peers ≡ some waiting) rs
          → All (λ r. get_state r u ≡ some waiting) rs
      both [] f w = tt
      both (r ∷ rs) f w = (y.keeps r f.0 ∙ x.keeps r waiting w.0, both rs f.1 w.1)

  -- The result of an update that settles its peer.
  pub data Updated (p : PeerId) (o : Outcome) (q : Query S) : Type 0 where
    updated :
        (q' : Query S)
        → update_state c.self (query_peer c key filter p o) (ended p q) ≡ some q'
        → q'.terminated ≡ false
        → IsSound c q'
        → length q'.running < c.alpha
        → Updated p o q

  module _ (p : PeerId) (q : Query S) (v : IsSound c q) (live : q.terminated ≡ false)
      (here : occurs p q.running ≡ true) where
    p_waits : get_state p q.query_peers ≡ some waiting
    p_waits = occurs-All (λ r. get_state r q.query_peers ≡ some waiting) p q.running here v.waits

    p_other : p ≢ c.self
    p_other h =
        let bad : get_state p q.query_peers ≡ none = rw h v.no_self in
        let w = p_waits in let no_path : some waiting ≡ none = sym w ∙ bad in absurd cc

    nothing_heard : Extends c.self q.query_peers q.query_peers
    nothing_heard = record {
      set = v.set;
      no_self = v.no_self;
      keeps = λ r s e. e;
      same_number = refl;
    }

    failed :
        (u : QueryPeerset S) × (settle_all unreachable c.self (p ∷ []) q.query_peers ≡ some u)
        × Settles c.self p q.query_peers u
    unfolding same_state
    failed = settle_total c.self unreachable p q.query_peers refl v.set v.no_self p_other p_waits

    pub update_state-Updated : (o : Outcome) → Updated p o q
    unfolding query_peer hear settle_all record_times same_state
    update_state-Updated dial_failed =
        let (u, done, y) = failed in
        let (sound, less) =
          settled_IsSound p q q.query_peers u q.peer_times v here nothing_heard y in
        updated (record (ended p q) { query_peers = u })
          ((update_state_done c.self (query_peer c key filter p dial_failed) (ended p q)
            q.query_peers u live refl done))
          live sound less
    update_state-Updated query_failed =
        let (u, done, y) = failed in
        let (sound, less) =
          settled_IsSound p q q.query_peers u q.peer_times v here nothing_heard y in
        updated (record (ended p q) { query_peers = u })
          ((update_state_done c.self (query_peer c key filter p query_failed) (ended p q)
            q.query_peers u live refl done))
          live sound less
    update_state-Updated (answered new_peers duration) =
        let up = query_peer c key filter p (answered new_peers duration) in
        let x = hear-Extends c.self p up.heard q.query_peers v.set v.no_self in
        let mid = hear c.self p up.heard q.query_peers in
        let (u, done, y) =
          settle_total c.self queried p mid refl x.set x.no_self p_other
            (x.keeps p waiting p_waits) in
        let times = record_times c.self duration (p ∷ []) q.peer_times in
        let (sound, less) = settled_IsSound p q mid u times v here x y in
        updated (record (ended p q) { query_peers = u; peer_times = times })
          ((update_state_done c.self up (ended p q) u u live done refl)) live sound less
