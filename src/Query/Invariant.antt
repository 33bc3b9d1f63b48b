-- ===== src/Query/Invariant.antt =====
-- What holds of a lookup between the rounds of its loop, and how an update changes its peer set.
use dep2p.Base.{
  ◌+◌, ◌≤◌, ◌≡◌, ◌≢◌, refl, ◌∙◌, inl, inr, false, List, [], ◌∷◌, none, some, arith, length, ◌==◌,
  Bool-cases,
}
use dep2p.Base.Predicates.{All}
use dep2p.Keyspace.{PeerId}
use dep2p.QPeerset.{
  Space, PeerState, waiting, same_state, QueryPeerset, try_add, get_state, set_state,
}
use dep2p.QPeerset.Order.{IsValid, try_add-IsValid}
use dep2p.QPeerset.Closest.{get_state-set_state}
use dep2p.QPeerset.Changes.{
  number, weight, set_state_total, get_state-try_add, get_state-try_add_ne, number-try_add,
}
use dep2p.QPeerset.Found.{NoRepeat}
use dep2p.Query.{Config, Query, hear, settle, settle_all}

-- The running goroutines are those of the peers that wait, one for each, at most alpha of them.
pub record IsSound {S : Space} (c : Config) (q : Query S) : Type 0 where
  pub set : IsValid q.query_peers
  pub no_self : get_state c.self q.query_peers ≡ none
  pub once : NoRepeat q.running
  pub waits : All (λ p. get_state p q.query_peers ≡ some waiting) q.running
  pub number_waiting : number q.query_peers.all ≡ length q.running
  pub bound : length q.running ≤ c.alpha

module _ {S : Space} (self : PeerId) where
  -- A change that keeps the states of the peers in the set, and the number of waiting peers.
  pub record Extends (qp u : QueryPeerset S) : Type 0 where
    pub set : IsValid u
    pub no_self : get_state self u ≡ none
    pub keeps : (p : PeerId) (s : PeerState) → get_state p qp ≡ some s → get_state p u ≡ some s
    pub same_number : number u.all ≡ number qp.all

  pub hear-Extends :
      (cause : PeerId) (ps : List PeerId) (qp : QueryPeerset S)
      → IsValid qp
      → get_state self qp ≡ none
      → Extends qp (hear self cause ps qp)
  unfolding hear
  hear-Extends cause [] qp v absent = record {
    set = v;
    no_self = absent;
    keeps = λ p s e. e;
    same_number = refl;
  }
  hear-Extends cause (p ∷ ps) qp v absent = elim (Bool-cases (p == self)) [
    | inl same ↦ rw same (hear-Extends cause ps qp v absent)
    | inr other ↦
        let ne : self ≢ p = λ h. ground arith in
        let u : QueryPeerset S = (try_add p cause qp).1 in
        let rest =
          hear-Extends cause ps u (try_add-IsValid p cause qp v)
            (get_state-try_add_ne self p cause qp ne ∙ absent) in
        rw other (record {
          set = rest.set;
          no_self = rest.no_self;
          keeps = λ r s e. rest.keeps r s (get_state-try_add r p cause qp s e);
          same_number = rest.same_number ∙ number-try_add p cause qp;
        })
  ]

  -- The peer p has left the waiting ones.
  pub record Settles (p : PeerId) (qp u : QueryPeerset S) : Type 0 where
    pub set : IsValid u
    pub no_self : get_state self u ≡ none
    pub keeps : (r : PeerId) → p ≢ r → get_state r u ≡ get_state r qp
    pub one_less : number u.all + 1 ≡ number qp.all

  settle_one :
      (s : PeerState) (p : PeerId) (qp u : QueryPeerset S)
      → (p == self) ≡ false
      → get_state p qp ≡ some waiting
      → set_state p s qp ≡ some u
      → settle_all s self (p ∷ []) qp ≡ some u
  unfolding settle_all same_state
  settle_one s p qp u other e f = rw (other, e, f, settle_all, settle) refl

  pub settle_total :
      (s : PeerState) (p : PeerId) (qp : QueryPeerset S)
      → weight s ≡ 0
      → IsValid qp
      → get_state self qp ≡ none
      → p ≢ self
      → get_state p qp ≡ some waiting
      → (u : QueryPeerset S) × (settle_all s self (p ∷ []) qp ≡ some u) × Settles p qp u
  unfolding same_state
  settle_total s p qp light v absent ne e =
      let (u, done, vu, n) = set_state_total p s waiting qp v e in
      let others = (get_state-set_state p s qp u done).1 in
      let differs : (p == self) ≡ false = ground arith in
      (
        u,
        settle_one s p qp u differs e done,
        record {
          set = vu;
          no_self = others self ne ∙ absent;
          keeps = others;
          one_less = omega (arith, n, light);
        },
      )
