-- ===== src/PeerDiversity/Groups.antt =====
-- What `TryAdd` files for a peer, in closed form.
use dep2p.Base.{
  ℕ, ◌≡◌, refl, subst, ap, ◌∙◌, suc, true, false, inl, inr, List, [], ◌∷◌, ◌++◌, map, Option, none,
  some, length, Bool-cases, arith,
}
use mathlib.Core.List.{append_assoc}
use dep2p.Base.Maps.{Map, fetch, fetch_or, put, fetch_or-fetch, fetch_or-insert_self, put-put}
use dep2p.Base.Predicates.{All}
use dep2p.Keyspace.{PeerId}
use dep2p.PeerDiversity.{
  ip_group_key, Addresses, PeerIpGroupFilter, PeerGroupInfo, PeerIpGroupKey, F, count, count_all,
  open_cpl, groups_of, group_of, keyed, both, is_empty_key, Ip, is_some,
}

abbrev pub key_of : PeerGroupInfo → PeerIpGroupKey
key_of g = g.ip_group_key

module _ (A : Addresses) (G : PeerIpGroupFilter A) (cpl_fnc : PeerId → ℕ) where
  abbrev E : Type 0
  E = F A G cpl_fnc

  abbrev pub increments : List PeerGroupInfo → G.State → G.State
  increments [] s = s
  increments (g ∷ gs) s = increments gs (G.increment s g)

  abbrev pub inner : ℕ → E → Map (List PeerIpGroupKey)
  inner c f = fetch_or [] c f.cpl_peer_groups

  abbrev pub filed : PeerId → List PeerGroupInfo → E → E
  filed p gs f = record f {
    pgm = increments gs f.pgm;
    peer_groups = put p (fetch_or [] p f.peer_groups ++ gs) f.peer_groups;
    cpl_peer_groups =
        put (cpl_fnc p)
          (put p (fetch_or [] p (inner (cpl_fnc p) f) ++ map key_of gs) (inner (cpl_fnc p) f))
          f.cpl_peer_groups;
  }

  -- Two entries one after the other in each map are one.
  put_twice :
      {V : Type 0} (k : ℕ) (v w : List V) (m : Map (List V))
      → put k (fetch_or [] k (put k (fetch_or [] k m ++ v) m) ++ w) (put k (fetch_or [] k m ++ v) m)
        ≡ put k (fetch_or [] k m ++ (v ++ w)) m
  put_twice k v w m =
      rw (fetch_or-insert_self [] k (fetch_or [] k m ++ v) m, append_assoc (fetch_or [] k m) v w)
        (put-put k _ _ m)

  file_twice :
      (p : PeerId) (g : PeerGroupInfo) (gs : List PeerGroupInfo) (f : E)
      → filed p gs (filed p (g ∷ []) f) ≡ filed p (g ∷ gs) f
  file_twice p g gs f =
      let c = cpl_fnc p in
      let m = inner c f in
      let one = put p (fetch_or [] p m ++ (g.ip_group_key ∷ [])) m in
      rw
        (
          put_twice p (g ∷ []) gs f.peer_groups,
          fetch_or-insert_self [] c one f.cpl_peer_groups,
          put-put c one (put p (fetch_or [] p one ++ map key_of gs) one) f.cpl_peer_groups,
          put_twice p (g.ip_group_key ∷ []) (map key_of gs) m,
        )
        refl

  pub count_all-eq-filed :
      (p : PeerId) (g : PeerGroupInfo) (gs : List PeerGroupInfo) (f : E)
      → count_all A G cpl_fnc p (g ∷ gs) f ≡ filed p (g ∷ gs) f
  unfolding count_all count
  count_all-eq-filed p g [] f = refl
  count_all-eq-filed p g (h ∷ gs) f =
      count_all-eq-filed p h gs (count A G cpl_fnc p g f) ∙ file_twice p g (h ∷ gs) f

  is_some-none : {V : Type 0} (o : Option V) → is_some o ≡ false → o ≡ none
  unfolding is_some
  is_some-none none e = refl
  is_some-none (some v) e = cc

  -- The entry that `TryAdd` makes for a new prefix length is not seen in what it files.
  pub filed-open_cpl :
      (p : PeerId) (gs : List PeerGroupInfo) (f : E)
      → filed p gs (open_cpl A G cpl_fnc (cpl_fnc p) f) ≡ filed p gs f
  unfolding open_cpl
  filed-open_cpl p gs f =
      let c = cpl_fnc p in
      elim (Bool-cases (is_some (fetch c f.cpl_peer_groups))) [
        | inl e ↦ rw e refl
        | inr e ↦
            let missing = is_some-none _ e in
            let empty : inner c f ≡ [] = fetch_or-fetch [] c f.cpl_peer_groups ∙ rw missing refl in
            rw
              (
                e,
                fetch_or-insert_self [] c [] f.cpl_peer_groups,
                empty,
                put-put c [] (put p (fetch_or [] p [] ++ map key_of gs) []) f.cpl_peer_groups,
              )
              refl
      ]

  -- What each group of a peer satisfies where `TryAdd` takes it.
  pub record IsGroup (s : G.State) (p : PeerId) (g : PeerGroupInfo) : Type 0 where
    pub of_peer : g.id ≡ p
    pub at_cpl : g.cpl ≡ cpl_fnc p
    pub allowed : G.allow s g ≡ true

  some_inj : {V : Type 0} {x y : V} → some x ≡ some y → x ≡ y
  some_inj e = cc

  keyed-IsGroup :
      (s : G.State) (p : PeerId) (k : Option PeerIpGroupKey) (g : PeerGroupInfo)
      → keyed A G cpl_fnc s p k ≡ some g
      → IsGroup s p g
  unfolding keyed
  keyed-IsGroup s p none g e = cc
  keyed-IsGroup s p (some key) g e = elim (Bool-cases (is_empty_key key)) [
    | inl h ↦ absurd (ground arith)
    | inr h ↦
        let group : PeerGroupInfo = record { id = p; cpl = cpl_fnc p; ip_group_key = key } in
        elim (Bool-cases (G.allow s group)) [
          | inr b ↦ absurd (ground arith)
          | inl b ↦
              let same : group ≡ g = ground arith in
              subst (IsGroup s p) same (record { of_peer = refl; at_cpl = refl; allowed = b })
        ]
  ]

  group_of-IsGroup :
      (s : G.State) (p : PeerId) (a : Option Ip) (g : PeerGroupInfo)
      → group_of A G cpl_fnc s p a ≡ some g
      → IsGroup s p g
  unfolding group_of
  group_of-IsGroup s p none g e = cc
  group_of-IsGroup s p (some ip) g e = keyed-IsGroup s p (ip_group_key A G cpl_fnc ip) g e

  both-some :
      {V : Type 0} (o : Option V) (r : Option (List V)) (xs : List V)
      → both o r ≡ some xs
      → (y : V) × (ys : List V) × (o ≡ some y) × (r ≡ some ys) × (xs ≡ y ∷ ys)
  unfolding both
  both-some none r xs e = cc
  both-some (some y) none xs e = cc
  both-some (some y) (some ys) xs e = (y, ys, refl, refl, cc)

  pub groups_of-All :
      (s : G.State) (p : PeerId) (addrs : List A.Multiaddr) (gs : List PeerGroupInfo)
      → groups_of A G cpl_fnc s p addrs ≡ some gs
      → (length gs ≡ length addrs) × All (IsGroup s p) gs
  unfolding groups_of
  groups_of-All s p [] gs e =
      let same : [] ≡ gs = cc in
      subst (λ xs. (length xs ≡ 0) × All (IsGroup s p) xs) same (refl, tt)
  groups_of-All s p (a ∷ addrs) gs e =
      let (y, ys, head, tail, split) = both-some _ _ gs e in
      let (l, all) = groups_of-All s p addrs ys tail in
      rw split (ap suc l, (group_of-IsGroup s p _ y head, all))
