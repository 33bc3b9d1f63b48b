-- ===== src/PeerDiversity/Consistency.antt =====
-- The two maps of the filter agree, in every state that its methods reach.
use mathlib.Core.Option
use mathlib.Core.List.{map-append}
use dep2p.Base.{
  ℕ, ◌≡◌, ◌≢◌, refl, sym, ap, ◌∙◌, true, false, inl, inr, List, [], ◌∷◌, ◌++◌, map, none, some,
  ◌==◌, ==_iff, if◌then◌else◌, if_true, if_false, ◌⊎◌, subst, Bool-cases, Option-cases, arith,
}
use dep2p.Base.Maps.{
  Map, fetch, fetch_or, put, fetch-put, fetch_or-put, fetch_or-missing, fetch_or-found,
  fetch-insert_self, fetch-insert_ne,
}
use dep2p.Keyspace.{PeerId}
use dep2p.PeerDiversity.{Addresses, PeerIpGroupFilter, PeerGroupInfo, PeerIpGroupKey, F, nonempty}
use dep2p.PeerDiversity.Groups.{key_of, inner, filed}

module _ {V : Type 0} where
  put-nonempty : (k : ℕ) (v : V) (m : Map V) → nonempty (put k v m) ≡ true
  unfolding put nonempty
  put-nonempty k v [] = refl
  put-nonempty k v ((j, w) ∷ m) = ground arith

  -- Every entry stays a list that is not empty.
  pub still_filled :
      (k c : ℕ) (v : List V) (m : Map (List V))
      → nonempty v ≡ true
      → ((x : List V) → fetch c m ≡ some x → nonempty x ≡ true)
      → (x : List V) → fetch c (put k v m) ≡ some x
      → nonempty x ≡ true
  still_filled k c v m h old x e = elim (Bool-cases (k == c)) [
    | inl s ↦
        let same : some v ≡ some x = sym (if_true _ _ s) ∙ sym (fetch-put k c v m) ∙ e in
        let eq : v ≡ x = cc in rw eq at h
    | inr n ↦ old x (sym (if_false _ _ n) ∙ sym (fetch-put k c v m) ∙ e)
  ]

  pub nil_of_nonempty : (m : List V) → nonempty m ≡ false → m ≡ []
  unfolding nonempty
  nil_of_nonempty [] e = refl
  nil_of_nonempty (x ∷ m) e = cc

module _ (A : Addresses) (G : PeerIpGroupFilter A) (cpl_fnc : PeerId → ℕ) where
  abbrev E : Type 0
  E = F A G cpl_fnc

  abbrev inn : ℕ → E → Map (List PeerIpGroupKey)
  inn = inner A G cpl_fnc

  -- A peer's keys are filed under its own prefix length only, one for each of its groups, and there
  -- is no prefix length without peers.
  pub record IsConsistent (f : E) : Type 0 where
    pub agree :
        (p : PeerId) → fetch p (inn (cpl_fnc p) f) ≡ Option.map (map key_of) (fetch p f.peer_groups)
    pub elsewhere : (c : ℕ) (p : PeerId) → c ≢ cpl_fnc p → fetch p (inn c f) ≡ none
    pub no_empty :
        (c : ℕ) (m : Map (List PeerIpGroupKey))
        → fetch c f.cpl_peer_groups ≡ some m
        → nonempty m ≡ true

  -- The keys of a peer, from its groups.
  keys_agree :
      (p : PeerId) (f : E)
      → IsConsistent f
      → fetch_or [] p (inn (cpl_fnc p) f) ≡ map key_of (fetch_or [] p f.peer_groups)
  keys_agree p f v = elim (Option-cases (fetch p f.peer_groups)) [
    | inl e ↦
        rw (fetch_or-missing [] p f.peer_groups e)
          (fetch_or-missing [] p (inn (cpl_fnc p) f) (v.agree p ∙ ap (Option.map (map key_of)) e))
    | inr (gs, e) ↦ rw (fetch_or-found [] p f.peer_groups gs e) (
        fetch_or-found [] p (inn (cpl_fnc p) f) (map key_of gs)
          (v.agree p ∙ ap (Option.map (map key_of)) e))
  ]

  inner-filed :
      (p : PeerId) (gs : List PeerGroupInfo) (f : E) (c : ℕ)
      → inn c (filed A G cpl_fnc p gs f) ≡ (
          if cpl_fnc p == c
          then put p (fetch_or [] p (inn (cpl_fnc p) f) ++ map key_of gs) (inn (cpl_fnc p) f)
          else inn c f)
  inner-filed p gs f c = fetch_or-put [] (cpl_fnc p) c _ f.cpl_peer_groups

  new_keys : PeerId → List PeerGroupInfo → E → List PeerIpGroupKey
  new_keys p gs f = fetch_or [] p (inn (cpl_fnc p) f) ++ map key_of gs

  fetch-filed_self :
      (p : PeerId) (gs : List PeerGroupInfo) (f : E)
      → fetch p (inn (cpl_fnc p) (filed A G cpl_fnc p gs f)) ≡ some (new_keys p gs f)
  unfolding new_keys
  fetch-filed_self p gs f =
      let same : (cpl_fnc p == cpl_fnc p) ≡ true = ground arith in
      ap (fetch p) (inner-filed p gs f (cpl_fnc p) ∙ if_true _ _ same)
      ∙ fetch-insert_self p (new_keys p gs f) (inn (cpl_fnc p) f)

  own_keys :
      (p : PeerId) (gs : List PeerGroupInfo) (f : E)
      → IsConsistent f
      → fetch p (inn (cpl_fnc p) (filed A G cpl_fnc p gs f))
        ≡ Option.map (map key_of) (fetch p (filed A G cpl_fnc p gs f).peer_groups)
  unfolding new_keys
  own_keys p gs f v =
      fetch-filed_self p gs f
      ∙ ap some (ap (λ l. l ++ map key_of gs) (keys_agree p f v) ∙ sym (map-append key_of _ gs))
      ∙ ap (Option.map (map key_of))
          (sym (fetch-insert_self p (fetch_or [] p f.peer_groups ++ gs) f.peer_groups))

  fetch-filed_ne :
      (p q : PeerId) (gs : List PeerGroupInfo) (f : E) (c : ℕ)
      → p ≢ q ⊎ cpl_fnc p ≢ c
      → fetch q (inn c (filed A G cpl_fnc p gs f)) ≡ fetch q (inn c f)
  fetch-filed_ne p q gs f c ne = elim (Bool-cases (cpl_fnc p == c)) [
    | inr d ↦ ap (fetch q) (inner-filed p gs f c ∙ if_false _ _ d)
    | inl d ↦
        let at_c = (==_iff _ _).0 d in
        let other : p ≢ q = elim ne [ inl n ↦ n | inr n ↦ absurd (n at_c) ] in
        ap (fetch q) (inner-filed p gs f c ∙ if_true _ _ d)
        ∙ fetch-insert_ne p q _ (inn (cpl_fnc p) f) other
        ∙ ap (λ x. fetch q (inn x f)) at_c
  ]

  away : (p q : PeerId) (c : ℕ) → c ≢ cpl_fnc q → p ≢ q ⊎ cpl_fnc p ≢ c
  away p q c ne = elim (Bool-cases (p == q)) [
    | inr n ↦ inl (λ e. ground arith)
    | inl s ↦ let same : p ≡ q = (==_iff p q).0 s in inr (λ e. ne (sym e ∙ ap cpl_fnc same))
  ]

  pub filed-IsConsistent :
      (p : PeerId) (gs : List PeerGroupInfo) (f : E)
      → IsConsistent f
      → IsConsistent (filed A G cpl_fnc p gs f)
  filed-IsConsistent p gs f v = record {
    agree = λ q. elim (Bool-cases (p == q)) [
      | inl s ↦
          subst
            (λ k.
              fetch k (inn (cpl_fnc k) (filed A G cpl_fnc p gs f))
              ≡ Option.map (map key_of) (fetch k (filed A G cpl_fnc p gs f).peer_groups))
            ((==_iff p q).0 s) (own_keys p gs f v)
      | inr n ↦
          let other : p ≢ q = λ e. ground arith in
          fetch-filed_ne p q gs f (cpl_fnc q) (inl other)
          ∙ v.agree q
          ∙ ap (Option.map (map key_of)) (sym (fetch-insert_ne p q _ f.peer_groups other))
    ];
    elsewhere = λ c q ne. fetch-filed_ne p q gs f c (away p q c ne) ∙ v.elsewhere c q ne;
    no_empty = λ c m e.
        still_filled (cpl_fnc p) c _ f.cpl_peer_groups (put-nonempty p _ (inn (cpl_fnc p) f))
          (v.no_empty c) m e;
  }
