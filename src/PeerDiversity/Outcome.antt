-- ===== src/PeerDiversity/Outcome.antt =====
-- The ends of `TryAdd`.
use dep2p.Base.{
  ℕ, ◌≡◌, Bool, true, false, inl, inr, List, [], ◌∷◌, length, Bool-cases, Option-cases, arith,
}
use dep2p.Base.Maps.{fetch}
use dep2p.Base.Predicates.{All}
use dep2p.Keyspace.{PeerId}
use dep2p.PeerDiversity.{
  Addresses, PeerIpGroupFilter, PeerGroupInfo, F, groups_of, count_all, open_cpl, try_add, nonempty,
  is_some,
}
use dep2p.PeerDiversity.Groups.{filed, filed-open_cpl, IsGroup, groups_of-All, count_all-eq-filed}

module _ (A : Addresses) (G : PeerIpGroupFilter A) (cpl_fnc : PeerId → ℕ) where
  abbrev E : Type 0
  E = F A G cpl_fnc

  -- `TryAdd` has one of three ends: the peer is whitelisted, or it is refused, and in both the filter
  -- is as before; or it is taken, and then each of its addresses, and there is one, has a group that
  -- the strategy allows and that is filed for the peer and counted.
  pub data TryAddResult (p : PeerId) (f : E) : Bool × E → Type 0 where
    whitelisted : is_some (fetch p f.wlpeers) ≡ true → TryAddResult p f (true, f)
    refused : is_some (fetch p f.wlpeers) ≡ false → TryAddResult p f (false, f)
    taken :
        (g : PeerGroupInfo) (gs : List PeerGroupInfo)
        → is_some (fetch p f.wlpeers) ≡ false
        → length (g ∷ gs) ≡ length (G.peer_addresses f.pgm p)
        → All (IsGroup A G cpl_fnc f.pgm p) (g ∷ gs)
        → TryAddResult p f (true, filed A G cpl_fnc p (g ∷ gs) f)

  no_address : (addrs : List A.Multiaddr) → nonempty addrs ≡ true → 0 ≡ length addrs → ⊥
  unfolding nonempty
  no_address [] n l = cc
  no_address (a ∷ addrs) n l = omega arith

  counted :
      (p : PeerId) (f : E) (gs : List PeerGroupInfo)
      → is_some (fetch p f.wlpeers) ≡ false
      → nonempty (G.peer_addresses f.pgm p) ≡ true
      → length gs ≡ length (G.peer_addresses f.pgm p)
      → All (IsGroup A G cpl_fnc f.pgm p) gs
      → TryAddResult p f (true, count_all A G cpl_fnc p gs (open_cpl A G cpl_fnc (cpl_fnc p) f))
  counted p f [] w n l all = absurd (no_address _ n l)
  counted p f (g ∷ gs) w n l all =
      rw
        (
          count_all-eq-filed A G cpl_fnc p g gs (open_cpl A G cpl_fnc (cpl_fnc p) f),
          filed-open_cpl A G cpl_fnc p (g ∷ gs) f,
        )
        (taken g gs w l all)

  -- Every call of `TryAdd` has one of the ends of `TryAddResult`.
  pub try_add_ends : (p : PeerId) (f : E) → TryAddResult p f (try_add A G cpl_fnc p f)
  unfolding try_add nonempty
  try_add_ends p f = elim (Bool-cases (is_some (fetch p f.wlpeers))) [
    | inl w ↦ rw w (whitelisted w)
    | inr w ↦ elim (Bool-cases (nonempty (G.peer_addresses f.pgm p))) [
      | inr n ↦ rw (w, n) (refused w)
      | inl n ↦ elim (Option-cases (groups_of A G cpl_fnc f.pgm p (G.peer_addresses f.pgm p))) [
        | inl e ↦ rw (w, n, e) (refused w)
        | inr (gs, e) ↦
            let (l, all) = groups_of-All A G cpl_fnc f.pgm p _ gs e in
            rw (w, n, e) (counted p f gs w n l all)
      ]
    ]
  ]
