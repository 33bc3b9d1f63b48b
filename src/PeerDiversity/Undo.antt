-- ===== src/PeerDiversity/Undo.antt =====
-- `Remove` takes back what `TryAdd` has done.
use mathlib.Core.Option
use dep2p.Base.{
  ℕ, ◌≡◌, refl, ap, ◌∙◌, Bool, true, false, inl, inr, List, [], ◌∷◌, ◌++◌, map, none, some,
  Option-cases,
}
use dep2p.Base.Maps.{
  Map, fetch, fetch_or, put, fetch_or-insert_self, fetch-insert_self, put-put, put_same, delete-put,
  fetch_or-missing, fetch_or-found,
}
use dep2p.Keyspace.{PeerId}
use dep2p.PeerDiversity.{
  Addresses, PeerIpGroupFilter, PeerGroupInfo, F, try_add, remove, decrement_all, nonempty, is_some,
}
use dep2p.PeerDiversity.Groups.{filed, increments, key_of, inner}
use dep2p.PeerDiversity.Outcome.{TryAddResult, whitelisted, refused, taken, try_add_ends}
use dep2p.PeerDiversity.Consistency.{IsConsistent}
use dep2p.PeerDiversity.Removal.{without, dropped}

module _ {V : Type 0} where
  taken_back :
      (c p : ℕ) (v : V) (m : Map (Map V))
      → fetch p (fetch_or [] c m) ≡ none
      → without c p (put c (put p v (fetch_or [] c m)) m) ≡ put c (fetch_or [] c m) m
  unfolding is_some
  taken_back c p v m e =
      let x = put p v (fetch_or [] c m) in
      rw
        (fetch-insert_self c x m, fetch_or-insert_self [] c x m, delete-put p v (fetch_or [] c m) e)
        (put-put c x (fetch_or [] c m) m)

  undone :
      (c p : ℕ) (v : V) (m : Map (Map V))
      → fetch p (fetch_or [] c m) ≡ none
      → ((x : Map V) → fetch c m ≡ some x → nonempty x ≡ true)
      → dropped c (without c p (put c (put p v (fetch_or [] c m)) m)) ≡ m
  unfolding nonempty
  undone c p v m e full =
      rw (taken_back c p v m e, fetch_or-insert_self [] c (fetch_or [] c m) m)
        (elim (Option-cases (fetch c m)) [
          | inl h ↦ rw (fetch_or-missing [] c m h) (delete-put c [] m h)
          | inr (x, h) ↦ rw (fetch_or-found [] c m x h, full x h) (put_same c x m h)
        ])

-- A strategy whose decrement takes an increment back, in whatever order it decrements.
pub record IsCounter {A : Addresses} (G : PeerIpGroupFilter A) : Type 0 where
  pub undo : (s : G.State) (g : PeerGroupInfo) → G.decrement (G.increment s g) g ≡ s
  pub comm :
      (s : G.State) (g h : PeerGroupInfo)
      → G.decrement (G.decrement s g) h ≡ G.decrement (G.decrement s h) g

module _ (A : Addresses) (G : PeerIpGroupFilter A) (cpl_fnc : PeerId → ℕ)
    (counter : IsCounter G) where
  abbrev E : Type 0
  E = F A G cpl_fnc

  later :
      (g : PeerGroupInfo) (gs : List PeerGroupInfo) (s : G.State)
      → decrement_all A G cpl_fnc gs (G.decrement s g)
        ≡ G.decrement (decrement_all A G cpl_fnc gs s) g
  unfolding decrement_all
  later g [] s = refl
  later g (h ∷ gs) s =
      ap (decrement_all A G cpl_fnc gs) (counter.comm s g h) ∙ later g gs (G.decrement s h)

  counts_back :
      (gs : List PeerGroupInfo) (s : G.State)
      → decrement_all A G cpl_fnc gs (increments A G cpl_fnc gs s) ≡ s
  unfolding decrement_all
  counts_back [] s = refl
  counts_back (g ∷ gs) s =
      later g gs (increments A G cpl_fnc gs (G.increment s g))
      ∙ ap (λ x. G.decrement x g) (counts_back gs (G.increment s g))
      ∙ counter.undo s g

  remove-filed :
      (p : PeerId) (gs : List PeerGroupInfo) (f : E)
      → IsConsistent A G cpl_fnc f
      → fetch p f.peer_groups ≡ none
      → remove A G cpl_fnc p (filed A G cpl_fnc p gs f) ≡ f
  unfolding remove
  remove-filed p gs f v e =
      let no_keys = v.agree p ∙ ap (Option.map (map key_of)) e in
      rw
        (
          fetch_or-insert_self [] p (fetch_or [] p f.peer_groups ++ gs) f.peer_groups,
          fetch_or-missing [] p f.peer_groups e,
          delete-put p gs f.peer_groups e,
          counts_back gs f.pgm,
          undone (cpl_fnc p) p (fetch_or [] p (inner A G cpl_fnc (cpl_fnc p) f) ++ map key_of gs)
              f.cpl_peer_groups no_keys (v.no_empty (cpl_fnc p)),
        )
        refl

  -- Where the strategy's decrement takes an increment back, and a peer without groups in a
  -- consistent filter is not whitelisted and is taken by TryAdd, then Remove gives the filter of
  -- before, in every part of it.
  pub remove-try_add :
      (p : PeerId) (f : E)
      → IsConsistent A G cpl_fnc f
      → fetch p f.peer_groups ≡ none
      → is_some (fetch p f.wlpeers) ≡ false
      → (try_add A G cpl_fnc p f).0 ≡ true
      → remove A G cpl_fnc p (try_add A G cpl_fnc p f).1 ≡ f
  remove-try_add p f v e w h = ends _ h (try_add_ends A G cpl_fnc p f)
    where
      ends :
          (r : Bool × E)
          → r.0 ≡ true
          → TryAddResult A G cpl_fnc p f r
          → remove A G cpl_fnc p r.1 ≡ f
      ends _ h (whitelisted u) = cc
      ends _ h (refused u) = cc
      ends _ h (taken g gs u l all) = remove-filed p (g ∷ gs) f v e
