-- ===== src/KBucket/Nearest/Sorted.antt =====
-- `SortClosestPeers`: the same peers, in the order of their distance to the target.
use mathlib.Core.List.{Perm}
use mathlib.Core.List.Perm
use dep2p.Base.{◌≡◌, refl, sym, subst, ap, ◌∙◌, List, [], ◌∷◌, ◌++◌, map}
use dep2p.Base.Predicates.{All, All-append}
use dep2p.Base.Sorting
use dep2p.Base.Sorting.{IsSorted, sort-perm, sort-All, sort-IsSorted}
use dep2p.Keyspace.{PeerId, Bytes, Primitives, convert_peer_id}
use dep2p.KBucket.Nearest.{PeerDistance, less_peer, append_peer, append_ids, sort_closest_peers}
use dep2p.KBucket.Nearest.Laws.{out_of-none, less_peer-IsOrder}

map_append :
    (xs ys : List PeerDistance) → map (λ d. d.p) (xs ++ ys) ≡ map (λ d. d.p) xs ++ map (λ d. d.p) ys
map_append [] ys = refl
map_append (x ∷ xs) ys = ap (◌∷◌ x.p) (map_append xs ys)

append_nil : (xs : List PeerId) → xs ++ [] ≡ xs
append_nil [] = refl
append_nil (x ∷ xs) = ap (◌∷◌ x) (append_nil xs)

append_later :
    (xs : List PeerId) (p : PeerId) (ys : List PeerId) → (xs ++ (p ∷ [])) ++ ys ≡ xs ++ (p ∷ ys)
append_later [] p ys = refl
append_later (x ∷ xs) p ys = ap (◌∷◌ x) (append_later xs p ys)

module _ (P : Primitives) (target : Bytes) where
  open P use {xor_bytes}

  ids_kept :
      (ps : List PeerId) (ds : List PeerDistance)
      → map (λ d. d.p) (append_ids P target ps ds) ≡ map (λ d. d.p) ds ++ ps
  unfolding append_ids append_peer
  ids_kept [] ds = sym (append_nil (map (λ d. d.p) ds))
  ids_kept (p ∷ ps) ds =
      let new : PeerDistance = record {
        p = p;
        mode = 0;
        distance = xor_bytes target (convert_peer_id P p);
      } in
      ids_kept ps (ds ++ (new ∷ []))
      ∙ ap (λ (xs : List PeerId). xs ++ ps) (map_append ds (new ∷ []))
      ∙ append_later (map (λ d. d.p) ds) p ps

  -- Each entry has the distance of its peer's key to the target.
  abbrev pub IsMeasured : PeerDistance → Type 0
  IsMeasured d = d.distance ≡ xor_bytes target (convert_peer_id P d.p)

  measured :
      (ps : List PeerId) (ds : List PeerDistance)
      → All IsMeasured ds
      → All IsMeasured (append_ids P target ps ds)
  unfolding append_ids append_peer
  measured [] ds h = h
  measured (p ∷ ps) ds h = measured ps _ (All-append IsMeasured ds _ h (refl, tt))

  -- `SortClosestPeers` returns the given peers, each as often as it is given, in the order of the
  -- exclusive or of their keys with the target.
  pub sort_closest_peers-sorts :
      (peers : List PeerId)
      → (ds : List PeerDistance) × (sort_closest_peers P peers target ≡ map (λ d. d.p) ds)
        × Perm (map (λ d. d.p) ds) peers
        × IsSorted (less_peer P) ds
        × All IsMeasured ds
  unfolding sort_closest_peers
  sort_closest_peers-sorts peers =
      let ds : List PeerDistance = append_ids P target peers [] in
      (
        Sorting.sort (less_peer P) ds,
        out_of-none (Sorting.sort (less_peer P) ds),
        subst (λ (ps : List PeerId). Perm (map (λ d. d.p) (Sorting.sort (less_peer P) ds)) ps)
            (ids_kept peers []) (Perm.map (λ (d : PeerDistance). d.p) (sort-perm (less_peer P) ds)),
        sort-IsSorted (less_peer P) (less_peer-IsOrder P) ds,
        sort-All (less_peer P) IsMeasured ds (measured peers [] tt),
      )
