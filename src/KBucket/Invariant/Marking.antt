-- ===== src/KBucket/Invariant/Marking.antt =====
-- `MarkAllPeersIrreplaceable` keeps the table valid, and leaves no replaceable peer.
use dep2p.Base.{ℕ, suc, ◌≡◌, refl, ap, arith, false, List, [], ◌∷◌, map, none}
use dep2p.Base.Predicates.{All}
use dep2p.Keyspace.{PeerId, Bytes, Primitives}
use dep2p.KBucket.Bucket.{PeerInfo, Bucket, len, get_peer, update_all_with}
use dep2p.KBucket.Bucket.Laws.{Distinct}
use dep2p.KBucket.Table.{RoutingTable, mark_all_peers_irreplaceable}
use dep2p.KBucket.Invariant.{IsValid, IsAt, IsFrom, Placed, Sized, AllDistinct}

module _ (f : PeerInfo → PeerInfo) (same : (q : PeerInfo) → (f q).id ≡ q.id) where
  update_all-All :
      (Q : PeerInfo → Type 0) (b : Bucket)
      → ((q : PeerInfo) → Q q → Q (f q))
      → All Q b
      → All Q (update_all_with f b)
  unfolding update_all_with
  update_all-All Q [] k h = tt
  update_all-All Q (q ∷ b) k h = (k q h.0, update_all-All Q b k h.1)

  length-update_all : (b : Bucket) → len (update_all_with f b) ≡ len b
  unfolding update_all_with
  length-update_all [] = refl
  length-update_all (q ∷ b) = ap suc (length-update_all b)

  get_peer-update_all :
      (k : PeerId) (b : Bucket) → get_peer b k ≡ none → get_peer (update_all_with f b) k ≡ none
  unfolding update_all_with get_peer
  get_peer-update_all k [] h = refl
  get_peer-update_all k (q ∷ b) h = ground (arith, same q, get_peer-update_all k b)

  update_all-Distinct : (b : Bucket) → Distinct b → Distinct (update_all_with f b)
  unfolding update_all_with
  update_all-Distinct [] d = tt
  update_all-Distinct (q ∷ b) d =
      (rw (same q) (get_peer-update_all q.id b d.0), update_all-Distinct b d.1)

  all-Distinct : (bs : List Bucket) → AllDistinct bs → AllDistinct (map (update_all_with f) bs)
  all-Distinct [] d = tt
  all-Distinct (b ∷ bs) d = (update_all-Distinct b d.0, all-Distinct bs d.1)

  all-Sized : (n : ℕ) (bs : List Bucket) → Sized n bs → Sized n (map (update_all_with f) bs)
  all-Sized n [] h = tt
  all-Sized n (b ∷ bs) h = (omega (arith, length-update_all b, h.0), all-Sized n bs h.1)

mark : PeerInfo → PeerInfo
mark p = record p { replaceable = false }

module _ (P : Primitives) (local : Bytes) where
  all-Placed :
      (i : ℕ) (bs : List Bucket)
      → Placed P local i bs
      → Placed P local i (map (update_all_with mark) bs)
  unfolding mark
  all-Placed i [] h = h
  all-Placed i (b ∷ []) h = update_all-All mark (λ q. refl) (IsFrom P local i) b (λ q k. k) h
  all-Placed i (b ∷ c ∷ bs) h = (
    update_all-All mark (λ q. refl) (IsAt P local i) b (λ q k. k) h.0,
    all-Placed (suc i) (c ∷ bs) h.1,
  )

module _ (P : Primitives) {S : Type 0} where
  pub mark_all-IsValid :
      (t : RoutingTable S) → IsValid P t → IsValid P (mark_all_peers_irreplaceable t)
  unfolding mark_all_peers_irreplaceable mark
  mark_all-IsValid t v = record {
    digest = v.digest;
    placed = all-Placed P t.local 0 t.buckets v.placed;
    sized = all-Sized mark (λ q. refl) t.bucketsize t.buckets v.sized;
    distinct = all-Distinct mark (λ q. refl) t.buckets v.distinct;
  }

-- No peer of a bucket may be replaced.
abbrev pub Irreplaceable : Bucket → Type 0
Irreplaceable = All (λ q. q.replaceable ≡ false)

marked : (b : Bucket) → Irreplaceable (update_all_with mark b)
unfolding update_all_with mark
marked [] = tt
marked (q ∷ b) = (refl, marked b)

all_marked : (bs : List Bucket) → All Irreplaceable (map (update_all_with mark) bs)
all_marked [] = tt
all_marked (b ∷ bs) = (marked b, all_marked bs)

module _ {S : Type 0} where
  pub mark_all-Irreplaceable :
      (t : RoutingTable S) → All Irreplaceable (mark_all_peers_irreplaceable t).buckets
  unfolding mark_all_peers_irreplaceable mark
  mark_all-Irreplaceable t = all_marked t.buckets
