-- ===== src/KBucket/Invariant/Changes.antt =====
-- Every change of the table keeps the invariant.
use dep2p.Base.{
  ℕ, zero, suc, ◌-◌, ◌≤◌, ◌<◌, ◌≡◌, refl, subst, inl, inr, [], none, some, arith, length, leb,
  Bool-cases,
}
use dep2p.Base.Predicates.{All}
use dep2p.Keyspace.{PeerId, Primitives, common_prefix_len, convert_peer_id}
use dep2p.KBucket.Bucket.{PeerInfo, Bucket, len, get_peer, push_front}
use dep2p.KBucket.Bucket.Laws.{Distinct}
use dep2p.KBucket.Buckets.{split_last, trim}
use dep2p.KBucket.Buckets.Laws.{
  modify-All, get_or-All, length-split, split-Distinct, split_last-All,
}
use dep2p.KBucket.Table.{RoutingTable, bucket_at, bucket_id_for_peer, change_bucket}
use dep2p.KBucket.Change.{next_bucket}
use dep2p.KBucket.Invariant.{IsAt, IsFrom, IsValid}
use dep2p.KBucket.Invariant.Placement.{modify-Placed, trim-Placed, split_last-Placed}
use dep2p.KBucket.Invariant.Trimming.{Trims-All, trim-keeps}

module _ (P : Primitives) {S : Type 0} (t : RoutingTable S) (p : PeerId) where
  -- The prefix of the peer, and its bucket.
  abbrev pub cpl_of : ℕ
  cpl_of = common_prefix_len P (convert_peer_id P p) t.local

  abbrev pub home : Bucket
  home = bucket_at t (bucket_id_for_peer P t p)

module _ (P : Primitives) {S : Type 0} (t : RoutingTable S) (p : PeerId) (v : IsValid P t) where
  pub home-Sized : len (home P t p) ≤ t.bucketsize
  unfolding bucket_at
  home-Sized =
      get_or-All (λ b. length b ≤ t.bucketsize) (bucket_id_for_peer P t p) [] t.buckets v.sized
        (omega arith)

  pub home-Distinct : Distinct (home P t p)
  unfolding bucket_at
  home-Distinct = get_or-All Distinct (bucket_id_for_peer P t p) [] t.buckets v.distinct tt

  -- A change of the peer's bucket that keeps the kind of peers it holds, its bound, and that
  -- their identities differ.
  pub change_bucket-IsValid :
      (f : Bucket → Bucket)
      → ((b : Bucket)
          → All (IsAt P t.local (cpl_of P t p)) b
          → All (IsAt P t.local (cpl_of P t p)) (f b))
      → ((j : ℕ) (b : Bucket)
          → j ≤ (cpl_of P t p)
          → All (IsFrom P t.local j) b
          → All (IsFrom P t.local j) (f b))
      → len (f (home P t p)) ≤ t.bucketsize
      → Distinct (f (home P t p))
      → IsValid P (change_bucket (bucket_id_for_peer P t p) f t)
  unfolding change_bucket bucket_id_for_peer bucket_at
  change_bucket-IsValid f at from bound distinct = record {
    digest = v.digest;
    placed =
        modify-Placed P t.local f (cpl_of P t p) 0 (cpl_of P t p) t.buckets (omega arith) at from
          v.placed;
    sized =
        modify-All (λ b. len b ≤ t.bucketsize) (bucket_id_for_peer P t p) f [] t.buckets v.sized
          (λ _. bound);
    distinct =
        modify-All Distinct (bucket_id_for_peer P t p) f [] t.buckets v.distinct (λ _. distinct);
  }

  -- Such as every change that keeps whatever holds of all peers.
  pub shrink-IsValid :
      (f : Bucket → Bucket)
      → ((Q : PeerInfo → Type 0) (b : Bucket) → All Q b → All Q (f b))
      → len (f (home P t p)) ≤ len (home P t p)
      → Distinct (f (home P t p))
      → IsValid P (change_bucket (bucket_id_for_peer P t p) f t)
  shrink-IsValid f keeps shorter distinct =
      change_bucket-IsValid f (keeps (IsAt P t.local (cpl_of P t p)))
        (λ j b _. keeps (IsFrom P t.local j) b) (omega (arith, home-Sized)) distinct

  -- A new peer in front, where there is room.
  pub push_front-IsValid :
      (q : PeerInfo)
      → q.id ≡ p
      → q.dht_id ≡ convert_peer_id P p
      → get_peer (home P t p) p ≡ none
      → len (home P t p) < t.bucketsize
      → IsValid P (change_bucket (bucket_id_for_peer P t p) (push_front q) t)
  unfolding push_front
  push_front-IsValid q same digest new room =
      change_bucket-IsValid (push_front q) (λ b h. (q_at, h)) (λ j b le h. (q_from j le, h)) room
        (rw same new, home-Distinct)
    where
      q_at : IsAt P t.local (cpl_of P t p) q
      q_at = rw (digest, same) (refl, refl)

      q_from : (j : ℕ) → j ≤ (cpl_of P t p) → IsFrom P t.local j q
      q_from j le = rw (digest, same) (refl, le)

module _ (P : Primitives) {S : Type 0} where
  -- The loop at the end of `removePeer` keeps the invariant.
  pub trim-IsValid :
      (t : RoutingTable S) (fuel : ℕ)
      → IsValid P t
      → IsValid P (record t { buckets = trim fuel t.buckets })
  trim-IsValid t fuel v = record {
    digest = v.digest;
    placed = trim-Placed P t.local fuel 0 t.buckets v.placed;
    sized = kept (λ b. len b ≤ t.bucketsize) v.sized;
    distinct = kept Distinct v.distinct;
  }
    where
      kept : (Q : Bucket → Type 0) → All Q t.buckets → All Q (trim fuel t.buckets)
      kept Q = trim-keeps (All Q) (λ xs ys s h. Trims-All Q s h) fuel t.buckets

  pub split_last-IsValid :
      (t : RoutingTable S)
      → IsValid P t
      → IsValid P (record t { buckets = split_last P t.local 0 t.buckets })
  split_last-IsValid t v = record {
    digest = v.digest;
    placed = split_last-Placed P t.local 0 t.buckets v.placed;
    sized =
        split_last-All P t.local (λ b. length b ≤ t.bucketsize)
          (λ i b h.
            (omega (arith, length-split P t.local i b), omega (arith, length-split P t.local i b)))
          0 t.buckets v.sized;
    distinct = split_last-All P t.local Distinct (split-Distinct P t.local) 0 t.buckets v.distinct;
  }

  pub next_bucket-IsValid :
      (fuel : ℕ) (t u : RoutingTable S) → IsValid P t → next_bucket P fuel t ≡ some u → IsValid P u
  unfolding next_bucket
  next_bucket-IsValid zero t u v e = cc
  next_bucket-IsValid (suc fuel) t u v e =
      let t' : RoutingTable S = record t { buckets = split_last P t.local 0 t.buckets } in
      let v' : IsValid P t' = split_last-IsValid t v in
      elim (Bool-cases (leb t.bucketsize (len (bucket_at t' (length t'.buckets - 1))))) [
        | inl more ↦ next_bucket-IsValid fuel t' u v' (rw more at e)
        | inr done ↦ let same : t' ≡ u = ground arith in subst (IsValid P) same v'
      ]
