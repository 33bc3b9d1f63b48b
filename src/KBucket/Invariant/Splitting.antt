-- ===== src/KBucket/Invariant/Splitting.antt =====
-- `nextBucket` ends, and separates the peers that share different prefixes.
use native.Mathlib.Decide.{dec_le}
use dep2p.Base.{
  ℕ, zero, suc, ◌+◌, ◌-◌, ◌≤◌, ◌<◌, ◌≡◌, refl, ap, inl, inr, List, [], ◌∷◌, some, arith, length,
  leb, get_or, Bool-cases, leb→le,
}
use dep2p.Keyspace.{Bytes, Primitives, convert_peer_id}
use dep2p.Keyspace.Distance.{IsDigest, common_prefix_len-le, sum256-IsDigest}
use dep2p.KBucket.Bucket.{Bucket, len}
use dep2p.KBucket.Buckets.{split_last}
use dep2p.KBucket.Buckets.Laws.{length-split_last}
use dep2p.KBucket.Table.{RoutingTable, bucket_at}
use dep2p.KBucket.Change.{next_bucket, split_fuel}
use dep2p.KBucket.Invariant.{Placed, IsValid}
use dep2p.KBucket.Invariant.Changes.{split_last-IsValid}

last_index : (n : ℕ) → suc n - 1 ≡ n
last_index n = omega arith

module _ (P : Primitives) where
  -- Behind 256 buckets no peer is left: no prefix is longer than a key.
  far_empty :
      (local : Bytes)
      → IsDigest local
      → (i : ℕ) (bs : List Bucket) → Placed P local i bs
      → 257 ≤ i + (length bs - 1)
      → get_or bs (length bs - 1) [] ≡ []
  unfolding convert_peer_id
  far_empty local d i [] h far = refl
  far_empty local d i ([] ∷ []) h far = refl
  far_empty local d i ((q ∷ b) ∷ []) h far =
      let key : IsDigest q.dht_id = rw h.0.0 (sum256-IsDigest P q.id) in
      absurd (omega (arith, h.0.1, common_prefix_len-le P key d))
  far_empty local d i (b ∷ c ∷ bs) h far =
      rw (last_index (suc (length bs)))
        (rw (last_index (length bs)) at (far_empty local d (suc i) (c ∷ bs) h.1 (omega arith)))

module _ (P : Primitives) {S : Type 0} where
  -- The last bucket of the table.
  abbrev pub last_bucket : RoutingTable S → Bucket
  last_bucket t = bucket_at t (length t.buckets - 1)

  abbrev pub split_table : RoutingTable S → RoutingTable S
  split_table t = record t { buckets = split_last P t.local 0 t.buckets }

  pub length-split_table :
      (t : RoutingTable S) → IsValid P t → length (split_table t).buckets ≡ suc (length t.buckets)
  length-split_table t v = nonempty t.buckets v.placed
    where
      nonempty :
          (bs : List Bucket)
          → Placed P t.local 0 bs
          → length (split_last P t.local 0 bs) ≡ suc (length bs)
      nonempty [] h = absurd h
      nonempty (b ∷ bs) h = length-split_last P t.local 0 b bs

  -- A table whose last bucket is not empty has at most 257 buckets.
  few_buckets :
      (t : RoutingTable S) → IsValid P t → 0 < len (last_bucket t) → length t.buckets ≤ 257
  unfolding bucket_at
  few_buckets t v h = elim (dec_le (length t.buckets) 257) [
    | yes le ↦ le
    | no gt ↦
        let e = far_empty P t.local v.digest 0 t.buckets v.placed (omega arith) in
        absurd (omega (arith, ap length e))
  ]

  -- With room for a peer in each bucket, `nextBucket` ends.
  next_bucket_total :
      (fuel : ℕ) (t : RoutingTable S)
      → IsValid P t
      → 0 < t.bucketsize
      → 0 < fuel
      → 258 ≤ fuel + length t.buckets
      → (u : RoutingTable S) × (next_bucket P fuel t ≡ some u)
  unfolding next_bucket
  next_bucket_total zero t v pos p f = absurd (omega arith)
  next_bucket_total (suc fuel) t v pos p f =
      let v' : IsValid P (split_table t) = split_last-IsValid P t v in
      elim (Bool-cases (leb t.bucketsize (len (last_bucket (split_table t))))) [
        | inr done ↦ (split_table t, rw done)
        | inl more ↦
            let full = leb→le t.bucketsize (len (last_bucket (split_table t))) more in
            let few = few_buckets (split_table t) v' (omega arith) in
            let (u, e) =
              next_bucket_total fuel (split_table t) v' pos (omega (arith, length-split_table t v))
                (omega (arith, length-split_table t v)) in
            (u, rw more e)
      ]

  -- For a valid table with a positive bucket size `nextBucket` ends within `split_fuel` rounds.
  pub next_bucket_ends :
      (t : RoutingTable S)
      → IsValid P t
      → 0 < t.bucketsize
      → (u : RoutingTable S) × (next_bucket P split_fuel t ≡ some u)
  unfolding split_fuel
  next_bucket_ends t v pos = next_bucket_total 258 t v pos (omega arith) (omega arith)
