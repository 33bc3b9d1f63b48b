-- ===== src/KBucket/Invariant/Placement.antt =====
-- How the loops over the buckets keep every peer in the bucket of its prefix.
use dep2p.Base.{
  ℕ, zero, suc, ◌+◌, ◌≤◌, ◌<◌, ◌≡◌, inl, inr, List, [], ◌∷◌, arith, length, ltb, get_or, ltb→lt,
  Bool-cases,
}
use dep2p.Base.Predicates.{All, All-imp}
use dep2p.Keyspace.{Bytes, Primitives, common_prefix_len}
use dep2p.KBucket.Bucket.{Bucket, split}
use dep2p.KBucket.Buckets.{modify, slot, trim, split_last}
use dep2p.KBucket.Invariant.Trimming.{Trims, drop_last, drop_before, later, trim-keeps}
use dep2p.KBucket.Invariant.{IsAt, IsFrom, Placed}

pub slot_last : (k : ℕ) → slot 1 k ≡ 0
unfolding slot
slot_last k = ground arith

pub slot_first : (n : ℕ) → slot (suc (suc n)) 0 ≡ 0
unfolding slot
slot_first n = ground arith

pub slot-suc : (n k : ℕ) → slot (suc (suc n)) (suc k) ≡ suc (slot (suc n) k)
unfolding slot
slot-suc n k = ground arith

pub slot-lt-length : (n k : ℕ) → 0 < n → slot n k < n
unfolding slot
slot-lt-length n k h = ground arith

module _ (P : Primitives) (local : Bytes) where
  at→from : (i : ℕ) (b : Bucket) → All (IsAt P local i) b → All (IsFrom P local i) b
  at→from i b h = All-imp (IsAt P local i) (IsFrom P local i) (λ q k. (k.0, omega arith)) b h

  lower : (i j : ℕ) (b : Bucket) → i ≤ j → All (IsFrom P local j) b → All (IsFrom P local i) b
  lower i j b le h = All-imp (IsFrom P local j) (IsFrom P local i) (λ q k. (k.0, omega arith)) b h

  pub Placed-cons :
      (i : ℕ) (b : Bucket) (bs : List Bucket)
      → All (IsAt P local i) b
      → Placed P local (suc i) bs
      → Placed P local i (b ∷ bs)
  Placed-cons i b [] h p = absurd p
  Placed-cons i b (c ∷ bs) h p = (h, p)

  -- A change of the bucket of one prefix length, which keeps that bucket's kind of peers.
  pub modify-Placed :
      (f : Bucket → Bucket) (k i cpl : ℕ) (bs : List Bucket)
      → i + k ≡ cpl
      → ((b : Bucket) → All (IsAt P local cpl) b → All (IsAt P local cpl) (f b))
      → ((j : ℕ) (b : Bucket) → j ≤ cpl → All (IsFrom P local j) b → All (IsFrom P local j) (f b))
      → Placed P local i bs
      → Placed P local i (modify (slot (length bs) k) f bs)
  unfolding modify
  modify-Placed f k i cpl [] e at from h = absurd h
  modify-Placed f k i cpl (b ∷ []) e at from h = rw (slot_last k) (from i b (omega arith) h)
  modify-Placed f zero i cpl (b ∷ c ∷ bs) e at from h =
      let here : cpl ≡ i = omega arith in
      rw (slot_first (length bs)) (rw here at (at b (rw here h.0)), h.1)
  modify-Placed f (suc k) i cpl (b ∷ c ∷ bs) e at from h = rw (slot-suc (length bs) k) (
      Placed-cons i b (modify (slot (suc (length bs)) k) f (c ∷ bs)) h.0
        (modify-Placed f k (suc i) cpl (c ∷ bs) (omega arith) at from h.1))

  -- The bucket of a prefix length holds the peers of that length, or those of its index or longer.
  pub slot-Placed :
      (Q : Bucket → Type 0) (k i cpl : ℕ) (bs : List Bucket)
      → i + k ≡ cpl
      → ((b : Bucket) → All (IsAt P local cpl) b → Q b)
      → ((j : ℕ) (b : Bucket) → j ≤ cpl → suc j ≡ i + length bs → All (IsFrom P local j) b → Q b)
      → Placed P local i bs
      → Q (get_or bs (slot (length bs) k) [])
  slot-Placed Q k i cpl [] e at from h = absurd h
  slot-Placed Q k i cpl (b ∷ []) e at from h =
      rw (slot_last k) (from i b (omega arith) (omega arith) h)
  slot-Placed Q zero i cpl (b ∷ c ∷ bs) e at from h =
      let here : cpl ≡ i = omega arith in rw (slot_first (length bs)) (at b (rw here h.0))
  slot-Placed Q (suc k) i cpl (b ∷ c ∷ bs) e at from h = rw (slot-suc (length bs) k) (
      slot-Placed Q k (suc i) cpl (c ∷ bs) (omega arith) at
        (λ j d le n k'. from j d le (omega arith) k') h.1)

  Trims-Placed :
      (i : ℕ) {bs bs' : List Bucket} → Trims bs bs' → Placed P local i bs → Placed P local i bs'
  Trims-Placed i (drop_last b c e) h = at→from i b h.0
  Trims-Placed i (drop_before b c e) h = lower i (suc i) c (omega arith) h.1
  Trims-Placed i (later b (drop_last c d e)) h = (h.0, Trims-Placed (suc i) (drop_last c d e) h.1)
  Trims-Placed i (later b (drop_before c d e)) h =
      (h.0, Trims-Placed (suc i) (drop_before c d e) h.1)
  Trims-Placed i (later b (later c t)) h = (h.0, Trims-Placed (suc i) (later c t) h.1)

  pub trim-Placed :
      (fuel i : ℕ) (bs : List Bucket) → Placed P local i bs → Placed P local i (trim fuel bs)
  trim-Placed fuel i bs h =
      trim-keeps (Placed P local i) (λ xs ys t k. Trims-Placed i t k) fuel bs h

  split-Placed :
      (i : ℕ) (b : Bucket)
      → All (IsFrom P local i) b
      → All (IsAt P local i) (split P i local b).0
        × All (IsFrom P local (suc i)) (split P i local b).1
  unfolding split
  split-Placed i [] h = (tt, tt)
  split-Placed i (q ∷ b) h =
      let (kept, moved) = split-Placed i b h.1 in
      elim (Bool-cases (ltb i (common_prefix_len P q.dht_id local))) [
        | inl t ↦ rw t (kept, ((h.0.0, ltb→lt _ _ t), moved))
        | inr f ↦ rw f (((h.0.0, ground (arith, h.0.1)), kept), moved)
      ]

  pub split_last-Placed :
      (i : ℕ) (bs : List Bucket) → Placed P local i bs → Placed P local i (split_last P local i bs)
  unfolding split_last
  split_last-Placed i [] h = h
  split_last-Placed i (b ∷ []) h = split-Placed i b h
  split_last-Placed i (b ∷ c ∷ bs) h =
      Placed-cons i b (split_last P local (suc i) (c ∷ bs)) h.0
        (split_last-Placed (suc i) (c ∷ bs) h.1)
