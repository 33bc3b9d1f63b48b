-- ===== src/KBucket/Nearest/Places.antt =====
-- Where the peers of a valid table stand: the buckets that `NearestPeers` goes through.
use dep2p.Base.{ℕ, zero, suc, ◌+◌, ◌<◌, ◌≡◌, refl, List, [], ◌∷◌, length, get_or, drop, arith}
use dep2p.Base.Predicates.{All, All-append, All-imp}
use dep2p.Keyspace.{Bytes, Primitives}
use dep2p.KBucket.Bucket.{Bucket}
use dep2p.KBucket.Invariant.{IsAt, IsFrom, Placed}
use dep2p.KBucket.Nearest.Near.{flat}

module _ (P : Primitives) (local : Bytes) where
  pub from_all : (k : ℕ) (bs : List Bucket) → Placed P local k bs → All (IsFrom P local k) (flat bs)
  from_all k [] h = absurd h
  from_all k (b ∷ []) h = All-append (IsFrom P local k) b [] h tt
  from_all k (b ∷ c ∷ bs) h =
      All-append (IsFrom P local k) b (flat (c ∷ bs))
        (All-imp (IsAt P local k) (IsFrom P local k) (λ q g. (g.0, omega (arith, g.1))) b h.0)
        (All-imp (IsFrom P local (suc k)) (IsFrom P local k) (λ q g. (g.0, omega (arith, g.1)))
          (flat (c ∷ bs)) (from_all (suc k) (c ∷ bs) h.1))

  -- A bucket that is not the last one, the last one, and those behind one.
  pub inner_bucket :
      (j k : ℕ) (bs : List Bucket)
      → suc j < length bs
      → Placed P local k bs
      → All (IsAt P local (k + j)) (get_or bs j [])
  inner_bucket j k [] lt h = absurd h
  inner_bucket j k (b ∷ []) lt h = absurd (omega arith)
  inner_bucket zero k (b ∷ c ∷ bs) lt h = let same : k + 0 ≡ k = omega arith in rw same h.0
  inner_bucket (suc j) k (b ∷ c ∷ bs) lt h =
      let same : k + suc j ≡ suc k + j = omega arith in
      rw same (inner_bucket j (suc k) (c ∷ bs) (omega arith) h.1)

  pub last_bucket :
      (j k : ℕ) (bs : List Bucket)
      → suc j ≡ length bs
      → Placed P local k bs
      → All (IsFrom P local (k + j)) (get_or bs j [])
  last_bucket j k [] e h = absurd h
  last_bucket zero k (b ∷ []) e h = let same : k + 0 ≡ k = omega arith in rw same h
  last_bucket (suc j) k (b ∷ []) e h = absurd (omega arith)
  last_bucket zero k (b ∷ c ∷ bs) e h = absurd (omega arith)
  last_bucket (suc j) k (b ∷ c ∷ bs) e h =
      let same : k + suc j ≡ suc k + j = omega arith in
      rw same (last_bucket j (suc k) (c ∷ bs) (omega arith) h.1)

  pub behind :
      (j k : ℕ) (bs : List Bucket)
      → Placed P local k bs
      → All (IsFrom P local (k + j)) (flat (drop j bs))
  behind zero k bs h = let same : k + 0 ≡ k = omega arith in rw same (from_all k bs h)
  behind (suc j) k [] h = tt
  behind (suc j) k (b ∷ []) h = nothing j
    where
      nothing : (j : ℕ) → All (IsFrom P local (k + suc j)) (flat (drop j []))
      nothing zero = tt
      nothing (suc j) = tt
  behind (suc j) k (b ∷ c ∷ bs) h =
      let same : k + suc j ≡ suc k + j = omega arith in rw same (behind j (suc k) (c ∷ bs) h.1)

pub some_bucket :
    (P : Primitives) (local : Bytes) (k : ℕ) (bs : List Bucket)
    → Placed P local k bs
    → 0 < length bs
some_bucket P local k [] h = absurd h
some_bucket P local k (b ∷ bs) h = omega arith

pub drop_all : (n : ℕ) (bs : List Bucket) → n ≡ length bs → flat (drop n bs) ≡ []
drop_all zero [] e = refl
drop_all zero (b ∷ bs) e = absurd (omega arith)
drop_all (suc n) [] e = refl
drop_all (suc n) (b ∷ bs) e = drop_all n bs (omega arith)
