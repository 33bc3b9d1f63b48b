-- ===== src/KBucket/Buckets.antt =====
-- kbucket/table.go: the loops over the list of buckets, and over one bucket.
pub mod Laws
use mathlib.Core.Option
use dep2p.Base.{
  ℕ, zero, suc, ◌+◌, ◌-◌, ◌*◌, ◌≡◌, Bool, true, false, ◌&&◌, not, List, [], ◌∷◌, ◌++◌, map, Option,
  none, some, length, get_or, ltb, leb, ◌==◌, if◌then◌else◌,
}
use dep2p.Keyspace.{PeerId, Bytes, Primitives, common_prefix_len, convert_peer_id}
use dep2p.KBucket.Bucket
use dep2p.KBucket.Bucket.{Bucket, PeerInfo, len, split}

-- Changes the element at an index; the code indexes within range (`slot-lt-length`).
unfoldable pub modify {ℓ} : {A : Type ℓ} → ℕ → (A → A) → List A → List A
modify i f [] = []
modify zero f (x ∷ xs) = f x ∷ xs
modify (suc i) f (x ∷ xs) = x ∷ modify i f xs

-- The bucket's index for a prefix length: the last bucket holds all longer prefixes.
unfoldable pub slot : ℕ → ℕ → ℕ
slot n cpl = if leb n cpl then n - 1 else cpl

-- One round of the loop at the end of `removePeer`; none is its `break`.
unfoldable pub trim_once : List Bucket → Option (List Bucket)
trim_once [] = none
trim_once (b ∷ []) = none
trim_once (b ∷ c ∷ []) =
    if len c == 0 then some (b ∷ []) else if len b == 0 then some (c ∷ []) else none
trim_once (b ∷ c ∷ d ∷ bs) = Option.map (◌∷◌ b) (trim_once (c ∷ d ∷ bs))

-- Each round shortens the list, so that its length is fuel enough (`trim_done`).
unfoldable pub trim : ℕ → List Bucket → List Bucket
unfolding trim_once
trim zero bs = bs
trim (suc fuel) bs = elim (trim_once bs) [ none ↦ bs | some bs' ↦ trim fuel bs' ]

unfoldable pub concat_peers : List Bucket → List PeerInfo
concat_peers [] = []
concat_peers (b ∷ bs) = Bucket.peers b ++ concat_peers bs

unfoldable pub total_size : List Bucket → ℕ
total_size [] = 0
total_size (b ∷ bs) = len b + total_size bs

unfoldable pub concat_ids : List Bucket → List PeerId
concat_ids [] = []
concat_ids (b ∷ bs) = Bucket.peer_ids b ++ concat_ids bs

-- `bucket.list` has a peer that may be replaced.
unfoldable pub any_replaceable : Bucket → Bool
any_replaceable [] = false
any_replaceable (q ∷ b) = if q.replaceable then true else any_replaceable b

module _ (P : Primitives) where
  unfoldable pub count_prefix : Bytes → ℕ → Bucket → ℕ
  count_prefix local cpl [] = 0
  count_prefix local cpl (q ∷ b) =
      (if common_prefix_len P local q.dht_id == cpl then 1 else 0) + count_prefix local cpl b

  -- The loop of `maxCommonPrefix`, from the last bucket on down.
  unfoldable pub max_common_prefix_from : Bytes → List Bucket → Option ℕ
  max_common_prefix_from local [] = none
  max_common_prefix_from local (b ∷ bs) = elim (max_common_prefix_from local bs) [
    | some cpl ↦ some cpl
    | none ↦ if ltb 0 (len b) then some (Bucket.max_common_prefix P local b) else none
  ]

  unfoldable pub any_other_prefix : Bytes → ℕ → Bucket → Bool
  any_other_prefix local cpl [] = false
  any_other_prefix local cpl (q ∷ b) =
      if not (common_prefix_len P local q.dht_id == cpl) then true else any_other_prefix local cpl b

  -- The last bucket split in two, at the prefix length that is its index.
  unfoldable pub split_last : Bytes → ℕ → List Bucket → List Bucket
  split_last local i [] = []
  split_last local i (b ∷ []) = let (kept, moved) = split P i local b in kept ∷ moved ∷ []
  split_last local i (b ∷ c ∷ bs) = b ∷ split_last local (suc i) (c ∷ bs)
