-- ===== src/KBucket/Bucket/Laws.antt =====
-- Laws of a bucket's operations.
use mathlib.Core.Option
use mathlib.Core.Path.{subst}
use dep2p.Base.{
  suc, ◌≤◌, ◌≡◌, ◌≢◌, refl, ap, ◌∙◌, inl, inr, Bool, true, false, [], ◌∷◌, none, some, arith,
  length, ◌==◌, if◌then◌else◌, Bool-cases,
}
use dep2p.Base.Predicates.{All, All-imp}
use dep2p.Keyspace.{PeerId}
use dep2p.KBucket.Buckets.{any_replaceable}
use dep2p.KBucket.Bucket.{PeerInfo, Bucket, get_peer, update_peer, remove, peers, min_from, min}

-- No identity stands twice in the bucket.
abbrev pub Distinct : Bucket → Type 0
Distinct [] = Unit
Distinct (q ∷ b) = (get_peer b q.id ≡ none) × Distinct b

pub peers-id : (b : Bucket) → peers b ≡ b
unfolding peers
peers-id [] = refl
peers-id (q ∷ b) = ap (◌∷◌ q) (peers-id b)

pub get_peer-id : (b : Bucket) (p : PeerId) (q : PeerInfo) → get_peer b p ≡ some q → q.id ≡ p
unfolding get_peer
get_peer-id [] p q h = cc
get_peer-id (r ∷ b) p q h = ground (arith, get_peer-id b p q)

pub get_peer-All {κ} :
    (Q : PeerInfo → Type κ) (b : Bucket) (p : PeerId) {q : PeerInfo}
    → All Q b
    → get_peer b p ≡ some q
    → Q q
unfolding get_peer
get_peer-All Q [] p h e = cc
get_peer-All Q (r ∷ b) p {q} h e = elim (Bool-cases (r.id == p)) [
  | inl t ↦ let same : r ≡ q = ground arith in subst Q same h.0
  | inr f ↦ get_peer-All Q b p h.1 (rw f at e)
]

pub remove-All {κ} :
    (Q : PeerInfo → Type κ) (p : PeerId) (b : Bucket) → All Q b → All Q (remove p b).1
unfolding remove
remove-All Q p [] h = tt
remove-All Q p (r ∷ b) h = elim (Bool-cases (r.id == p)) [
  | inl t ↦ rw t h.1
  | inr f ↦ rw f (h.0, remove-All Q p b h.1)
]

-- `remove` finds what `getPeer` finds, and takes one peer away.
pub remove_found :
    (p : PeerId) (b : Bucket) (q : PeerInfo)
    → get_peer b p ≡ some q
    → ((remove p b).0 ≡ true) × (suc (length (remove p b).1) ≡ length b)
unfolding remove get_peer
remove_found p [] q h = cc
remove_found p (r ∷ b) q h = ground (arith, remove_found p b q)

pub remove_missing : (p : PeerId) (b : Bucket) → get_peer b p ≡ none → remove p b ≡ (false, b)
unfolding remove get_peer
remove_missing p [] h = refl
remove_missing p (r ∷ b) h = ground (arith, remove_missing p b)

-- The other identities keep their peers.
pub get_peer-remove_ne :
    (p k : PeerId) (b : Bucket) → k ≢ p → get_peer (remove p b).1 k ≡ get_peer b k
unfolding remove get_peer
get_peer-remove_ne p k [] h = refl
get_peer-remove_ne p k (r ∷ b) h = ground (arith, get_peer-remove_ne p k b h)

pub get_peer-remove_self : (p : PeerId) (b : Bucket) → Distinct b → get_peer (remove p b).1 p ≡ none
unfolding remove get_peer
get_peer-remove_self p [] d = refl
get_peer-remove_self p (r ∷ b) d = elim (Bool-cases (r.id == p)) [
  | inl t ↦ ground (arith, d.0)
  | inr f ↦ ground (arith, get_peer-remove_self p b d.1)
]

pub remove-Distinct : (p : PeerId) (b : Bucket) → Distinct b → Distinct (remove p b).1
unfolding remove get_peer
remove-Distinct p [] d = tt
remove-Distinct p (r ∷ b) d = elim (Bool-cases (r.id == p)) [
  | inl t ↦ rw t d.1
  | inr f ↦ rw f (ground (arith, get_peer-remove_ne p r.id b, d.0), remove-Distinct p b d.1)
]

module _ (f : PeerInfo → PeerInfo) (same : (q : PeerInfo) → (f q).id ≡ q.id) where
  pub get_peer-update_peer :
      (p k : PeerId) (b : Bucket)
      → get_peer (update_peer f p b) k
        ≡ (if k == p then Option.map f (get_peer b k) else get_peer b k)
  unfolding update_peer get_peer
  get_peer-update_peer p k [] = ground arith
  get_peer-update_peer p k (r ∷ b) = ground (arith, same r, get_peer-update_peer p k b)

  pub length-update_peer : (p : PeerId) (b : Bucket) → length (update_peer f p b) ≡ length b
  unfolding update_peer
  length-update_peer p [] = refl
  length-update_peer p (r ∷ b) = ground (arith, length-update_peer p b)

  pub update_peer-Distinct : (p : PeerId) (b : Bucket) → Distinct b → Distinct (update_peer f p b)
  unfolding update_peer
  update_peer-Distinct p [] d = tt
  update_peer-Distinct p (r ∷ b) d = elim (Bool-cases (r.id == p)) [
    | inl t ↦ rw (t, same r) d
    | inr e ↦
        rw e
          (rw (get_peer-update_peer p r.id b) (ground (arith, d.0)), update_peer-Distinct p b d.1)
  ]

pub update_peer-All {κ} :
    (Q : PeerInfo → Type κ) (f : PeerInfo → PeerInfo) (p : PeerId) (b : Bucket)
    → ((q : PeerInfo) → Q q → Q (f q))
    → All Q b
    → All Q (update_peer f p b)
unfolding update_peer
update_peer-All Q f p [] k h = tt
update_peer-All Q f p (r ∷ b) k h = elim (Bool-cases (r.id == p)) [
  | inl t ↦ rw t (k r h.0, h.1)
  | inr e ↦ rw e (h.0, update_peer-All Q f p b k h.1)
]

module _ {κ} (Q : PeerInfo → Type κ) (lt : PeerInfo → PeerInfo → Bool) where
  min_from-All : (m : PeerInfo) (b : Bucket) → Q m → All Q b → Q (min_from lt m b)
  unfolding min_from
  min_from-All m [] hm hb = hm
  min_from-All m (x ∷ b) hm hb = elim (Bool-cases (lt x m)) [
    | inl t ↦ rw t (min_from-All x b hb.0 hb.1)
    | inr f ↦ rw f (min_from-All m b hm hb.1)
  ]

  -- The least value is one of the bucket's peers.
  pub min-All : (b : Bucket) (r : PeerInfo) → All Q b → min lt b ≡ some r → Q r
  unfolding min
  min-All [] r h e = cc
  min-All (q ∷ b) r h e =
      let same : min_from lt q b ≡ r = cc in subst Q same (min_from-All q b h.0 h.1)

pub length-remove-le : (p : PeerId) (b : Bucket) → length (remove p b).1 ≤ length b
unfolding remove
length-remove-le p [] = omega arith
length-remove-le p (r ∷ b) = ground (arith, length-remove-le p b)

-- The least value by "is replaceable" is replaceable exactly if some peer is.
min_from-replaceable :
    (m : PeerInfo) (b : Bucket)
    → (min_from (λ p1 p2. p1.replaceable) m b).replaceable
      ≡ (if m.replaceable then true else any_replaceable b)
unfolding min_from any_replaceable
min_from-replaceable m [] = ground arith
min_from-replaceable m (x ∷ b) = ground (arith, min_from-replaceable x b, min_from-replaceable m b)

-- With a replaceable peer in the bucket, `min` finds one; else it finds none that is.
pub min_found :
    (b : Bucket)
    → any_replaceable b ≡ true
    → (r : PeerInfo) × (min (λ p1 p2. p1.replaceable) b ≡ some r) × (r.replaceable ≡ true)
unfolding min any_replaceable
min_found [] h = cc
min_found (q ∷ b) h = (min_from (λ p1 p2. p1.replaceable) q b, refl, min_from-replaceable q b ∙ h)

pub min_missing :
    (b : Bucket) (r : PeerInfo)
    → any_replaceable b ≡ false
    → min (λ p1 p2. p1.replaceable) b ≡ some r
    → r.replaceable ≡ false
unfolding min any_replaceable
min_missing [] r h e = cc
min_missing (q ∷ b) r h e =
    let same : min_from (λ p1 p2. p1.replaceable) q b ≡ r = cc in
    rw (← same) (min_from-replaceable q b ∙ h)

-- Every peer of a bucket is found, if the identities differ.
pub get_peer_self : (b : Bucket) → Distinct b → All (λ q. get_peer b q.id ≡ some q) b
unfolding get_peer
get_peer_self [] d = tt
get_peer_self (q ∷ b) d = (
  ground arith,
  All-imp (λ x. get_peer b x.id ≡ some x) (λ x. get_peer (q ∷ b) x.id ≡ some x)
      (λ x h. ground (arith, d.0)) b (get_peer_self b d.1),
)

pub get_peer_here :
    (q : PeerInfo) (b : Bucket) (k : PeerId) → (q.id == k) ≡ true → get_peer (q ∷ b) k ≡ some q
unfolding get_peer
get_peer_here q b k e = rw e

pub get_peer_there :
    (q : PeerInfo) (b : Bucket) (k : PeerId)
    → (q.id == k) ≡ false
    → get_peer (q ∷ b) k ≡ get_peer b k
unfolding get_peer
get_peer_there q b k e = rw e
