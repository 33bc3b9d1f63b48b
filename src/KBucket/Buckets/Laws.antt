-- ===== src/KBucket/Buckets/Laws.antt =====
-- Laws of the loops over the buckets: changing one bucket, and splitting the last.
use dep2p.Base.{
  ℕ, zero, suc, ◌+◌, ◌<◌, ◌≡◌, ◌≢◌, refl, ap, inl, inr, List, [], ◌∷◌, none, arith, length, ltb,
  get_or, Bool-cases,
}
use dep2p.Base.Predicates.{All}
use dep2p.Keyspace.{PeerId, Bytes, Primitives, common_prefix_len}
use dep2p.KBucket.Bucket.{Bucket, split, get_peer}
use dep2p.KBucket.Bucket.Laws.{Distinct}
use dep2p.KBucket.Buckets.{modify, split_last}

module _ {ℓ} {A : Type ℓ} where
  pub length-modify : (i : ℕ) (f : A → A) (xs : List A) → length (modify i f xs) ≡ length xs
  unfolding modify
  length-modify i f [] = refl
  length-modify zero f (x ∷ xs) = refl
  length-modify (suc i) f (x ∷ xs) = ap suc (length-modify i f xs)

  -- A change to a value computed from the element is a change of the element.
  pub modify_const :
      (i : ℕ) (f : A → A) (d : A) (xs : List A)
      → modify i (λ _. f (get_or xs i d)) xs ≡ modify i f xs
  unfolding modify
  modify_const i f d [] = refl
  modify_const zero f d (x ∷ xs) = refl
  modify_const (suc i) f d (x ∷ xs) = ap (◌∷◌ x) (modify_const i f d xs)

  pub get_or-modify :
      (i : ℕ) (f : A → A) (d : A) (xs : List A)
      → i < length xs
      → get_or (modify i f xs) i d ≡ f (get_or xs i d)
  unfolding modify
  get_or-modify i f d [] h = absurd (omega arith)
  get_or-modify zero f d (x ∷ xs) h = refl
  get_or-modify (suc i) f d (x ∷ xs) h = get_or-modify i f d xs (omega arith)

  pub get_or-modify_ne :
      (i j : ℕ) (f : A → A) (d : A) (xs : List A)
      → i ≢ j
      → get_or (modify i f xs) j d ≡ get_or xs j d
  unfolding modify
  get_or-modify_ne i j f d [] h = refl
  get_or-modify_ne zero zero f d (x ∷ xs) h = absurd (h refl)
  get_or-modify_ne zero (suc j) f d (x ∷ xs) h = refl
  get_or-modify_ne (suc i) zero f d (x ∷ xs) h = refl
  get_or-modify_ne (suc i) (suc j) f d (x ∷ xs) h = get_or-modify_ne i j f d xs (λ e. h (ap suc e))

  pub modify-modify :
      (i : ℕ) (f g : A → A) (xs : List A) → modify i g (modify i f xs) ≡ modify i (λ x. g (f x)) xs
  unfolding modify
  modify-modify i f g [] = refl
  modify-modify zero f g (x ∷ xs) = refl
  modify-modify (suc i) f g (x ∷ xs) = ap (◌∷◌ x) (modify-modify i f g xs)

  pub modify-All {κ} :
      (Q : A → Type κ) (i : ℕ) (f : A → A) (d : A) (xs : List A)
      → All Q xs
      → (i < length xs → Q (f (get_or xs i d)))
      → All Q (modify i f xs)
  unfolding modify
  modify-All Q i f d [] h k = tt
  modify-All Q zero f d (x ∷ xs) h k = (k (omega arith), h.1)
  modify-All Q (suc i) f d (x ∷ xs) h k = (h.0, modify-All Q i f d xs h.1 (λ p. k (omega arith)))

  pub get_or-All {κ} :
      (Q : A → Type κ) (i : ℕ) (d : A) (xs : List A) → All Q xs → Q d → Q (get_or xs i d)
  get_or-All Q i d [] h k = k
  get_or-All Q zero d (x ∷ xs) h k = h.0
  get_or-All Q (suc i) d (x ∷ xs) h k = get_or-All Q i d xs h.1 k

module _ (P : Primitives) (local : Bytes) where
  pub length-split :
      (i : ℕ) (b : Bucket) → length (split P i local b).0 + length (split P i local b).1 ≡ length b
  unfolding split
  length-split i [] = refl
  length-split i (q ∷ b) = ground (arith, length-split i b)

  pub get_peer-split :
      (i : ℕ) (b : Bucket) (k : PeerId)
      → get_peer b k ≡ none
      → (get_peer (split P i local b).0 k ≡ none) × (get_peer (split P i local b).1 k ≡ none)
  unfolding split get_peer
  get_peer-split i [] k h = (refl, refl)
  get_peer-split i (q ∷ b) k h = ground (arith, get_peer-split i b k)

  pub split-Distinct :
      (i : ℕ) (b : Bucket)
      → Distinct b
      → Distinct (split P i local b).0 × Distinct (split P i local b).1
  unfolding split
  split-Distinct i [] d = (tt, tt)
  split-Distinct i (q ∷ b) d =
      let (kept, moved) = split-Distinct i b d.1 in
      let (out, out') = get_peer-split i b q.id d.0 in
      elim (Bool-cases (ltb i (common_prefix_len P q.dht_id local))) [
        | inl t ↦ rw t (kept, (out', moved))
        | inr f ↦ rw f ((out, kept), moved)
      ]

  -- What both halves of a split bucket keep, the split table keeps.
  pub split_last-All {κ} :
      (Q : Bucket → Type κ)
      → ((i : ℕ) (b : Bucket) → Q b → Q (split P i local b).0 × Q (split P i local b).1)
      → (i : ℕ) (bs : List Bucket) → All Q bs
      → All Q (split_last P local i bs)
  unfolding split_last
  split_last-All Q halves i [] h = tt
  split_last-All Q halves i (b ∷ []) h = (let k = halves i b h.0 in (k.0, (k.1, tt)))
  split_last-All Q halves i (b ∷ c ∷ bs) h = (h.0, split_last-All Q halves (suc i) (c ∷ bs) h.1)

  pub length-split_last :
      (i : ℕ) (b : Bucket) (bs : List Bucket)
      → length (split_last P local i (b ∷ bs)) ≡ suc (length (b ∷ bs))
  unfolding split_last
  length-split_last i b [] = refl
  length-split_last i b (c ∷ bs) = ap suc (length-split_last (suc i) c bs)
