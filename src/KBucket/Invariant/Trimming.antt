-- ===== src/KBucket/Invariant/Trimming.antt =====
-- The loop at the end of `removePeer`: what a round does, and that the loop ends.
use dep2p.Base.{
  ℕ, zero, suc, ◌≤◌, ◌≡◌, ◌≢◌, refl, ap, inl, inr, true, List, [], ◌∷◌, none, some, arith, length,
  ◌==◌, subst, Bool-cases, Option-cases,
}
use dep2p.Base.Predicates.{All}
use dep2p.KBucket.Bucket.{Bucket, len}
use dep2p.KBucket.Buckets.{trim_once, trim}

-- A round drops an empty last bucket, or an empty bucket before it.
pub data Trims : List Bucket → List Bucket → Type 0 where
  drop_last : (b c : Bucket) → c ≡ [] → Trims (b ∷ c ∷ []) (b ∷ [])
  drop_before : (b c : Bucket) → b ≡ [] → Trims (b ∷ c ∷ []) (c ∷ [])
  later : (b : Bucket) {bs bs' : List Bucket} → Trims bs bs' → Trims (b ∷ bs) (b ∷ bs')

nil_of_len : (b : Bucket) → (len b == 0) ≡ true → b ≡ []
nil_of_len [] h = refl
nil_of_len (q ∷ b) h = absurd (ground arith)

trim_once-Trims : (bs bs' : List Bucket) → trim_once bs ≡ some bs' → Trims bs bs'
unfolding trim_once
trim_once-Trims [] bs' e = cc
trim_once-Trims (b ∷ []) bs' e = cc
trim_once-Trims (b ∷ c ∷ []) bs' e = elim (Bool-cases (len c == 0)) [
  | inl last ↦
      let r : b ∷ [] ≡ bs' = ground arith in
      subst (Trims (b ∷ c ∷ [])) r (drop_last b c (nil_of_len c last))
  | inr full ↦ elim (Bool-cases (len b == 0)) [
    | inl before ↦
        let r : c ∷ [] ≡ bs' = ground arith in
        subst (Trims (b ∷ c ∷ [])) r (drop_before b c (nil_of_len b before))
    | inr held ↦ absurd (ground arith)
  ]
]
trim_once-Trims (b ∷ c ∷ d ∷ bs) bs' e = elim (Option-cases (trim_once (c ∷ d ∷ bs))) [
  | inl stop ↦ absurd (ground arith)
  | inr (r, more) ↦
      let same : b ∷ r ≡ bs' = ground arith in
      subst (Trims (b ∷ c ∷ d ∷ bs)) same (later b (trim_once-Trims (c ∷ d ∷ bs) r more))
]

-- What every round keeps, the loop keeps.
pub trim-keeps {ℓ} :
    (Q : List Bucket → Type ℓ)
    → ((bs bs' : List Bucket) → Trims bs bs' → Q bs → Q bs')
    → (fuel : ℕ) (bs : List Bucket) → Q bs
    → Q (trim fuel bs)
unfolding trim
trim-keeps Q keeps zero bs h = h
trim-keeps Q keeps (suc fuel) bs h = elim (Option-cases (trim_once bs)) [
  | inl e ↦ rw (e, trim) h
  | inr (bs', e) ↦
      rw (e, trim) (trim-keeps Q keeps fuel bs' (keeps bs bs' (trim_once-Trims bs bs' e) h))
]

Trims-length : {bs bs' : List Bucket} → Trims bs bs' → suc (length bs') ≡ length bs
Trims-length (drop_last b c e) = refl
Trims-length (drop_before b c e) = refl
Trims-length (later b t) = ap suc (Trims-length t)

pub Trims-All {κ} :
    (Q : Bucket → Type κ) {bs bs' : List Bucket} → Trims bs bs' → All Q bs → All Q bs'
Trims-All Q (drop_last b c e) h = (h.0, tt)
Trims-All Q (drop_before b c e) h = h.1
Trims-All Q (later b t) h = (h.0, Trims-All Q t h.1)

-- The length of the list is fuel enough: the loop has come to its `break`.
pub trim_done : (fuel : ℕ) (bs : List Bucket) → length bs ≤ fuel → trim_once (trim fuel bs) ≡ none
unfolding trim
trim_done zero [] h = refl
trim_done zero (b ∷ bs) h = absurd (omega arith)
trim_done (suc fuel) bs h = elim (Option-cases (trim_once bs)) [
  | inl e ↦ rw (e, trim) e
  | inr (bs', e) ↦
      rw (e, trim) (trim_done fuel bs' (omega (arith, Trims-length (trim_once-Trims bs bs' e))))
]

-- At the `break` the last two buckets are not empty, or there is one bucket.
abbrev pub IsTrim : List Bucket → Type 0
IsTrim [] = Unit
IsTrim (b ∷ []) = Unit
IsTrim (b ∷ c ∷ []) = (b ≢ []) × (c ≢ [])
IsTrim (b ∷ c ∷ d ∷ bs) = IsTrim (c ∷ d ∷ bs)

pub trim_once-IsTrim : (bs : List Bucket) → trim_once bs ≡ none → IsTrim bs
unfolding trim_once
trim_once-IsTrim [] h = tt
trim_once-IsTrim (b ∷ []) h = tt
trim_once-IsTrim (b ∷ c ∷ []) h = (λ e. ground arith, λ e. ground arith)
trim_once-IsTrim (b ∷ c ∷ d ∷ bs) h = trim_once-IsTrim (c ∷ d ∷ bs) (ground arith)
