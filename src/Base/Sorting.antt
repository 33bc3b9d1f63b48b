-- ===== src/Base/Sorting.antt =====
-- `sort.Sort` over a comparison: a sort by insertion, and what any sort promises.
use mathlib.Core.List.{Perm}
use mathlib.Core.List.Perm
use dep2p.Base.{
  ℕ, zero, suc, ◌≡◌, inl, inr, Bool, true, false, List, [], ◌∷◌, take, drop, if◌then◌else◌,
  Bool-cases,
}
use dep2p.Base.Predicates.{All}

-- A strict order of elements up to ties: `lt a b` and `lt b a` never both hold, and "not after"
-- is transitive.
pub record IsOrder {ℓ} {A : Type ℓ} (lt : A → A → Bool) : Type ℓ where
  pub asym : (a b : A) → lt a b ≡ true → lt b a ≡ false
  pub trans : (a b c : A) → lt b a ≡ false → lt c b ≡ false → lt c a ≡ false

module _ {ℓ} {A : Type ℓ} (lt : A → A → Bool) where
  unfoldable pub insert : A → List A → List A
  insert x [] = x ∷ []
  insert x (y ∷ ys) = if lt y x then y ∷ insert x ys else x ∷ y ∷ ys

  unfoldable pub sort : List A → List A
  unfolding insert
  sort [] = []
  sort (x ∷ xs) = insert x (sort xs)

  -- No element stands behind one that is after it.
  abbrev pub IsSorted : List A → Type 0
  IsSorted [] = Unit
  IsSorted (x ∷ xs) = All (λ y. lt y x ≡ false) xs × IsSorted xs

  -- Every element of the first list comes before, or ties with, every one of the second.
  abbrev pub AllBefore : List A → List A → Type 0
  AllBefore xs ys = All (λ x. All (λ y. lt y x ≡ false) ys) xs

module _ {ℓ} {A : Type ℓ} (lt : A → A → Bool) where
  insert-perm : (x : A) (ys : List A) → Perm (insert lt x ys) (x ∷ ys)
  unfolding insert
  insert-perm x [] = Perm.refl _
  insert-perm x (y ∷ ys) = elim (Bool-cases (lt y x)) [
    | inl e ↦ rw e (Perm.trans (Perm.cons y (insert-perm x ys)) (Perm.swap x y ys))
    | inr e ↦ rw e (Perm.refl _)
  ]

  pub sort-perm : (xs : List A) → Perm (sort lt xs) xs
  unfolding sort
  sort-perm [] = Perm.refl _
  sort-perm (x ∷ xs) = Perm.trans (insert-perm x (sort lt xs)) (Perm.cons x (sort-perm xs))

  pub insert-All {κ} :
      (P : A → Type κ) (x : A) (ys : List A) → P x → All P ys → All P (insert lt x ys)
  unfolding insert
  insert-All P x [] hx h = (hx, tt)
  insert-All P x (y ∷ ys) hx h = elim (Bool-cases (lt y x)) [
    | inl e ↦ rw e (h.0, insert-All P x ys hx h.1)
    | inr e ↦ rw e (hx, h)
  ]

  pub sort-All {κ} : (P : A → Type κ) (xs : List A) → All P xs → All P (sort lt xs)
  unfolding sort
  sort-All P [] h = tt
  sort-All P (x ∷ xs) h = insert-All P x (sort lt xs) h.0 (sort-All P xs h.1)

module _ {ℓ} {A : Type ℓ} (lt : A → A → Bool) (o : IsOrder lt) where
  below_trans :
      (x y : A) (ys : List A)
      → lt y x ≡ false
      → All (λ z. lt z y ≡ false) ys
      → All (λ z. lt z x ≡ false) ys
  below_trans x y [] h k = tt
  below_trans x y (z ∷ ys) h k = (o.trans x y z h k.0, below_trans x y ys h k.1)

  insert-IsSorted : (x : A) (ys : List A) → IsSorted lt ys → IsSorted lt (insert lt x ys)
  unfolding insert
  insert-IsSorted x [] s = (tt, tt)
  insert-IsSorted x (y ∷ ys) s = elim (Bool-cases (lt y x)) [
    | inl e ↦
        rw e (insert-All lt (λ z. lt z y ≡ false) x ys (o.asym y x e) s.0, insert-IsSorted x ys s.1)
    | inr e ↦ rw e ((e, below_trans x y ys e s.0), s)
  ]

  pub sort-IsSorted : (xs : List A) → IsSorted lt (sort lt xs)
  unfolding sort
  sort-IsSorted [] = tt
  sort-IsSorted (x ∷ xs) = insert-IsSorted x (sort lt xs) (sort-IsSorted xs)

  -- The first elements of a sorted list come before those that are dropped.
  pub take-AllBefore-drop :
      (n : ℕ) (xs : List A) → IsSorted lt xs → AllBefore lt (take n xs) (drop n xs)
  take-AllBefore-drop zero xs s = tt
  take-AllBefore-drop (suc n) [] s = tt
  take-AllBefore-drop (suc n) (x ∷ xs) s = (dropped n xs s.0, take-AllBefore-drop n xs s.1)
    where
      dropped :
          (k : ℕ) (ys : List A)
          → All (λ z. lt z x ≡ false) ys
          → All (λ z. lt z x ≡ false) (drop k ys)
      dropped zero ys h = h
      dropped (suc k) [] h = tt
      dropped (suc k) (y ∷ ys) h = dropped k ys h.1

  pub take-IsSorted : (n : ℕ) (xs : List A) → IsSorted lt xs → IsSorted lt (take n xs)
  take-IsSorted zero xs s = tt
  take-IsSorted (suc n) [] s = tt
  take-IsSorted (suc n) (x ∷ xs) s = (taken n xs s.0, take-IsSorted n xs s.1)
    where
      taken :
          (k : ℕ) (ys : List A)
          → All (λ z. lt z x ≡ false) ys
          → All (λ z. lt z x ≡ false) (take k ys)
      taken zero ys h = tt
      taken (suc k) [] h = tt
      taken (suc k) (y ∷ ys) h = (h.0, taken k ys h.1)
