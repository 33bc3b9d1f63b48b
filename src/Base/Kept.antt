-- ===== src/Base/Kept.antt =====
-- The elements that pass a test, of a sorted list and of a permuted one, and the first of them.
use mathlib.Core.List.{Perm}
use mathlib.Core.List.Perm
use dep2p.Base.{
  ltb, ℕ, zero, suc, ◌≤◌, ◌≡◌, refl, ap, ◌∙◌, inl, inr, Bool, true, false, List, [], ◌∷◌, map, take,
  arith, length, leb, if◌then◌else◌, Bool-cases, length-map,
}
use dep2p.Base.Predicates.{keep, keep-All}
use dep2p.Base.Sorting.{insert, sort, IsSorted}

module _ {ℓ} {A : Type ℓ} (p : A → Bool) where
  keep_yes : (x : A) (xs : List A) → p x ≡ true → keep p (x ∷ xs) ≡ x ∷ keep p xs
  unfolding keep
  keep_yes x xs e = rw e refl

  keep_no : (x : A) (xs : List A) → p x ≡ false → keep p (x ∷ xs) ≡ keep p xs
  unfolding keep
  keep_no x xs e = rw e refl

  keep-insert :
      (lt : A → A → Bool) (x : A) (ys : List A) → Perm (keep p (insert lt x ys)) (keep p (x ∷ ys))
  unfolding insert
  keep-insert lt x [] = Perm.refl _
  keep-insert lt x (y ∷ ys) = elim (Bool-cases (lt y x)) [
    | inr e ↦ rw e (Perm.refl _)
    | inl e ↦
        let ih = keep-insert lt x ys in
        elim (Bool-cases (p y)) [
          | inr n ↦ elim (Bool-cases (p x)) [
            | inr m ↦
                rw (e, keep_no y (insert lt x ys) n, keep_no x (y ∷ ys) m, keep_no y ys n)
                  (rw (keep_no x ys m) at ih)
            | inl m ↦
                rw (e, keep_no y (insert lt x ys) n, keep_yes x (y ∷ ys) m, keep_no y ys n)
                  (rw (keep_yes x ys m) at ih)
          ]
          | inl n ↦ elim (Bool-cases (p x)) [
            | inr m ↦
                rw (e, keep_yes y (insert lt x ys) n, keep_no x (y ∷ ys) m, keep_yes y ys n)
                  (Perm.cons y (rw (keep_no x ys m) at ih))
            | inl m ↦
                rw (e, keep_yes y (insert lt x ys) n, keep_yes x (y ∷ ys) m, keep_yes y ys n)
                  (Perm.trans (Perm.cons y (rw (keep_yes x ys m) at ih))
                    (Perm.swap x y (keep p ys)))
          ]
        ]
  ]

  -- What passes of the sorted list is what passes of the list, in another order.
  pub keep-sort : (lt : A → A → Bool) (xs : List A) → Perm (keep p (sort lt xs)) (keep p xs)
  unfolding sort
  keep-sort lt [] = Perm.refl _
  keep-sort lt (x ∷ xs) = Perm.trans (keep-insert lt x (sort lt xs)) (elim (Bool-cases (p x)) [
    | inr m ↦ rw (keep_no x (sort lt xs) m, keep_no x xs m) (keep-sort lt xs)
    | inl m ↦ rw (keep_yes x (sort lt xs) m, keep_yes x xs m) (Perm.cons x (keep-sort lt xs))
  ])

  pub keep-IsSorted : (lt : A → A → Bool) (xs : List A) → IsSorted lt xs → IsSorted lt (keep p xs)
  unfolding keep
  keep-IsSorted lt [] s = tt
  keep-IsSorted lt (x ∷ xs) s = elim (Bool-cases (p x)) [
    | inl e ↦
        rw (keep_yes x xs e) (keep-All p (λ y. lt y x ≡ false) xs s.0, keep-IsSorted lt xs s.1)
    | inr e ↦ rw (keep_no x xs e) (keep-IsSorted lt xs s.1)
  ]

  length-keep-insert :
      (lt : A → A → Bool) (x : A) (ys : List A)
      → length (keep p (insert lt x ys)) ≡ length (keep p (x ∷ ys))
  unfolding insert keep
  length-keep-insert lt x [] = refl
  length-keep-insert lt x (y ∷ ys) = let rest = length-keep-insert lt x ys in ground (arith, rest)

  pub length-keep-sort :
      (lt : A → A → Bool) (xs : List A) → length (keep p (sort lt xs)) ≡ length (keep p xs)
  unfolding sort keep
  length-keep-sort lt [] = refl
  length-keep-sort lt (x ∷ xs) =
      let rest = length-keep-sort lt xs in
      length-keep-insert lt x (sort lt xs) ∙ ground (arith, rest)

module _ {ℓ} {A : Type ℓ} where
  pub take_whole : (n : ℕ) (xs : List A) → length xs ≤ n → take n xs ≡ xs
  take_whole zero [] h = refl
  take_whole (suc n) [] h = refl
  take_whole zero (x ∷ xs) h = absurd (omega arith)
  take_whole (suc n) (x ∷ xs) h = ap (◌∷◌ x) (take_whole n xs (omega arith))

  pub cut : (n : ℕ) (xs : List A) → (if ltb n (length xs) then take n xs else xs) ≡ take n xs
  cut n xs = elim (Bool-cases (ltb n (length xs))) [
    | inl e ↦ rw e refl
    | inr e ↦ rw (e, take_whole n xs (ground (arith, e))) refl
  ]

module _ {ℓ κ} {A : Type ℓ} {B : Type κ} (f : A → B) where
  pub take-map : (n : ℕ) (xs : List A) → take n (map f xs) ≡ map f (take n xs)
  take-map zero xs = refl
  take-map (suc n) [] = refl
  take-map (suc n) (x ∷ xs) = ap (◌∷◌ (f x)) (take-map n xs)

  -- Cutting at the length only where it is needed is cutting.
  pub cut_map :
      (n : ℕ) (xs : List A)
      → (if leb n (length (map f xs)) then take n (map f xs) else map f xs) ≡ map f (take n xs)
  cut_map n xs = elim (Bool-cases (leb n (length (map f xs)))) [
    | inl e ↦ rw e (take-map n xs)
    | inr e ↦ rw (e, take_whole n xs (ground (arith, length-map xs f))) refl
  ]

module _ {ℓ} {A : Type ℓ} (lt : A → A → Bool) where
  length-insert : (x : A) (ys : List A) → length (insert lt x ys) ≡ suc (length ys)
  unfolding insert
  length-insert x [] = refl
  length-insert x (y ∷ ys) = ground (arith, length-insert x ys)

  pub length-sort : (xs : List A) → length (sort lt xs) ≡ length xs
  unfolding sort
  length-sort [] = refl
  length-sort (x ∷ xs) = length-insert x (sort lt xs) ∙ ap suc (length-sort xs)
