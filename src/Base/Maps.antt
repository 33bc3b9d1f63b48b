-- ===== src/Base/Maps.antt =====
-- Maps with keys that are numbers, as association lists: a new key goes to the end.
use Prim.Native.Nat.{ℕ}
use mathlib.Core.Path.{◌≡◌, refl, ◌∙◌}
use mathlib.Core.Logic.{◌≢◌}
use mathlib.Core.List.{List, [], ◌∷◌}
use mathlib.Core.Option.{Option, none, some}
use native.Mathlib.Omega.{arith}
use dep2p.Base.{◌==◌, if◌then◌else◌, inl, inr, Bool-cases}

abbrev pub Map {ℓ} : Type ℓ → Type ℓ
Map A = List (ℕ × A)

module _ {A : Type 0} where
  unfoldable pub fetch : ℕ → Map A → Option A
  fetch k [] = none
  fetch key ((k, x) ∷ entries) = if k == key then some x else fetch key entries

  unfoldable pub fetch_or : A → ℕ → Map A → A
  fetch_or d k [] = d
  fetch_or d k ((j, v) ∷ m) = if j == k then v else fetch_or d k m

  unfoldable pub put : ℕ → A → Map A → Map A
  put k v [] = (k, v) ∷ []
  put k v ((j, w) ∷ m) = if j == k then (j, v) ∷ m else (j, w) ∷ put k v m

  unfoldable pub delete : ℕ → Map A → Map A
  delete k [] = []
  delete k ((j, w) ∷ m) = if j == k then delete k m else (j, w) ∷ delete k m

  pub fetch-put :
      (k j : ℕ) (v : A) (m : Map A) → fetch j (put k v m) ≡ (if k == j then some v else fetch j m)
  unfolding fetch put
  fetch-put k j v [] = refl
  fetch-put k j v (entry ∷ m) = ground (arith, fetch-put k j v m)

  pub fetch-delete :
      (k j : ℕ) (m : Map A) → fetch j (delete k m) ≡ (if k == j then none else fetch j m)
  unfolding fetch delete
  fetch-delete k j [] = ground arith
  fetch-delete k j ((i, w) ∷ m) = ground (arith, fetch-delete k j m)

  pub fetch_or-fetch :
      (d : A) (k : ℕ) (m : Map A) → fetch_or d k m ≡ (elim (fetch k m) [ some v ↦ v | none ↦ d ])
  unfolding fetch fetch_or
  fetch_or-fetch d k [] = refl
  fetch_or-fetch d k ((j, v) ∷ m) = elim (Bool-cases (j == k)) [
    | inl e ↦ rw e refl
    | inr e ↦ rw e (fetch_or-fetch d k m)
  ]

  delete_missing : (k : ℕ) (m : Map A) → fetch k m ≡ none → delete k m ≡ m
  unfolding fetch delete
  delete_missing k [] e = refl
  delete_missing k ((j, v) ∷ m) e = ground (arith, delete_missing k m)

  pub delete-put : (k : ℕ) (v : A) (m : Map A) → fetch k m ≡ none → delete k (put k v m) ≡ m
  unfolding fetch put delete
  delete-put k v [] e = ground arith
  delete-put k v ((j, w) ∷ m) e = ground (arith, delete-put k v m)

  pub put-put : (k : ℕ) (v w : A) (m : Map A) → put k w (put k v m) ≡ put k w m
  unfolding put
  put-put k v w [] = ground arith
  put-put k v w ((j, u) ∷ m) = ground (arith, put-put k v w m)

  pub put_same : (k : ℕ) (v : A) (m : Map A) → fetch k m ≡ some v → put k v m ≡ m
  unfolding fetch put
  put_same k v [] e = cc
  put_same k v ((j, w) ∷ m) e = ground (arith, put_same k v m)

  pub fetch_or-put :
      (d : A) (k j : ℕ) (v : A) (m : Map A)
      → fetch_or d j (put k v m) ≡ (if k == j then v else fetch_or d j m)
  unfolding fetch_or put
  fetch_or-put d k j v [] = refl
  fetch_or-put d k j v ((i, w) ∷ m) = ground (arith, fetch_or-put d k j v m)

  pub fetch_or-insert_self : (d : A) (k : ℕ) (v : A) (m : Map A) → fetch_or d k (put k v m) ≡ v
  fetch_or-insert_self d k v m = ground (arith, fetch_or-put d k k v m)

  pub fetch_or-delete :
      (d : A) (k j : ℕ) (m : Map A)
      → fetch_or d j (delete k m) ≡ (if k == j then d else fetch_or d j m)
  unfolding fetch_or delete
  fetch_or-delete d k j [] = ground arith
  fetch_or-delete d k j ((i, w) ∷ m) = ground (arith, fetch_or-delete d k j m)

  pub fetch_or-missing : (d : A) (k : ℕ) (m : Map A) → fetch k m ≡ none → fetch_or d k m ≡ d
  fetch_or-missing d k m e = fetch_or-fetch d k m ∙ rw e refl

  pub fetch_or-found : (d : A) (k : ℕ) (m : Map A) (v : A) → fetch k m ≡ some v → fetch_or d k m ≡ v
  fetch_or-found d k m v e = fetch_or-fetch d k m ∙ rw e refl

  pub fetch-insert_self : (k : ℕ) (v : A) (m : Map A) → fetch k (put k v m) ≡ some v
  fetch-insert_self k v m = ground (arith, fetch-put k k v m)

  pub fetch-insert_ne : (k j : ℕ) (v : A) (m : Map A) → k ≢ j → fetch j (put k v m) ≡ fetch j m
  fetch-insert_ne k j v m ne = ground (arith, fetch-put k j v m)
