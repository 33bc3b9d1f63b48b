-- ===== src/KBucket/Nearest/Near.antt =====
-- `NearestPeers` on a valid table: no other peer of the table is nearer than one that it returns.
-- First the lists of peers behind the lists of distances that the code sorts.
use mathlib.Core.List.{Perm, append_assoc, append-nil}
use mathlib.Core.List.Perm
use mathlib.Core.List.Permᴰ
use dep2p.Base.{
  ℕ, zero, suc, ◌≡◌, refl, sym, ap, ◌∙◌, inl, inr, Bool, List, [], ◌∷◌, ◌++◌, map, length, get_or,
  take, drop, ltb, if◌then◌else◌, Bool-cases,
}
use dep2p.Base.Sorting
use dep2p.Base.Sorting.{insert}
use dep2p.Keyspace.{Bytes, Primitives, id_less}
use dep2p.KBucket.Bucket.{PeerInfo, Bucket}
use dep2p.KBucket.Nearest.{
  PeerDistance, less_peer, append_peer, append_peers_from_list, append_right, append_left,
}

abbrev Peers : Type 0
Peers = List PeerInfo

abbrev pub flat : List Bucket → Peers
flat [] = []
flat (b ∷ bs) = b ++ flat bs

pub flat-take-suc :
    (i : ℕ) (bs : List Bucket) → flat (take (suc i) bs) ≡ flat (take i bs) ++ get_or bs i []
flat-take-suc zero [] = refl
flat-take-suc (suc i) [] = refl
flat-take-suc zero (b ∷ bs) = append-nil b
flat-take-suc (suc i) (b ∷ bs) =
    ap (λ l. b ++ l) (flat-take-suc i bs) ∙ sym (append_assoc b (flat (take i bs)) _)

pub flat-split :
    (i : ℕ) (bs : List Bucket)
    → flat (take i bs) ++ (get_or bs i [] ++ flat (drop (suc i) bs)) ≡ flat bs
flat-split zero [] = refl
flat-split (suc i) [] = refl
flat-split zero (b ∷ bs) = refl
flat-split (suc i) (b ∷ bs) =
    append_assoc b (flat (take i bs)) _ ∙ ap (λ l. b ++ l) (flat-split i bs)

pub perm_comm : (xs ys : Peers) → Perm (xs ++ ys) (ys ++ xs)
perm_comm xs ys = ∣ Permᴰ.append_comm xs ys ∣₁

module _ (P : Primitives) (id : Bytes) where
  open P use {xor_bytes}

  abbrev pub entry : PeerInfo → PeerDistance
  entry q = record { p = q.id; mode = 0; distance = xor_bytes id q.dht_id }

  -- The first peer is strictly nearer to the key.
  abbrev pub nearer : PeerInfo → PeerInfo → Bool
  nearer a b = id_less P (xor_bytes id a.dht_id) (xor_bytes id b.dht_id)

  entries-append : (xs ys : Peers) → map entry xs ++ map entry ys ≡ map entry (xs ++ ys)
  entries-append [] ys = refl
  entries-append (x ∷ xs) ys = ap (◌∷◌ (entry x)) (entries-append xs ys)

  pub entries-append_list :
      (b : Bucket) (xs : Peers) → append_peers_from_list P id b (map entry xs) ≡ map entry (xs ++ b)
  unfolding append_peers_from_list append_peer
  entries-append_list [] xs = ap (map entry) (sym (append-nil xs))
  entries-append_list (q ∷ b) xs =
      ap (append_peers_from_list P id b) (entries-append xs (q ∷ []))
      ∙ entries-append_list b (xs ++ (q ∷ []))
      ∙ ap (map entry) (append_assoc xs (q ∷ []) b)

  pub entries-append_right :
      (bs : List Bucket) (xs : Peers)
      → append_right P id bs (map entry xs) ≡ map entry (xs ++ flat bs)
  unfolding append_right
  entries-append_right [] xs = ap (map entry) (sym (append-nil xs))
  entries-append_right (b ∷ bs) xs =
      ap (append_right P id bs) (entries-append_list b xs)
      ∙ entries-append_right bs (xs ++ b)
      ∙ ap (map entry) (append_assoc xs b (flat bs))

  -- The peers that the loop to the left collects, and those that it leaves.
  unfoldable pub left : ℕ → List Bucket → ℕ → Peers → Peers
  left count bs zero xs = xs
  left count bs (suc i) xs =
      let more = left count bs i (xs ++ get_or bs i []) in
      if ltb (length xs) count then more else xs

  unfoldable pub left_out : ℕ → List Bucket → ℕ → Peers → Peers
  left_out count bs zero xs = []
  left_out count bs (suc i) xs =
      let rest = left_out count bs i (xs ++ get_or bs i []) in
      if ltb (length xs) count then rest else flat (take (suc i) bs)

  pub length-entries : (xs : Peers) → length (map entry xs) ≡ length xs
  length-entries [] = refl
  length-entries (x ∷ xs) = ap suc (length-entries xs)

  pub entries-append_left :
      (count : ℕ) (bs : List Bucket) (i : ℕ) (xs : Peers)
      → append_left P id count bs i (map entry xs) ≡ map entry (left count bs i xs)
  unfolding append_left left
  entries-append_left count bs zero xs = refl
  entries-append_left count bs (suc i) xs = elim (Bool-cases (ltb (length xs) count)) [
    | inl e ↦
        rw (length-entries xs, e)
          (ap (append_left P id count bs i) (entries-append_list (get_or bs i []) xs)
            ∙ entries-append_left count bs i (xs ++ get_or bs i []))
    | inr e ↦ rw (length-entries xs, e) refl
  ]

  pub left-Perm :
      (count : ℕ) (bs : List Bucket) (i : ℕ) (xs : Peers)
      → Perm (left count bs i xs ++ left_out count bs i xs) (xs ++ flat (take i bs))
  unfolding left left_out
  left-Perm count bs zero xs = Perm.refl _
  left-Perm count bs (suc i) xs = elim (Bool-cases (ltb (length xs) count)) [
    | inr e ↦ rw e (Perm.refl _)
    | inl e ↦
        let b = get_or bs i [] in
        let f = flat (take i bs) in
        rw (e, flat-take-suc i bs)
          (Perm.trans (left-Perm count bs i (xs ++ b))
            (rw (append_assoc xs b f) (Perm.append_left xs (perm_comm b f))))
  ]

  sort_insert :
      (q : PeerInfo) (xs : Peers)
      → Sorting.insert (less_peer P) (entry q) (map entry xs)
        ≡ map entry (Sorting.insert nearer q xs)
  unfolding insert less_peer
  sort_insert q [] = refl
  sort_insert q (x ∷ xs) = elim (Bool-cases (nearer x q)) [
    | inl e ↦ rw e (ap (◌∷◌ (entry x)) (sort_insert q xs))
    | inr e ↦ rw e refl
  ]

  pub sort-entries :
      (xs : Peers) → Sorting.sort (less_peer P) (map entry xs) ≡ map entry (Sorting.sort nearer xs)
  unfolding Sorting.sort
  sort-entries [] = refl
  sort-entries (x ∷ xs) =
      ap (Sorting.insert (less_peer P) (entry x)) (sort-entries xs)
      ∙ sort_insert x (Sorting.sort nearer xs)

  pub take-entries : (n : ℕ) (xs : Peers) → take n (map entry xs) ≡ map entry (take n xs)
  take-entries zero xs = refl
  take-entries (suc n) [] = refl
  take-entries (suc n) (x ∷ xs) = ap (◌∷◌ (entry x)) (take-entries n xs)
