-- ===== src/PeerDiversity/Removal.antt =====
-- `Remove` keeps the maps in agreement; and the filter's states, from its methods.
use mathlib.Core.Option
use dep2p.Base.{
  ℕ, ◌≡◌, ◌≢◌, refl, sym, ap, ◌∙◌, Bool, true, false, inl, inr, List, [], map, Option, none, some,
  ◌==◌, ==_iff, if◌then◌else◌, if_true, if_false, subst, Bool-cases, arith,
}
use dep2p.Base.Maps.{
  Map, fetch, fetch_or, put, delete, fetch-delete, fetch_or-put, fetch_or-delete, fetch_or-missing,
  fetch_or-insert_self, fetch-insert_ne,
}
use dep2p.Keyspace.{PeerId}
use dep2p.PeerDiversity.{Addresses, PeerIpGroupFilter, PeerIpGroupKey, F, remove, nonempty, is_some}
use dep2p.PeerDiversity.Groups.{key_of, inner}
use dep2p.PeerDiversity.Consistency.{IsConsistent, nil_of_nonempty, still_filled}

module _ {V : Type 0} where
  is_some-false : (o : Option V) → is_some o ≡ false → o ≡ none
  unfolding is_some
  is_some-false none e = refl
  is_some-false (some v) e = cc

  if_same : {x : V} (b : Bool) → (if b then x else x) ≡ x
  if_same true = refl
  if_same false = refl

  if_none :
      {x : Option V} → x ≡ none → (a b : Bool) → (if a then (if b then none else x) else x) ≡ none
  if_none e true true = refl
  if_none e true false = e
  if_none e false b = e

  swap_in :
      (d : V) (c j : ℕ) (m : Map V) (x : V)
      → fetch_or d c m ≡ x
      → fetch_or d j m ≡ (if c == j then x else fetch_or d j m)
  swap_in d c j m x e = elim (Bool-cases (c == j)) [
    | inr n ↦ sym (if_false _ _ n)
    | inl s ↦ ap (λ k. fetch_or d k m) (sym ((==_iff c j).0 s)) ∙ e ∙ sym (if_true _ _ s)
  ]

module _ {V : Type 0} where
  -- The entry at `c` with `p` taken out, and without the entry if it is then empty: the steps of
  -- `Remove` on its second map.
  abbrev pub without : ℕ → ℕ → Map (Map V) → Map (Map V)
  without c p m = if is_some (fetch c m) then put c (delete p (fetch_or [] c m)) m else m

  abbrev pub dropped : ℕ → Map (Map V) → Map (Map V)
  dropped c m = if nonempty (fetch_or [] c m) then m else delete c m

  at_without :
      (c p j : ℕ) (m : Map (Map V))
      → fetch_or [] j (without c p m)
        ≡ (if c == j then delete p (fetch_or [] c m) else fetch_or [] j m)
  unfolding delete
  at_without c p j m = elim (Bool-cases (is_some (fetch c m))) [
    | inl e ↦ rw e (fetch_or-put [] c j _ m)
    | inr e ↦
        let missing = fetch_or-missing [] c m (is_some-false _ e) in
        rw (e, missing) (swap_in [] c j m [] missing)
  ]

  at_dropped : (c j : ℕ) (m : Map (Map V)) → fetch_or [] j (dropped c m) ≡ fetch_or [] j m
  at_dropped c j m = elim (Bool-cases (nonempty (fetch_or [] c m))) [
    | inl e ↦ rw e refl
    | inr e ↦
        rw e (
          fetch_or-delete [] c j m
          ∙ sym (swap_in [] c j m [] (nil_of_nonempty (fetch_or [] c m) e)))
  ]

  Filled : Map (Map V) → ℕ → Type 0
  Filled m j = (x : Map V) → fetch j m ≡ some x → nonempty x ≡ true

  without_ne : (c p j : ℕ) (m : Map (Map V)) → c ≢ j → fetch j (without c p m) ≡ fetch j m
  without_ne c p j m ne = elim (Bool-cases (is_some (fetch c m))) [
    | inl e ↦ rw e (fetch-insert_ne c j _ m ne)
    | inr e ↦ rw e refl
  ]

  without-Filled :
      (c p j : ℕ) (m : Map (Map V))
      → nonempty (fetch_or [] c (without c p m)) ≡ true
      → Filled m j
      → Filled (without c p m) j
  unfolding Filled
  without-Filled c p j m full old = elim (Bool-cases (is_some (fetch c m))) [
    | inr e ↦ rw e old
    | inl e ↦
        let at_c : nonempty (delete p (fetch_or [] c m)) ≡ true =
          ap nonempty (sym (fetch_or-insert_self [] c (delete p (fetch_or [] c m)) m))
          ∙ (rw e at full) in
        rw e (still_filled c j (delete p (fetch_or [] c m)) m at_c old)
  ]

  dropped-Filled : (c p j : ℕ) (m : Map (Map V)) → Filled m j → Filled (dropped c (without c p m)) j
  unfolding Filled
  dropped-Filled c p j m old = elim (Bool-cases (nonempty (fetch_or [] c (without c p m)))) [
    | inl e ↦ rw e (without-Filled c p j m e old)
    | inr e ↦ rw e (λ x h. elim (Bool-cases (c == j)) [
      | inl s ↦ let gone = sym (if_true _ _ s) ∙ sym (fetch-delete c j (without c p m)) ∙ h in cc
      | inr n ↦
          let other : c ≢ j = λ q. ground arith in
          old x (
            sym (without_ne c p j m other)
            ∙ sym (if_false _ _ n)
            ∙ sym (fetch-delete c j (without c p m))
            ∙ h)
    ])
  ]

module _ (A : Addresses) (G : PeerIpGroupFilter A) (cpl_fnc : PeerId → ℕ) where
  abbrev E : Type 0
  E = F A G cpl_fnc

  abbrev inn : ℕ → E → Map (List PeerIpGroupKey)
  inn = inner A G cpl_fnc

  inner-remove :
      (p : PeerId) (f : E) (c : ℕ)
      → inn c (remove A G cpl_fnc p f)
        ≡ (if cpl_fnc p == c then delete p (inn (cpl_fnc p) f) else inn c f)
  unfolding remove
  inner-remove p f c =
      at_dropped (cpl_fnc p) c (without (cpl_fnc p) p f.cpl_peer_groups)
      ∙ at_without (cpl_fnc p) p c f.cpl_peer_groups

  fetch-remove :
      (p q : PeerId) (f : E) (c : ℕ)
      → fetch q (inn c (remove A G cpl_fnc p f)) ≡ (
          if cpl_fnc p == c
          then (if p == q then none else fetch q (inn c f))
          else fetch q (inn c f))
  fetch-remove p q f c = elim (Bool-cases (cpl_fnc p == c)) [
    | inr n ↦ ap (fetch q) (inner-remove p f c ∙ if_false _ _ n) ∙ sym (if_false _ _ n)
    | inl s ↦
        let at_c = (==_iff (cpl_fnc p) c).0 s in
        ap (fetch q) (inner-remove p f c ∙ if_true _ _ s)
        ∙ fetch-delete p q (inn (cpl_fnc p) f)
        ∙ ap (λ k. if p == q then none else fetch q (inn k f)) at_c
        ∙ sym (if_true _ _ s)
  ]

  fetch-remove_ne :
      (p q : PeerId) (f : E) (c : ℕ)
      → (p == q) ≡ false
      → fetch q (inn c (remove A G cpl_fnc p f)) ≡ fetch q (inn c f)
  fetch-remove_ne p q f c n = fetch-remove p q f c ∙ rw n (if_same (cpl_fnc p == c))

  fetch-remove_none :
      (p q : PeerId) (f : E) (c : ℕ)
      → fetch q (inn c f) ≡ none
      → fetch q (inn c (remove A G cpl_fnc p f)) ≡ none
  fetch-remove_none p q f c e = fetch-remove p q f c ∙ if_none e (cpl_fnc p == c) (p == q)

  fetch-remove_self :
      (p : PeerId) (f : E) → fetch p (inn (cpl_fnc p) (remove A G cpl_fnc p f)) ≡ none
  fetch-remove_self p f =
      let a : (cpl_fnc p == cpl_fnc p) ≡ true = ground arith in
      let b : (p == p) ≡ true = ground arith in
      fetch-remove p p f (cpl_fnc p) ∙ if_true _ _ a ∙ if_true _ _ b

  agree_after :
      (p : PeerId) (f : E)
      → IsConsistent A G cpl_fnc f
      → (q : PeerId)
      → fetch q (inn (cpl_fnc q) (remove A G cpl_fnc p f))
        ≡ Option.map (map key_of) (fetch q (delete p f.peer_groups))
  agree_after p f v q = elim (Bool-cases (p == q)) [
    | inl s ↦
        let same : p ≡ q = (==_iff p q).0 s in
        subst (λ k. fetch k (inn (cpl_fnc k) (remove A G cpl_fnc p f)) ≡ none) same
          (fetch-remove_self p f)
        ∙ ap (Option.map (map key_of)) (sym (fetch-delete p q f.peer_groups ∙ if_true _ _ s))
    | inr n ↦
        fetch-remove_ne p q f (cpl_fnc q) n
        ∙ v.agree q
        ∙ ap (Option.map (map key_of)) (sym (fetch-delete p q f.peer_groups ∙ if_false _ _ n))
  ]

  pub remove-IsConsistent :
      (p : PeerId) (f : E)
      → IsConsistent A G cpl_fnc f
      → IsConsistent A G cpl_fnc (remove A G cpl_fnc p f)
  unfolding remove Filled
  remove-IsConsistent p f v = record {
    agree = agree_after p f v;
    elsewhere = λ c q ne. fetch-remove_none p q f c (v.elsewhere c q ne);
    no_empty = λ c. dropped-Filled (cpl_fnc p) p c f.cpl_peer_groups (v.no_empty c);
  }
