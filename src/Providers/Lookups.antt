-- ===== src/Providers/Lookups.antt =====
-- A provider that was added is found.
use dep2p.Base.{
  ℕ, ◌+◌, ◌^◌, ◌≤◌, ◌<◌, ◌≡◌, ◌⊎◌, refl, ap, ◌∙◌, true, false, inl, inr, List, [], ◌∷◌, Option,
  none, some, ◌==◌, if_true, Option-cases, arith,
}
use dep2p.Base.Predicates.{elem}
use dep2p.Keyspace.{PeerId, Bytes}
use dep2p.Providers.{
  ProviderSet, Entry, Cache, Datastore, ProviderManager, set_val, time_value, read_time_value,
  provide_validity, change_cached, add_prov, get_providers_for_key,
}
use dep2p.Providers.Times.{read_time_value-time_value}
use dep2p.Providers.Sets.{IsProviderSet, AnyLive, set_val-listed, load_entries-exact}

-- A record of the provider with the value.
abbrev pub HasEntry : PeerId → Bytes → List Entry → Type 0
HasEntry p v [] = ⊥
HasEntry p v (e ∷ es) = ((e.failed ≡ false) × (e.prov ≡ some p) × (e.value ≡ v)) ⊎ HasEntry p v es

-- What a datastore promises: a query lists what was put.
abbrev pub Lists : Datastore → Type 0
Lists S =
    (k : ℕ) (p : PeerId) (v : Bytes) (d d' : S.State)
    → S.put_record k p v d ≡ some d'
    → (es : List Entry) × (S.query k d' ≡ some es) × HasEntry p v es

module _ (C : Cache) (S : Datastore) where
  abbrev M : Type 0
  M = ProviderManager C S

  miss :
      (now : ℕ) (p : PeerId) (k : ℕ) (r : Option ProviderSet × C.State)
      → r.0 ≡ none
      → change_cached C S now p k r ≡ r.1
  unfolding change_cached
  miss now p k (none, c) e = refl
  miss now p k (some ps, c) e = cc

  hit :
      (now : ℕ) (p : PeerId) (k : ℕ) (r : Option ProviderSet × C.State) (ps : ProviderSet)
      → r.0 ≡ some ps
      → change_cached C S now p k r ≡ C.change k (set_val p now ps) r.1
  unfolding change_cached
  hit now p k (none, c) ps e = cc
  hit now p k (some qs, c) ps e = let same : qs ≡ ps = cc in rw same refl

  live :
      (now later k : ℕ) (p : PeerId) (es : List Entry)
      → now < 2 ^ 63
      → later ≤ now + provide_validity
      → HasEntry p (time_value now) es
      → AnyLive C S later k p es
  live now later k p [] small young h = h
  live now later k p (e ∷ es) small young (inr h) = inr (live now later k p es small young h)
  live now later k p (e ∷ es) small young (inl (good, named, value)) = inl (
    good,
    (now, ap read_time_value value ∙ read_time_value-time_value now small, ground arith, named),
  )

  Found : PeerId → Option (List PeerId) → Type 0
  Found p none = ⊥
  Found p (some l) = elem p l ≡ true

  in_cache-Found :
      (later k : ℕ) (p : PeerId) (pm : M) (ps : ProviderSet)
      → (C.get k pm.cache).0 ≡ some ps
      → elem p ps.providers ≡ true
      → Found p (get_providers_for_key C S later k pm).0
  unfolding get_providers_for_key Found
  in_cache-Found later k p pm ps e h = rw (e, get_providers_for_key) h

  in_store-Found :
      (later k : ℕ) (p : PeerId) (pm : M) (es : List Entry)
      → (C.get k pm.cache).0 ≡ none
      → S.query k pm.dstore ≡ some es
      → AnyLive C S later k p es
      → Found p (get_providers_for_key C S later k pm).0
  unfolding get_providers_for_key Found
  in_store-Found later k p pm es e q h =
      rw (e, get_providers_for_key, q) (((load_entries-exact C S later k es pm.dstore).1 p).1 h)

  -- After an addProv.
  after_add :
      (now later k : ℕ) (p : PeerId) (pm : M) (d : S.State)
      → Lists S
      → ((ps : ProviderSet) → (C.get k pm.cache).0 ≡ some ps → IsProviderSet ps)
      → now < 2 ^ 63
      → later ≤ now + provide_validity
      → S.put_record k p (time_value now) pm.dstore ≡ some d
      → Found p
          (get_providers_for_key C S later k
            (record { cache = change_cached C S now p k (C.get k pm.cache); dstore = d })).0
  after_add now later k p pm d lists sound small young e =
      let (es, q, has) = lists k p (time_value now) pm.dstore d e in
      let pm' : M = record { cache = change_cached C S now p k (C.get k pm.cache); dstore = d } in
      elim (Option-cases (C.get k pm.cache).0) [
        | inl m ↦
            let same = miss now p k (C.get k pm.cache) m in
            let still : (C.get k pm'.cache).0 ≡ none =
              ap (λ c. (C.get k c).0) same ∙ C.get_again k pm.cache ∙ m in
            in_store-Found later k p pm' es still q (live now later k p es small young has)
        | inr (ps, m) ↦
            let same = hit now p k (C.get k pm.cache) ps m in
            let now_in : (C.get k pm'.cache).0 ≡ some (set_val p now ps) =
              ap (λ c. (C.get k c).0) same ∙ C.get-change k ps (set_val p now ps) pm.cache m in
            let own : (p == p) ≡ true = ground arith in
            in_cache-Found later k p pm' (set_val p now ps) now_in
              (set_val-listed p p now ps (sound ps m) ∙ if_true _ _ own)
      ]

  some-Found :
      (p : PeerId) (o : Option (List PeerId))
      → Found p o
      → (l : List PeerId) × (o ≡ some l) × (elem p l ≡ true)
  unfolding Found
  some-Found p none h = absurd h
  some-Found p (some l) h = (l, refl, h)

  -- Where a query of the datastore lists what was put, and the cached set of the key, if there is
  -- one, is consistent: when addProv has no error at a time that an int64 holds, then up to 48 hours
  -- later getProvidersForKey has no error and lists the provider, from the cache or from the
  -- datastore.
  pub get_providers-add_prov :
      (now later k : ℕ) (p : PeerId) (pm : M)
      → Lists S
      → ((ps : ProviderSet) → (C.get k pm.cache).0 ≡ some ps → IsProviderSet ps)
      → now < 2 ^ 63
      → later ≤ now + provide_validity
      → (add_prov C S now k p pm).0 ≡ true
      → (l : List PeerId) × ((get_providers_for_key C S later k (add_prov C S now k p pm).1).0
          ≡ some l)
        × (elem p l ≡ true)
  unfolding add_prov
  get_providers-add_prov now later k p pm lists sound small young ok =
      elim (Option-cases (S.put_record k p (time_value now) pm.dstore)) [
        | inl e ↦ let failed : false ≡ true = rw (e, add_prov) at ok in absurd (ground arith)
        | inr (d, e) ↦
            rw (e, add_prov)
              (some-Found p _ (after_add now later k p pm d lists sound small young e))
      ]
