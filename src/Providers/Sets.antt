-- ===== src/Providers/Sets.antt =====
-- What `loadProviderSet` makes of the records of a key.
use dep2p.Base.{
  ℕ, ◌-◌, ◌≡◌, ◌↔◌, ◌⊎◌, refl, sym, ap, ◌∙◌, subst, true, false, inl, inr, List, [], ◌∷◌, Option,
  none, some, ltb, ◌==◌, ==_iff, if◌then◌else◌, if_true, if_false, Bool-cases, Option-cases, arith,
}
use dep2p.Base.Predicates.{elem, elem-append}
use dep2p.Base.Maps.{fetch, fetch-put}
use dep2p.Keyspace.{PeerId}
use dep2p.Providers.{
  ProviderSet, Entry, Cache, Datastore, is_some, set_val, new_provider_set, read_time_value,
  provide_validity, load_named, load_entry, load_entries,
}

-- The list and the map of a set have the same providers.
pub IsProviderSet : ProviderSet → Type 0
IsProviderSet ps = (p : PeerId) → elem p ps.providers ≡ is_some (fetch p ps.set)

pub set_val-listed :
    (p q : PeerId) (t : ℕ) (ps : ProviderSet)
    → IsProviderSet ps
    → elem q (set_val p t ps).providers ≡ (if q == p then true else elem q ps.providers)
unfolding set_val IsProviderSet
set_val-listed p q t ps v = elim (Bool-cases (is_some (fetch p ps.set))) [
  | inr e ↦ rw e (elem-append q p ps.providers)
  | inl e ↦
      let listed : elem p ps.providers ≡ true = v p ∙ e in
      rw e (elim (Bool-cases (q == p)) [
        | inl s ↦ rw s (ap (λ k. elem k ps.providers) ((==_iff q p).0 s) ∙ listed)
        | inr n ↦ rw n refl
      ])
]

pub set_val-IsProviderSet :
    (p : PeerId) (t : ℕ) (ps : ProviderSet) → IsProviderSet ps → IsProviderSet (set_val p t ps)
unfolding IsProviderSet set_val is_some
set_val-IsProviderSet p t ps v q = set_val-listed p q t ps v ∙ elim (Bool-cases (q == p)) [
  | inl s ↦
      let e : (p == q) ≡ true = ground arith in
      rw s (sym (ap is_some (fetch-put p q t ps.set ∙ if_true _ _ e)))
  | inr n ↦
      let e : (p == q) ≡ false = ground arith in
      rw n (v q ∙ sym (ap is_some (fetch-put p q t ps.set ∙ if_false _ _ e)))
]

module _ (C : Cache) (S : Datastore) (now k : ℕ) where
  -- A record of the provider whose time is read, and has not expired.
  abbrev pub Live : PeerId → Entry → Type 0
  Live p e =
      (t : ℕ) × (read_time_value e.value ≡ some t)
      × (ltb provide_validity (now - t) ≡ false)
      × (e.prov ≡ some p)

  abbrev pub AnyLive : PeerId → List Entry → Type 0
  AnyLive p [] = ⊥
  AnyLive p (e ∷ es) = ((e.failed ≡ false) × Live p e) ⊎ AnyLive p es

  abbrev Grown : Entry → ProviderSet → ProviderSet → Type 0
  Grown e out r =
      IsProviderSet r
      × ((p : PeerId) → (elem p r.providers ≡ true) ↔ ((elem p out.providers ≡ true) ⊎ Live p e))

  unchanged :
      (e : Entry) (out : ProviderSet)
      → IsProviderSet out
      → ((p : PeerId) → Live p e → ⊥)
      → Grown e out out
  unchanged e out v dead =
      (v, λ p. (λ h. inl h, λ h. elim h [ inl l ↦ l | inr l ↦ absurd (dead p l) ]))

  as_is :
      (e : Entry) (out : ProviderSet) (r r' : ProviderSet × S.State)
      → r ≡ r'
      → Grown e out r'.0
      → Grown e out r.0
  as_is e out r r' same h = subst (λ (x : ProviderSet × S.State). Grown e out x.0) (sym same) h

  load_entry-Grown :
      (e : Entry) (o : Option ℕ) (out : ProviderSet) (d : S.State)
      → read_time_value e.value ≡ o
      → IsProviderSet out
      → Grown e out (load_entry C S now k e o (out, d)).0
  unfolding load_entry load_named
  load_entry-Grown e none out d read v =
      unchanged e out v (λ p (t, h, _, _). absurd (ground (arith, h, read)))
  load_entry-Grown e (some t) out d read v = elim (Bool-cases (ltb provide_validity (now - t))) [
    | inl old ↦ rw old (
        unchanged e out v (λ p (u, h, young, _).
          let same : u ≡ t = cc in
          absurd (ground (arith, subst (λ x. ltb provide_validity (now - x) ≡ false) same young))))
    | inr young ↦ elim (Option-cases e.prov) [
      | inl none_read ↦
          let result : load_entry C S now k e (some t) (out, d) ≡ (out, S.delete k e d) =
            if_false _ _ young ∙ ap (λ o. load_named C S k e t o (out, d)) none_read in
          as_is e out _ (out, S.delete k e d) result
            (unchanged e out v (λ p (u, _, _, named). absurd (ground (arith, named, none_read))))
      | inr (pid, named) ↦
          let result : load_entry C S now k e (some t) (out, d) ≡ (set_val pid t out, d) =
            if_false _ _ young ∙ ap (λ o. load_named C S k e t o (out, d)) named in
          as_is e out _ (set_val pid t out, d) result
            (
              set_val-IsProviderSet pid t out v,
              λ p.
                  let listed = set_val-listed pid p t out v in
                  elim (Bool-cases (p == pid)) [
                    | inl s ↦
                        let same = (==_iff p pid).0 s in
                        (
                          λ _. inr (t, read, young, named ∙ ap some (sym same)),
                          λ _. listed ∙ if_true _ _ s,
                        )
                    | inr n ↦
                        let keeps = listed ∙ if_false _ _ n in
                        (
                          λ h. inl (sym keeps ∙ h),
                          λ h. elim h [
                            | inl l ↦ keeps ∙ l
                            | inr (_, _, _, other) ↦
                                let same : pid ≡ p = cc in absurd (ground arith)
                          ],
                        )
                  ],
            )
    ]
  ]

  entries-Grown :
      (es : List Entry) (out : ProviderSet) (d : S.State)
      → IsProviderSet out
      → IsProviderSet (load_entries C S now k es (out, d)).0
        × ((p : PeerId)
            → (elem p (load_entries C S now k es (out, d)).0.providers ≡ true)
              ↔ ((elem p out.providers ≡ true) ⊎ AnyLive p es))
  unfolding load_entries
  entries-Grown [] out d v = (v, λ p. (λ h. inl h, λ h. elim h [ inl l ↦ l | inr l ↦ absurd l ]))
  entries-Grown (e ∷ es) out d v =
      let Result : ProviderSet × S.State → Type 0 = λ x.
        IsProviderSet (load_entries C S now k es x).0
        × ((p : PeerId)
            → (elem p (load_entries C S now k es x).0.providers ≡ true)
              ↔ ((elem p out.providers ≡ true) ⊎ AnyLive p (e ∷ es))) in
      elim (Bool-cases e.failed) [
        | inl bad ↦
            let (v2, rest) = entries-Grown es out d v in
            subst Result (sym (if_true _ _ bad)) (
              v2,
              λ p. (
                λ h. elim ((rest p).0 h) [ inl l ↦ inl l | inr l ↦ inr (inr l) ],
                λ h. elim h [
                  | inl a ↦ (rest p).1 (inl a)
                  | inr (inl (good, _)) ↦ absurd (ground (arith, bad, good))
                  | inr (inr l) ↦ (rest p).1 (inr l)
                ],
              ),
            )
        | inr good ↦
            let (v1, one) = load_entry-Grown e (read_time_value e.value) out d refl v in
            let r = load_entry C S now k e (read_time_value e.value) (out, d) in
            let (v2, rest) = entries-Grown es r.0 r.1 v1 in
            subst Result (sym (if_false _ _ good)) (
              v2,
              λ p. (
                λ h. elim ((rest p).0 h) [
                  | inl l ↦ elim ((one p).0 l) [ inl a ↦ inl a | inr a ↦ inr (inl (good, a)) ]
                  | inr l ↦ inr (inr l)
                ],
                λ h. elim h [
                  | inl a ↦ (rest p).1 (inl ((one p).1 (inl a)))
                  | inr (inl (_, a)) ↦ (rest p).1 (inl ((one p).1 (inr a)))
                  | inr (inr l) ↦ (rest p).1 (inr l)
                ],
              ),
            )
      ]

  -- The providers that loadProviderSet returns are exactly those for which one of the results of the
  -- query is no error and has a time that is read and has not expired; the list and the map of the
  -- set agree.
  pub load_entries-exact :
      (es : List Entry) (d : S.State)
      → let ps = (load_entries C S now k es (new_provider_set, d)).0 in
        IsProviderSet ps × ((p : PeerId) → (elem p ps.providers ≡ true) ↔ AnyLive p es)
  unfolding new_provider_set IsProviderSet fetch is_some
  load_entries-exact es d =
      let (v, grown) = entries-Grown es new_provider_set d (λ p. refl) in
      (
        v,
        λ p. (
          λ h. elim ((grown p).0 h) [ inl l ↦ absurd (ground arith) | inr l ↦ l ],
          λ l. (grown p).1 (inr l),
        ),
      )
