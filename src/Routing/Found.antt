-- ===== src/Routing/Found.antt =====
-- The providers that are found and sent, however the goroutines of a search interleave.
use dep2p.Base.{
  ℕ, suc, ◌+◌, ◌≤◌, ◌≡◌, ◌≢◌, refl, sym, ap, subst, inl, inr, Bool, true, false, ◌||◌, List, [],
  ◌∷◌, ◌++◌, Option, none, some, ltb, ◌==◌, length, if◌then◌else◌, Bool-cases, Option-cases, arith,
}
use dep2p.Base.Maps.{Map, fetch, put, fetch-put}
use dep2p.Keyspace.{PeerId}
use dep2p.Messages.{AddrInfo}
use dep2p.Routing.{
  Search, has_addrs, is_news, enough, ps_try_add, added, try_add, Step, tries, sends, stops,
  send_added, offer, gives_up, offer_all,
}

abbrev pub nothing_found : Search
nothing_found = record { ps = []; adding = []; sent = [] }

-- How often a peer is listed, with or without addresses.
abbrev same : Bool → Bool → Bool
same true b = b
same false true = false
same false false = true

unfoldable pub times : PeerId → (addrs : Bool) → List AddrInfo → ℕ
times id addrs [] = 0
times id addrs (p ∷ l) =
    let rest = times id addrs l in
    if p.id == id then if same (has_addrs p) addrs then suc rest else rest else rest

-- Each peer is sent at most once with and at most once without addresses.
abbrev pub SentWell : List AddrInfo → Type 0
SentWell l = (id : PeerId) → (times id true l ≤ 1) × (times id false l ≤ 1)

-- What was added of a peer, sent or not, where ps has none of it, or has it without or with addresses.
abbrev Known : Option AddrInfo → (full bare : ℕ) → Type 0
Known none full bare = (full ≡ 0) × (bare ≡ 0)
Known (some pi) full bare = (full ≤ (if has_addrs pi then 1 else 0)) × (bare ≤ 1)

times-split :
    (id : PeerId) (b : Bool) (xs : List AddrInfo) (p : AddrInfo) (ys : List AddrInfo)
    → times id b (xs ++ (p ∷ ys)) ≡ times id b (p ∷ []) + times id b (xs ++ ys)
unfolding times
times-split id b [] p ys = ground arith
times-split id b (x ∷ xs) p ys = ground (arith, times-split id b xs p ys)

times-cons :
    (id : PeerId) (b : Bool) (p : AddrInfo) (l : List AddrInfo)
    → times id b (p ∷ l) ≡ times id b (p ∷ []) + times id b l
times-cons id b p l = times-split id b [] p l

-- The peer that is added is counted once, as it is.
times_one :
    (p : AddrInfo) (b : Bool) → times p.id b (p ∷ []) ≡ (if same (has_addrs p) b then 1 else 0)
unfolding times
times_one p b = ground arith

times_other :
    (p : AddrInfo) (id : PeerId) (b : Bool) → (p.id == id) ≡ false → times id b (p ∷ []) ≡ 0
unfolding times
times_other p id b e = rw e refl

module _ (count : ℕ) where
  -- What was added of a peer.
  abbrev all_of : PeerId → Bool → Search → ℕ
  all_of id b s = times id b s.adding + times id b s.sent

  abbrev IsKnown : PeerId → Search → Type 0
  IsKnown id s = Known (fetch id s.ps) (all_of id true s) (all_of id false s)

  abbrev IsSound : Search → Type 0
  IsSound s = ((id : PeerId) → IsKnown id s) × (count ≢ 0 → length s.ps ≤ count)

  length-put : (k : ℕ) (v : AddrInfo) (m : Map AddrInfo) → length (put k v m) ≤ suc (length m)
  unfolding put
  length-put k v [] = omega arith
  length-put k v ((j, w) ∷ m) = ground (arith, length-put k v m)

  grown :
      (o : Option AddrInfo) (p : AddrInfo) (full bare : ℕ)
      → Known o full bare
      → is_news o p ≡ true
      → Known (some p) (times p.id true (p ∷ []) + full) (times p.id false (p ∷ []) + bare)
  unfolding is_news
  grown none p full bare h news = rw (times_one p true, times_one p false) (ground (arith, h))
  grown (some pi) p full bare h news =
      rw (times_one p true, times_one p false) (ground (arith, h, news))

  recount :
      {o o' : Option AddrInfo} {f f' b b' : ℕ}
      → o' ≡ o
      → f' ≡ f
      → b' ≡ b
      → Known o f b
      → Known o' f' b'
  recount x y z h = rw (x, y, z) h

  put-IsKnown :
      (p : AddrInfo) (s : Search) (id : PeerId)
      → IsKnown id s
      → is_news (fetch p.id s.ps) p ≡ true
      → IsKnown id (record s { ps = put p.id p s.ps; adding = p ∷ s.adding })
  put-IsKnown p s id h news =
      let more = λ (b : Bool). times-cons id b p s.adding in
      elim (Bool-cases (p.id == id)) [
        | inr other ↦
            let none_more = λ (b : Bool). times_other p id b other in
            recount {o = fetch id s.ps} {f = all_of id true s} {b = all_of id false s}
              (ground (arith, fetch-put p.id id p s.ps, other))
              (omega (arith, more true, none_more true))
              (omega (arith, more false, none_more false)) h
        | inl e ↦
            let here : p.id ≡ id = ground (arith, e) in
            let one = λ (b : Bool). ap (λ k. times k b (p ∷ [])) here in
            let all = λ (b : Bool). ap (λ k. all_of k b s) here in
            recount {o = some p} {f = times p.id true (p ∷ []) + all_of p.id true s}
              {b = times p.id false (p ∷ []) + all_of p.id false s}
              (ground (arith, fetch-put p.id id p s.ps, e))
              (omega (arith, more true, one true, all true))
              (omega (arith, more false, one false, all false))
              (grown (fetch p.id s.ps) p _ _ (subst (λ k. IsKnown k s) (sym here) h) news)
      ]

  try_add-IsSound : (p : AddrInfo) (s : Search) → IsSound s → IsSound (try_add count p s)
  unfolding try_add ps_try_add
  try_add-IsSound p s h = elim (Bool-cases (is_news (fetch p.id s.ps) p)) [
    | inr old ↦ rw old (unfold added in h)
    | inl news ↦ elim (Bool-cases (ltb (length s.ps) count || count == 0)) [
      | inr full ↦ rw (news, full) (unfold added in h)
      | inl room ↦
          rw (news, room)
            (unfold added in
              (
                λ id. put-IsKnown p s id (h.0 id) news,
                λ some'. ground (arith, h.1, length-put p.id p s.ps),
              ))
    ]
  ]

  -- The search after the goroutine of one added provider goes on.
  all_of-moved :
      (s : Search) (xs : List AddrInfo) (p : AddrInfo) (ys : List AddrInfo) (id : PeerId) (b : Bool)
      → s.adding ≡ xs ++ (p ∷ ys)
      → times id b (xs ++ ys) + times id b (p ∷ s.sent) ≡ all_of id b s
  all_of-moved s xs p ys id b e =
      omega (arith, ap (times id b) e, times-split id b xs p ys, times-cons id b p s.sent)

  Known-fewer :
      (o : Option AddrInfo) (f f' b b' : ℕ) → f' ≤ f → b' ≤ b → Known o f b → Known o f' b'
  Known-fewer none f f' b b' x y h = ground (arith, h)
  Known-fewer (some pi) f f' b b' x y h = ground (arith, h)

  Step-IsSound : {s s' : Search} → Step count s s' → IsSound s → IsSound s'
  Step-IsSound (tries s p) h = try_add-IsSound p s h
  Step-IsSound (sends s xs p ys e) (known, few) = (
    λ id.
        recount refl (all_of-moved s xs p ys id true e) (all_of-moved s xs p ys id false e)
          (known id),
    few,
  )
  Step-IsSound (stops s xs p ys e) (known, few) = (
    λ id.
        Known-fewer (fetch id s.ps) _ _ _ _
          (omega (arith, all_of-moved s xs p ys id true e, times-cons id true p s.sent))
          (omega (arith, all_of-moved s xs p ys id false e, times-cons id false p s.sent))
          (known id),
    few,
  )

  -- What the goroutines of a search come to, in any order of their steps.
  pub data Reached : Search → Type 0 where
    starts : Reached nothing_found
    steps : {s s' : Search} → Reached s → Step count s s' → Reached s'

  Reached-IsSound : {s : Search} → Reached s → IsSound s
  Reached-IsSound starts = (λ id. unfold fetch times in (refl, refl), λ _. omega arith)
  Reached-IsSound (steps r t) = Step-IsSound t (Reached-IsSound r)

  Known-few : (o : Option AddrInfo) (f b : ℕ) → Known o f b → (f ≤ 1) × (b ≤ 1)
  Known-few none f b h = ground (arith, h)
  Known-few (some pi) f b h = ground (arith, h)

  -- Whatever providers the node and the peers name, and however the goroutines interleave, also
  -- between a psTryAdd and the send behind it: with a count that is not 0 at most so many providers
  -- are found, and each provider is sent at most once with and at most once without addresses.
  pub Reached-SentWell :
      {s : Search} → Reached s → (count ≢ 0 → length s.ps ≤ count) × SentWell s.sent
  Reached-SentWell {s} r =
      let (known, few) = Reached-IsSound r in
      (
        few,
        λ id.
            let (full, bare) = Known-few (fetch id s.ps) _ _ (known id) in
            (omega (arith, full), omega (arith, bare)),
      )

  -- The turns of the loop over the local providers are such steps.
  goes_on :
      (s : Search) (p : AddrInfo) (takes : Bool)
      → Reached (record s { adding = p ∷ s.adding })
      → Reached (record s { sent = if takes then p ∷ s.sent else s.sent })
  goes_on s p true r = steps r (sends (record s { adding = p ∷ s.adding }) [] p s.adding refl)
  goes_on s p false r = steps r (stops (record s { adding = p ∷ s.adding }) [] p s.adding refl)

  offer-Reached :
      (p : AddrInfo) (takes : Bool) (s : Search) → Reached s → Reached (offer count p takes s)
  unfolding offer
  offer-Reached p takes s r = elim (Option-cases (ps_try_add count p s.ps)) [
    | inl e ↦ rw (e, send_added) r
    | inr (ps, e) ↦
        let now : Search = record s { ps = ps; adding = p ∷ s.adding } in
        let tried : try_add count p s ≡ now = unfold try_add added in rw e refl in
        let there : Reached now = subst (λ t. Reached t) tried (steps r (tries s p)) in
        rw (e, send_added) (goes_on (record s { ps = ps }) p takes there)
  ]

  -- The loop over the local providers leaves a search that these steps reach.
  pub offer_all-Reached :
      (provs : List (AddrInfo × Bool)) (s : Search)
      → Reached s
      → Reached (offer_all count provs s).0
  unfolding offer_all
  offer_all-Reached [] s r = r
  offer_all-Reached ((p, takes) ∷ provs) s r =
      let s' = offer count p takes s in
      let next = offer-Reached p takes s r in
      elim (Bool-cases (gives_up count p takes s)) [
        | inl e ↦ rw e next
        | inr e ↦ elim (Bool-cases (enough count s'.ps)) [
          | inl f ↦ rw (e, f) next
          | inr f ↦ rw (e, f) (offer_all-Reached provs s' next)
        ]
      ]
