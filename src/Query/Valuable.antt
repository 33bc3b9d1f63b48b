-- ===== src/Query/Valuable.antt =====
-- query.go: `recordValuablePeers`, which marks the seed peers that answered in about the best time.
use dep2p.Base.{
  ℕ, ◌+◌, ◌-◌, ◌*◌, ◌%◌, ◌^◌, ◌≤◌, ◌<◌, ◌≡◌, ◌↔◌, ◌⊎◌, refl, sym, ap, ◌∙◌, inl, inr, Bool, true,
  false, List, [], ◌∷◌, Option, none, some, arith, ltb, ◌==◌, if◌then◌else◌, Bool-cases,
  Option-cases,
}
use dep2p.Base.Predicates.{All}
use dep2p.Keyspace.{PeerId, Primitives}
use dep2p.KBucket.Table.{RoutingTable, update_last_useful_at}
use dep2p.KBucket.Invariant.{IsValid}
use dep2p.KBucket.Invariant.Times.{update_last_useful_at-IsValid}

-- `q.peerTimes[p]`.
unfoldable pub time_of : List (PeerId × ℕ) → PeerId → Option ℕ
time_of [] p = none
time_of ((r, d) ∷ times) p = let rest = time_of times p in if r == p then some d else rest

-- `a < b` for two words read as int64.
unfoldable pub less_int64 : ℕ → ℕ → Bool
less_int64 a b = ltb ((a + 2 ^ 63) % 2 ^ 64) ((b + 2 ^ 63) % 2 ^ 64)

module _ (times : List (PeerId × ℕ)) where
  -- The first loop, with the shortest time so far.
  unfoldable pub mvp_duration : ℕ → List PeerId → ℕ
  unfolding time_of less_int64
  mvp_duration mvp [] = mvp
  mvp_duration mvp (p ∷ seed_peers) =
      mvp_duration
        (elim (time_of times p) [ none ↦ mvp | some d ↦ if less_int64 d mvp then d else mvp ])
        seed_peers

  -- The test of the second loop; the product wraps.
  unfoldable pub is_valuable : ℕ → PeerId → Bool
  unfolding time_of less_int64
  is_valuable mvp p = elim (time_of times p) [
    | none ↦ false
    | some d ↦ less_int64 d ((mvp * 2) % 2 ^ 64)
  ]

module _ (P : Primitives) {S : Type 0} (now : ℕ) (times : List (PeerId × ℕ)) where
  -- The second loop, with the routing table.
  unfoldable pub record_from : ℕ → List PeerId → RoutingTable S → RoutingTable S
  unfolding is_valuable
  record_from mvp [] t = t
  record_from mvp (p ∷ seed_peers) t =
      record_from mvp seed_peers
        (if is_valuable times mvp p then (update_last_useful_at P t p now).1 else t)

  unfoldable pub record_valuable_peers : List PeerId → RoutingTable S → RoutingTable S
  unfolding mvp_duration record_from
  record_valuable_peers seed_peers t =
      record_from (mvp_duration times (2 ^ 63 - 1) seed_peers) seed_peers t

  record_from-IsValid :
      (mvp : ℕ) (seeds : List PeerId) (t : RoutingTable S)
      → IsValid P t
      → IsValid P (record_from mvp seeds t)
  unfolding record_from
  record_from-IsValid mvp [] t v = v
  record_from-IsValid mvp (p ∷ seeds) t v = elim (Bool-cases (is_valuable times mvp p)) [
    | inl e ↦
        rw (e, record_from)
          (record_from-IsValid mvp seeds _ (update_last_useful_at-IsValid P t p now v))
    | inr e ↦ rw (e, record_from) (record_from-IsValid mvp seeds t v)
  ]

  -- `recordValuablePeers` keeps a valid routing table valid.
  pub record_valuable_peers-IsValid :
      (seed_peers : List PeerId) (t : RoutingTable S)
      → IsValid P t
      → IsValid P (record_valuable_peers seed_peers t)
  unfolding record_valuable_peers
  record_valuable_peers-IsValid seed_peers t v = record_from-IsValid _ seed_peers t v

-- On times below 2^63 the comparison is that of the numbers.
less_int64-ltb : (a b : ℕ) → a < 2 ^ 63 → b < 2 ^ 63 → less_int64 a b ≡ ltb a b
unfolding less_int64
less_int64-ltb a b x y = ground arith

module _ (times : List (PeerId × ℕ)) where
  -- A time that fits in an int64, if the peer has one.
  abbrev pub IsTime : PeerId → Type 0
  IsTime p = (d : ℕ) → time_of times p ≡ some d → d < 2 ^ 63

  -- The shortest time after one peer.
  abbrev next_mvp : ℕ → PeerId → ℕ
  next_mvp mvp p = elim (time_of times p) [
    | none ↦ mvp
    | some d ↦ if less_int64 d mvp then d else mvp
  ]

  next_mvp-le :
      (mvp : ℕ) (p : PeerId)
      → mvp < 2 ^ 63
      → IsTime p
      → (next_mvp mvp p ≤ mvp) × ((d : ℕ) → time_of times p ≡ some d → next_mvp mvp p ≤ d)
  next_mvp-le mvp p b h = elim (Option-cases (time_of times p)) [
    | inl e ↦ rw (e, next_mvp) (omega arith, λ d f. absurd cc)
    | inr (d, e) ↦
        let test = less_int64-ltb d mvp (h d e) b in
        rw (e, next_mvp)
          (
            ground (arith, test),
            λ r f. (let same : d ≡ r = cc in rw (← same) (ground (arith, test))),
          )
  ]

  -- The result of the first loop is no longer than the time of any of the peers.
  mvp_duration-le :
      (mvp : ℕ) (seeds : List PeerId)
      → mvp < 2 ^ 63
      → All IsTime seeds
      → (mvp_duration times mvp seeds ≤ mvp)
        × All (λ p. (d : ℕ) → time_of times p ≡ some d → mvp_duration times mvp seeds ≤ d) seeds
  unfolding mvp_duration
  mvp_duration-le mvp [] b h = (omega arith, tt)
  mvp_duration-le mvp (p ∷ seeds) b h =
      let (down, mine) = next_mvp-le mvp p b h.0 in
      let (le, all) = mvp_duration-le (next_mvp mvp p) seeds (omega (arith, down)) h.1 in
      (omega (arith, le, down), (λ d e. omega (arith, le, mine d e), all))

  -- That result is the time of one of the peers, if it is not what the loop started with.
  abbrev pub TimeOfOne : ℕ → List PeerId → Type 0
  TimeOfOne m [] = ⊥
  TimeOfOne m (p ∷ seeds) = (time_of times p ≡ some m) ⊎ TimeOfOne m seeds

  next_mvp-one :
      (mvp : ℕ) (p : PeerId) → (next_mvp mvp p ≡ mvp) ⊎ (time_of times p ≡ some (next_mvp mvp p))
  next_mvp-one mvp p = elim (Option-cases (time_of times p)) [
    | inl e ↦ rw (e, next_mvp) (inl refl)
    | inr (d, e) ↦ elim (Bool-cases (less_int64 d mvp)) [
      | inl f ↦ rw (e, next_mvp, f) (inr refl)
      | inr f ↦ rw (e, next_mvp, f) (inl refl)
    ]
  ]

  mvp_duration-one :
      (mvp : ℕ) (seeds : List PeerId)
      → (mvp_duration times mvp seeds ≡ mvp) ⊎ TimeOfOne (mvp_duration times mvp seeds) seeds
  unfolding mvp_duration
  mvp_duration-one mvp [] = inl refl
  mvp_duration-one mvp (p ∷ seeds) = elim (mvp_duration-one (next_mvp mvp p) seeds) [
    | inr one ↦ inr (inr one)
    | inl last ↦ elim (next_mvp-one mvp p) [
      | inl first ↦ inl (last ∙ first)
      | inr mine ↦ inr (inl (mine ∙ ap (λ n. some n) (sym last)))
    ]
  ]

  -- Where the times fit in an int64, the shortest time of the first loop is the time of one of the
  -- seed peers, or the greatest int64, and no seed peer has a shorter one. Where twice that time
  -- fits too, a seed peer passes the test of the second loop exactly if it has a time, and one below
  -- twice the shortest.
  pub is_valuable_lem :
      (seeds : List PeerId)
      → All IsTime seeds
      → let shortest = mvp_duration times (2 ^ 63 - 1) seeds in
        ((shortest ≡ 2 ^ 63 - 1) ⊎ TimeOfOne shortest seeds)
        × All (λ p. (d : ℕ) → time_of times p ≡ some d → shortest ≤ d) seeds
        × (shortest < 2 ^ 62
            → All
                (λ p.
                  (is_valuable times shortest p ≡ true)
                  ↔ ((d : ℕ) × (time_of times p ≡ some d) × (d < 2 * shortest)))
                seeds)
  unfolding is_valuable
  is_valuable_lem seeds h =
      let (le, all) = mvp_duration-le (2 ^ 63 - 1) seeds (omega arith) h in
      (
        mvp_duration-one (2 ^ 63 - 1) seeds,
        all,
        λ small. tested (mvp_duration times (2 ^ 63 - 1) seeds) small seeds h,
      )
    where
      tested_one :
          (m d : ℕ) → m < 2 ^ 62 → d < 2 ^ 63 → less_int64 d ((m * 2) % 2 ^ 64) ≡ ltb d (2 * m)
      tested_one m d small fits =
          let e : (m * 2) % 2 ^ 64 ≡ 2 * m = omega arith in
          rw e (less_int64-ltb d (2 * m) fits (omega arith))

      passes :
          (m : ℕ) (p : PeerId)
          → m < 2 ^ 62
          → IsTime p
          → (is_valuable times m p ≡ true) ↔ ((d : ℕ) × (time_of times p ≡ some d) × (d < 2 * m))
      passes m p small fits = elim (Option-cases (time_of times p)) [
        | inl e ↦ (λ h. absurd (ground (arith, e, h)), λ (d, f, lt). absurd cc)
        | inr (d, e) ↦
            let test = tested_one m d small (fits d e) in
            (
              λ h. (d, e, ground (arith, test, e, h)),
              λ (d', f, lt).
                  let same : d ≡ d' = cc in
                  let below : d < 2 * m = rw same lt in rw (e, is_valuable, test) (ground arith),
            )
      ]

      tested :
          (m : ℕ)
          → m < 2 ^ 62
          → (ps : List PeerId) → All IsTime ps
          → All
              (λ p.
                (is_valuable times m p ≡ true)
                ↔ ((d : ℕ) × (time_of times p ≡ some d) × (d < 2 * m)))
              ps
      tested m small [] k = tt
      tested m small (p ∷ ps) k = (passes m p small k.0, tested m small ps k.1)
