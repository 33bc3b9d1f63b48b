-- ===== src/PeerDiversity/Stats.antt =====
-- The statistics of the filter, and which addresses make one group.
use mathlib.Core.List.{Perm}
use dep2p.Base.{
  ℕ, ◌≡◌, ◌↔◌, refl, sym, ap, subst, Bool, true, false, ◌||◌, inl, inr, ◌⊎◌, List, [], ◌∷◌, map,
  Option, some, ◌==◌, ltb, if◌then◌else◌, arith,
}
use dep2p.Base.Predicates.{All}
use dep2p.Base.Sorting.{IsOrder, IsSorted, sort, sort-IsSorted, sort-perm}
use dep2p.Keyspace.{PeerId}
use dep2p.PeerDiversity.{
  Addresses, PeerIpGroupFilter, PeerIpGroupKey, masked, ip4, legacy_class_a, F, CplDiversityStats,
  keys, ip_group_key, nonempty, get_diversity_stats,
}
use dep2p.PeerDiversity.Groups.{inner}

pub ltb-IsOrder : IsOrder ltb
ltb-IsOrder = record { asym = λ a b h. ground arith; trans = λ a b c h k. ground arith }

abbrev pub elem : ℕ → List ℕ → Bool
elem a [] = false
elem a (b ∷ bs) = a == b || elem a bs

module _ (A : Addresses) (G : PeerIpGroupFilter A) (cpl_fnc : PeerId → ℕ) where
  abbrev cpls : List CplDiversityStats → List ℕ
  cpls = map (λ s. s.cpl)

  stats_of : F A G cpl_fnc → ℕ → CplDiversityStats
  stats_of f c = record { cpl = c; peers = inner A G cpl_fnc c f }

  cpls-stats : (f : F A G cpl_fnc) (cs : List ℕ) → cpls (map (stats_of f) cs) ≡ cs
  unfolding stats_of
  cpls-stats f [] = refl
  cpls-stats f (c ∷ cs) = ap (◌∷◌ c) (cpls-stats f cs)

  stats-All :
      (f : F A G cpl_fnc) (cs : List ℕ)
      → All (λ s. s.peers ≡ inner A G cpl_fnc s.cpl f) (map (stats_of f) cs)
  unfolding stats_of
  stats-All f [] = tt
  stats-All f (c ∷ cs) = (refl, stats-All f cs)

  -- The statistics name the prefix lengths of the filter, each as often as the filter has it, in
  -- ascending order, with the peers and keys that the filter has for them.
  pub get_diversity_stats_lem :
      (f : F A G cpl_fnc)
      → let stats = get_diversity_stats A G cpl_fnc f in
        IsSorted ltb (map (λ s. s.cpl) stats)
        × Perm (map (λ s. s.cpl) stats) (keys f.cpl_peer_groups)
        × All (λ s. s.peers ≡ inner A G cpl_fnc s.cpl f) stats
  unfolding get_diversity_stats stats_of
  get_diversity_stats_lem f =
      let ks = keys f.cpl_peer_groups in
      let same = sym (cpls-stats f (sort ltb ks)) in
      (
        subst (IsSorted ltb) same (sort-IsSorted ltb ltb-IsOrder ks),
        subst (λ l. Perm l ks) same (sort-perm ltb ks),
        stats-All f (sort ltb ks),
      )

  text : Bool → ℕ → ℕ → Option PeerIpGroupKey
  text x a b = if x then some (masked a 0) else some (masked a b)

  same_text :
      (x y : Bool) (a b a' b' : ℕ)
      → (a ≡ a' → x ≡ y)
      → (text x a b ≡ text y a' b') ↔ ((a ≡ a') × ((x ≡ true) ⊎ (b ≡ b')))
  unfolding text
  same_text true true a b a' b' k = (λ e. (cc, inl refl), λ h. rw h.0 refl)
  same_text true false a b a' b' k = (
    λ e. let same : a ≡ a' = cc in absurd (ground (arith, k same)),
    λ h. absurd (ground (arith, k h.0)),
  )
  same_text false true a b a' b' k = (
    λ e. let same : a ≡ a' = cc in absurd (ground (arith, k same)),
    λ h. absurd (ground (arith, k h.0)),
  )
  same_text false false a b a' b' k =
      (λ e. (cc, inr cc), λ h. elim h.1 [ inl t ↦ cc | inr q ↦ rw (h.0, q) refl ])

  -- Where the ranger finds a block for an address exactly if one of the given ones contains it, two
  -- IPv4 addresses are of one group exactly if their first bytes are equal, and either that byte is
  -- the one of a legacy block, or their second bytes are equal too.
  pub ip_group_key-same :
      (a b c d a' b' c' d' : ℕ)
      → ((i j k l : ℕ)
          → nonempty (A.containing_networks legacy_class_a (ip4 i j k l)) ≡ elem i legacy_class_a)
      → (ip_group_key A G cpl_fnc (ip4 a b c d) ≡ ip_group_key A G cpl_fnc (ip4 a' b' c' d'))
        ↔ ((a ≡ a') × ((elem a legacy_class_a ≡ true) ⊎ (b ≡ b')))
  unfolding ip_group_key text
  ip_group_key-same a b c d a' b' c' d' found =
      rw (found a b c d, found a' b' c' d')
        (same_text (elem a legacy_class_a) (elem a' legacy_class_a) a b a' b'
          (ap (λ k. elem k legacy_class_a)))
