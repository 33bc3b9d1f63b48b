-- ===== src/PeerDiversity.antt =====
-- kbucket/peerdiversity/filter.go: the filter that limits how many peers of one IP group the routing
-- table takes. The locks are not modelled: each method is one step.
pub mod Groups
pub mod Outcome
pub mod Consistency
pub mod Removal
pub mod Runs
pub mod Undo
pub mod Stats
pub mod Limits
pub mod Tests
use dep2p.Base.{
  ℕ, zero, suc, ◌≤◌, ◌<◌, ◌≡◌, ◌↔◌, Bool, true, false, not, List, [], ◌∷◌, ◌++◌, map, Option, none,
  some, length, ltb, ◌==◌, if◌then◌else◌,
}
use dep2p.Base.Maps.{Map, fetch, fetch_or, put, delete}
use dep2p.Base.Sorting.{sort}
use dep2p.Keyspace.{PeerId}

-- An address of 4 bytes, or one of IPv6, which the filter does not take apart.
pub data Ip : Type 0 where
  ip4 : (a b c d : ℕ) → Ip
  ip6 : ℕ → Ip

-- The text of a masked IPv4 address, by its first two bytes; the name of an autonomous system, a
-- number that stands for the string, 0 for the empty one; and the text for an unknown one.
pub data PeerIpGroupKey : Type 0 where
  masked : ℕ → ℕ → PeerIpGroupKey
  asn : ℕ → PeerIpGroupKey
  unknown_asn : PeerIpGroupKey

pub record PeerGroupInfo : Type 0 where
  pub id : PeerId
  pub cpl : ℕ
  pub ip_group_key : PeerIpGroupKey

-- The first bytes of `legacyClassA`, blocks of /8.
abbrev pub legacy_class_a : List ℕ
legacy_class_a = 12 ∷ 17 ∷ 19 ∷ 38 ∷ 48 ∷ 56 ∷ 73 ∷ 53 ∷ []

-- What the filter takes from other packages: the IP of a multiaddress, the name of an autonomous
-- system, and the ranger, which gives the blocks that contain an address.
pub record Addresses : Type 1 where
  pub Multiaddr : Type 0
  pub to_ip : Multiaddr → Option Ip
  pub asn_for_ipv6 : ℕ → Option ℕ
  pub containing_networks : (blocks : List ℕ) → Ip → List ℕ

-- `PeerIPGroupFilter`, the strategy of the caller.
pub record PeerIpGroupFilter (A : Addresses) : Type 1 where
  pub State : Type 0
  pub allow : State → PeerGroupInfo → Bool
  pub increment : State → PeerGroupInfo → State
  pub decrement : State → PeerGroupInfo → State
  pub peer_addresses : State → PeerId → List A.Multiaddr

pub record Filter (S : Type 0) : Type 0 where
  pub pgm : S
  pub peer_groups : Map (List PeerGroupInfo)
  pub wlpeers : Map {0} Unit
  pub cpl_peer_groups : Map (Map (List PeerIpGroupKey))

pub record CplDiversityStats : Type 0 where
  pub cpl : ℕ
  pub peers : Map (List PeerIpGroupKey)

unfoldable pub is_empty_key : PeerIpGroupKey → Bool
is_empty_key (masked a b) = false
is_empty_key (asn n) = n == 0
is_empty_key unknown_asn = false

unfoldable pub is_some {ℓ} : {A : Type ℓ} → Option A → Bool
is_some none = false
is_some (some a) = true

unfoldable pub nonempty {ℓ} : {A : Type ℓ} → List A → Bool
nonempty [] = false
nonempty (x ∷ xs) = true

-- A list one longer, where there is an element and a list.
unfoldable pub both {ℓ} : {A : Type ℓ} → Option A → Option (List A) → Option (List A)
both none rest = none
both (some x) none = none
both (some x) (some xs) = some (x ∷ xs)

-- The keys of a map.
unfoldable pub keys {ℓ} : {A : Type ℓ} → Map A → List ℕ
keys [] = []
keys ((k, v) ∷ m) = k ∷ keys m

module _ (A : Addresses) (G : PeerIpGroupFilter A) (cpl_fnc : PeerId → ℕ) where
  open A use {Multiaddr, to_ip, asn_for_ipv6, containing_networks}
  open G use {State, allow, increment, decrement, peer_addresses}

  abbrev pub F : Type 0
  F = Filter State

  -- none is the error of the fetch.
  unfoldable pub ip_group_key : Ip → Option PeerIpGroupKey
  unfolding nonempty
  ip_group_key (ip6 n) = elim (asn_for_ipv6 n) [
    | none ↦ none
    | some s ↦ some (if s == 0 then unknown_asn else asn s)
  ]
  ip_group_key (ip4 a b c d) =
      if nonempty (containing_networks legacy_class_a (ip4 a b c d))
      then some (masked a 0)
      else some (masked a b)

  unfoldable pub new_filter : State → F
  new_filter s = record { pgm = s; peer_groups = []; wlpeers = []; cpl_peer_groups = [] }

  -- The group for a key, none where `TryAdd` refuses the peer for it.
  unfoldable pub keyed : State → PeerId → Option PeerIpGroupKey → Option PeerGroupInfo
  unfolding is_empty_key
  keyed s p none = none
  keyed s p (some key) =
      let group : PeerGroupInfo = record { id = p; cpl = cpl_fnc p; ip_group_key = key } in
      if is_empty_key key then none else if allow s group then some group else none

  unfoldable pub group_of : State → PeerId → Option Ip → Option PeerGroupInfo
  unfolding ip_group_key keyed
  group_of s p none = none
  group_of s p (some ip) = keyed s p (ip_group_key ip)

  -- The loop over the addresses.
  unfoldable pub groups_of : State → PeerId → List Multiaddr → Option (List PeerGroupInfo)
  unfolding group_of both
  groups_of s p [] = some []
  groups_of s p (a ∷ addrs) = both (group_of s p (to_ip a)) (groups_of s p addrs)

  -- One round of the loop that counts the groups.
  unfoldable pub count : PeerId → PeerGroupInfo → F → F
  unfolding fetch_or put
  count p g f =
      let inner = fetch_or [] (cpl_fnc p) f.cpl_peer_groups in
      record f {
        pgm = increment f.pgm g;
        peer_groups = put p (fetch_or [] p f.peer_groups ++ (g ∷ [])) f.peer_groups;
        cpl_peer_groups =
            put (cpl_fnc p) (put p (fetch_or [] p inner ++ (g.ip_group_key ∷ [])) inner)
              f.cpl_peer_groups;
      }

  unfoldable pub count_all : PeerId → List PeerGroupInfo → F → F
  unfolding count
  count_all p [] f = f
  count_all p (g ∷ gs) f = count_all p gs (count p g f)

  unfoldable pub open_cpl : ℕ → F → F
  unfolding fetch put is_some
  open_cpl cpl f =
      if is_some (fetch cpl f.cpl_peer_groups)
      then f
      else record f { cpl_peer_groups = put cpl [] f.cpl_peer_groups }

  unfoldable pub try_add : PeerId → F → Bool × F
  unfolding fetch is_some nonempty groups_of open_cpl count_all
  try_add p f =
      let addrs = peer_addresses f.pgm p in
      if is_some (fetch p f.wlpeers)
      then (true, f)
      else if not (nonempty addrs)
      then (false, f)
      else elim (groups_of f.pgm p addrs) [
        | none ↦ (false, f)
        | some peer_groups ↦ (true, count_all p peer_groups (open_cpl (cpl_fnc p) f))
      ]

  unfoldable pub decrement_all : List PeerGroupInfo → State → State
  decrement_all [] s = s
  decrement_all (g ∷ gs) s = decrement_all gs (decrement s g)

  unfoldable pub remove : PeerId → F → F
  unfolding fetch fetch_or put delete decrement_all is_some nonempty
  remove p f =
      let cpl = cpl_fnc p in
      let without : Map (Map (List PeerIpGroupKey)) =
        (if is_some (fetch cpl f.cpl_peer_groups)
          then put cpl (delete p (fetch_or [] cpl f.cpl_peer_groups)) f.cpl_peer_groups
          else f.cpl_peer_groups) in
      record f {
        pgm = decrement_all (fetch_or [] p f.peer_groups) f.pgm;
        peer_groups = delete p f.peer_groups;
        cpl_peer_groups =
            if nonempty (fetch_or [] cpl without) then without else delete cpl without;
      }

  unfoldable pub whitelist_peers : List PeerId → F → F
  unfolding put
  whitelist_peers [] f = f
  whitelist_peers (p ∷ ps) f = whitelist_peers ps (record f { wlpeers = put p tt f.wlpeers })

  -- `sort.Ints` gives the numbers in ascending order.
  unfoldable pub get_diversity_stats : F → List CplDiversityStats
  unfolding keys sort fetch_or
  get_diversity_stats f =
      map (λ cpl. record { cpl = cpl; peers = fetch_or [] cpl f.cpl_peer_groups })
        (sort ltb (keys f.cpl_peer_groups))
