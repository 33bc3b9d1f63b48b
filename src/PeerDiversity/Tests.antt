-- ===== src/PeerDiversity/Tests.antt =====
-- Runs of the filter, and each theorem at a concrete input.
use dep2p.Base.{
  ℕ, ◌+◌, ◌-◌, ◌≡◌, refl, Bool, true, false, List, [], ◌∷◌, some, arith, ltb, ◌==◌, if◌then◌else◌,
}
use dep2p.Keyspace.{PeerId}
use dep2p.Keyspace.Tests.{toy, toy-IsDigest}
use dep2p.KBucket.Change.{Table}
use dep2p.KBucket.Table.{Diversity, new_routing_table}
use dep2p.KBucket.Invariant.{IsValid}
use dep2p.KBucket.Invariant.Methods
use dep2p.PeerDiversity.{
  Addresses, PeerIpGroupFilter, Filter, F, Ip, ip4, nonempty, legacy_class_a, new_filter, try_add,
  remove, is_some,
}
use dep2p.Base.Maps.{fetch, fetch_or}
use dep2p.PeerDiversity.Consistency.{IsConsistent}
use dep2p.PeerDiversity.Runs
use dep2p.PeerDiversity.Runs.{after_all, add_call, remove_call, whitelist_call}
use dep2p.PeerDiversity.Undo
use dep2p.PeerDiversity.Undo.{IsCounter}
use dep2p.PeerDiversity.Stats.{elem}
use dep2p.PeerDiversity.Limits.{filter_diversity, Consistent}

blocks_of : List ℕ → Ip → List ℕ
blocks_of bs (ip4 a b c d) = if elem a bs then a ∷ [] else []
blocks_of bs (Ip.ip6 n) = []

-- Addresses are IPs.
abbrev plain : Addresses
plain = record {
  Multiaddr = Ip;
  to_ip = some;
  asn_for_ipv6 = λ n. some n;
  containing_networks = blocks_of;
}

-- At most three groups in all; peer 3 has no address, the others one that begins with their number.
abbrev three_groups : PeerIpGroupFilter plain
three_groups = record {
  State = ℕ;
  allow = λ s g. ltb s 3;
  increment = λ s g. s + 1;
  decrement = λ s g. s - 1;
  peer_addresses = λ s p. if p == 3 then [] else ip4 p 7 1 1 ∷ [];
}

abbrev cpl : PeerId → ℕ
cpl p = p - 10

abbrev fresh : F plain three_groups cpl
fresh = record { pgm = 0; peer_groups = []; wlpeers = []; cpl_peer_groups = [] }

fresh-IsConsistent : IsConsistent plain three_groups cpl fresh
unfolding fetch fetch_or
fresh-IsConsistent = record {
  agree = λ p. refl;
  elsewhere = λ c p ne. refl;
  no_empty = λ c m e. cc;
}

three_groups-IsCounter : IsCounter three_groups
three_groups-IsCounter = record { undo = λ s g. omega arith; comm = λ s g h. refl }

after_all-IsConsistent_example : IsConsistent plain three_groups cpl (
    after_all plain three_groups cpl
      (add_call 12 ∷ whitelist_call (3 ∷ []) ∷ add_call 3 ∷ remove_call 12 ∷ [])
      (new_filter plain three_groups cpl 0))
after_all-IsConsistent_example =
    Runs.after_all-IsConsistent plain three_groups cpl 0
      (add_call 12 ∷ whitelist_call (3 ∷ []) ∷ add_call 3 ∷ remove_call 12 ∷ [])

remove-try_add_example :
    remove plain three_groups cpl 12 (try_add plain three_groups cpl 12 fresh).1 ≡ fresh
unfolding fetch is_some try_add blocks_of
remove-try_add_example =
    Undo.remove-try_add plain three_groups cpl three_groups-IsCounter 12 fresh fresh-IsConsistent
      refl refl refl

one_block : (b : Bool) (x : ℕ) → nonempty (if b then x ∷ [] else []) ≡ b
unfolding nonempty
one_block true x = refl
one_block false x = refl

found_in : (i j k l : ℕ) → nonempty (blocks_of legacy_class_a (ip4 i j k l)) ≡ elem i legacy_class_a
unfolding blocks_of
found_in i j k l = one_block (elem i legacy_class_a) i

abbrev first : ℕ
first = 12

abbrev second : ℕ
second = 1

abbrev limited : Diversity
limited = filter_diversity toy plain three_groups (toy.sum256 0)

abbrev table : Table toy limited
table = new_routing_table (Filter ℕ) 2 (toy.sum256 0) 10 60 (some fresh)

table-IsValid : IsValid toy table
table-IsValid =
    Methods.new_routing_table-IsValid toy (Filter ℕ) 2 (toy.sum256 0) 10 60 (some fresh)
      (toy-IsDigest 0)

fresh-Consistent : Consistent toy plain three_groups (toy.sum256 0) fresh
unfolding fetch fetch_or
fresh-Consistent = record { agree = λ p. refl; elsewhere = λ c p ne. refl; no_empty = λ c m e. cc }
