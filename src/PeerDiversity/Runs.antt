-- ===== src/PeerDiversity/Runs.antt =====
-- The states that the filter reaches through its methods.
use dep2p.Base.{ℕ, Bool, refl, List, [], ◌∷◌}
use dep2p.Base.Maps.{fetch, fetch_or}
use dep2p.Keyspace.{PeerId}
use dep2p.PeerDiversity.{
  Addresses, PeerIpGroupFilter, F, try_add, remove, whitelist_peers, new_filter,
}
use dep2p.PeerDiversity.Outcome.{TryAddResult, whitelisted, refused, taken, try_add_ends}
use dep2p.PeerDiversity.Consistency.{IsConsistent, filed-IsConsistent}
use dep2p.PeerDiversity.Removal.{remove-IsConsistent}

-- A call of one of the methods that change the filter.
pub data Call : Type 0 where
  add_call remove_call : PeerId → Call
  whitelist_call : List PeerId → Call

module _ (A : Addresses) (G : PeerIpGroupFilter A) (cpl_fnc : PeerId → ℕ) where
  abbrev E : Type 0
  E = F A G cpl_fnc

  unfoldable pub after : Call → E → E
  after (add_call p) f = (try_add A G cpl_fnc p f).1
  after (remove_call p) f = remove A G cpl_fnc p f
  after (whitelist_call ps) f = whitelist_peers A G cpl_fnc ps f

  unfoldable pub after_all : List Call → E → E
  unfolding after
  after_all [] f = f
  after_all (c ∷ cs) f = after_all cs (after c f)

  pub try_add-IsConsistent :
      (p : PeerId) (f : E)
      → IsConsistent A G cpl_fnc f
      → IsConsistent A G cpl_fnc (try_add A G cpl_fnc p f).1
  try_add-IsConsistent p f v = ends _ (try_add_ends A G cpl_fnc p f)
    where
      ends : (r : Bool × E) → TryAddResult A G cpl_fnc p f r → IsConsistent A G cpl_fnc r.1
      ends _ (whitelisted w) = v
      ends _ (refused w) = v
      ends _ (taken g gs w l all) = filed-IsConsistent A G cpl_fnc p (g ∷ gs) f v

  whitelist_peers-IsConsistent :
      (ps : List PeerId) (f : E)
      → IsConsistent A G cpl_fnc f
      → IsConsistent A G cpl_fnc (whitelist_peers A G cpl_fnc ps f)
  unfolding whitelist_peers
  whitelist_peers-IsConsistent [] f v = v
  whitelist_peers-IsConsistent (p ∷ ps) f v =
      whitelist_peers-IsConsistent ps _
        (record { agree = v.agree; elsewhere = v.elsewhere; no_empty = v.no_empty })

  new_filter-IsConsistent : (s : G.State) → IsConsistent A G cpl_fnc (new_filter A G cpl_fnc s)
  unfolding new_filter fetch fetch_or
  new_filter-IsConsistent s = record {
    agree = λ p. refl;
    elsewhere = λ c p ne. refl;
    no_empty = λ c m e. cc;
  }

  step-IsConsistent :
      (c : Call) (f : E) → IsConsistent A G cpl_fnc f → IsConsistent A G cpl_fnc (after c f)
  unfolding after
  step-IsConsistent (add_call p) f v = try_add-IsConsistent p f v
  step-IsConsistent (remove_call p) f v = remove-IsConsistent A G cpl_fnc p f v
  step-IsConsistent (whitelist_call ps) f v = whitelist_peers-IsConsistent ps f v

  all-IsConsistent :
      (cs : List Call) (f : E)
      → IsConsistent A G cpl_fnc f
      → IsConsistent A G cpl_fnc (after_all cs f)
  unfolding after_all
  all-IsConsistent [] f v = v
  all-IsConsistent (c ∷ cs) f v = all-IsConsistent cs (after c f) (step-IsConsistent c f v)

  -- After any calls on a new filter, a peer's keys are filed under its own prefix length only, one
  -- for each of its groups and in their order, and no prefix length is kept without peers.
  pub after_all-IsConsistent :
      (s : G.State) (cs : List Call)
      → IsConsistent A G cpl_fnc (after_all cs (new_filter A G cpl_fnc s))
  after_all-IsConsistent s cs = all-IsConsistent cs _ (new_filter-IsConsistent s)
