-- ===== src/Routing.antt =====
-- routing.go: announcing that this node has a content, and finding the nodes that have it.
pub mod Deadlines
pub mod Found
pub mod Tests
use dep2p.Base.{
  ℕ, ◌+◌, ◌-◌, ◌*◌, ◌/◌, ◌≡◌, Bool, true, false, not, ◌&&◌, ◌||◌, List, [], ◌∷◌, ◌++◌, Option, none,
  some, ltb, leb, ◌==◌, length, if◌then◌else◌,
}
use dep2p.Base.Maps.{Map, fetch, put}
use dep2p.Keyspace.{PeerId}
use dep2p.Messages.{AddrInfo}

-- The errors of a context and of the lookup.
pub data Error : Type 0 where
  deadline_exceeded : Error
  other : Error

-- One second, in nanoseconds.
abbrev pub second : ℕ
second = 1000000000

-- The deadline of the lookup in `classicProvide`; none where the deadline has passed.
unfoldable pub closer_deadline : (now deadline : ℕ) → Option ℕ
closer_deadline now deadline =
    let timeout = deadline - now in
    if ltb deadline now
    then none
    else if ltb timeout (10 * second)
    then some (deadline - timeout / 10)
    else some (deadline - second)

-- What `GetClosestPeers` returns.
pub record Closest : Type 0 where
  pub peers : List PeerId
  pub err : Option Error

-- The end of `classicProvide`, after the lookup: its error, and the peers that PutProvider is called
-- for. `done` is the error of the outer context after the lookup, and `done_after` the one after the
-- calls.
unfoldable pub put_to_closest :
    (done done_after : Option Error) → Closest → Option Error × List PeerId
put_to_closest done done_after c = elim c.err [
  | none ↦ (done_after, c.peers)
  | some other ↦ (some other, [])
  | some deadline_exceeded ↦ elim done [
    | some e ↦ (some e, [])
    | none ↦ (some deadline_exceeded, c.peers)
  ]
]

-- `classicProvide`, with the deadline of the context if it has one, and the lookup for the deadline
-- that is given to it.
unfoldable pub classic_provide :
    (now : ℕ)
    → Option ℕ
    → (lookup : Option ℕ → Closest) (done done_after : Option Error) → Option Error × List PeerId
unfolding closer_deadline put_to_closest
classic_provide now none lookup done done_after = put_to_closest done done_after (lookup none)
classic_provide now (some deadline) lookup done done_after = elim (closer_deadline now deadline) [
  | none ↦ (some deadline_exceeded, [])
  | some closer ↦ put_to_closest done done_after (lookup (some closer))
]

-- `findProvidersAsyncRoutine`: the providers that were found, ps, those of which a goroutine has still
-- to send the one that it added, and those that were sent to peerOut, the newest first.
pub record Search : Type 0 where
  pub ps : Map AddrInfo
  pub adding : List AddrInfo
  pub sent : List AddrInfo

unfoldable pub has_addrs : AddrInfo → Bool
has_addrs p = elim p.addrs [ [] ↦ false | a ∷ addrs ↦ true ]

-- A peer that is not there, or whose addresses are not.
unfoldable pub is_news : Option AddrInfo → AddrInfo → Bool
unfolding has_addrs
is_news none p = true
is_news (some pi) p = not (has_addrs pi) && has_addrs p

module _ (count : ℕ) where
  unfoldable pub enough : Map AddrInfo → Bool
  enough ps = if count == 0 then false else leb count (length ps)

  -- `psTryAdd`: none where the peer is not added.
  unfoldable pub ps_try_add : AddrInfo → Map AddrInfo → Option (Map AddrInfo)
  unfolding fetch put is_news
  ps_try_add p ps =
      if is_news (fetch p.id ps) p
      then (if ltb (length ps) count || count == 0 then some (put p.id p ps) else none)
      else none

  unfoldable pub added : AddrInfo → Option (Map AddrInfo) → Search → Search
  added p none s = s
  added p (some ps) s = record s { ps = ps; adding = p ∷ s.adding }

  -- A call of `psTryAdd` by any goroutine, which goes on to the send if it is true.
  unfoldable pub try_add : AddrInfo → Search → Search
  unfolding ps_try_add added
  try_add p s = added p (ps_try_add p s.ps) s

  -- The steps of the goroutines: psTryAdd holds psLock and the select behind it does not, so that the
  -- steps of others come between. The channel takes the provider, or the context ends the select.
  pub data Step : Search → Search → Type 0 where
    tries : (s : Search) (p : AddrInfo) → Step s (try_add p s)
    sends :
        (s : Search) (xs : List AddrInfo) (p : AddrInfo) (ys : List AddrInfo)
        → s.adding ≡ xs ++ (p ∷ ys)
        → Step s (record s { adding = xs ++ ys; sent = p ∷ s.sent })
    stops :
        (s : Search) (xs : List AddrInfo) (p : AddrInfo) (ys : List AddrInfo)
        → s.adding ≡ xs ++ (p ∷ ys)
        → Step s (record s { adding = xs ++ ys })

  unfoldable pub send_added : AddrInfo → Bool → Option (Map AddrInfo) → Search → Search
  send_added p takes none s = s
  send_added p takes (some ps) s = record s { ps = ps; sent = if takes then p ∷ s.sent else s.sent }

  -- A turn of the loop over the local providers, before the other goroutines start, with whether the
  -- channel takes the provider before the context ends.
  unfoldable pub offer : AddrInfo → Bool → Search → Search
  unfolding ps_try_add send_added
  offer p takes s = send_added p takes (ps_try_add p s.ps) s

  -- Whether that turn ends the loop since the context has ended.
  unfoldable pub gives_up : AddrInfo → Bool → Search → Bool
  unfolding ps_try_add
  gives_up p takes s = elim (ps_try_add p s.ps) [ none ↦ false | some ps ↦ not takes ]

  -- The loop over the local providers: the search after it, and whether it came to its end.
  unfoldable pub offer_all : List (AddrInfo × Bool) → Search → Search × Bool
  unfolding offer gives_up enough
  offer_all [] s = (s, true)
  offer_all ((p, takes) ∷ provs) s =
      let s' = offer p takes s in
      let rest = offer_all provs s' in
      if gives_up p takes s then (s', false) else if enough s'.ps then (s', false) else rest
