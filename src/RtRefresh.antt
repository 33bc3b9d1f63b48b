-- ===== src/RtRefresh.antt =====
-- rtrefresh/rt_refresh_manager.go: one run of the refresh loop. The code sees the network through
-- the functions that `NewRtRefreshManager` takes, which are fields of `Network`. Contexts, spans
-- and logging are not modelled, but for the expiry of a query and the end of the manager's context.
pub mod Cpls
pub mod Liveness
pub mod Turns
pub mod Tests
use mathlib.Core.Option
use dep2p.Base.{
  ℕ, zero, suc, ◌+◌, ◌-◌, ◌*◌, Bool, true, false, ◌&&◌, ◌||◌, List, [], ◌∷◌, ◌++◌, map, Option,
  none, some, length, get_or, ltb, leb, ◌==◌, if◌then◌else◌,
}
use dep2p.Base.Predicates.{keep}
use dep2p.Keyspace.{PeerId, Primitives}
use dep2p.KBucket.Bucket.{PeerInfo}
use dep2p.KBucket.Table.{Diversity, get_peer_infos, n_peers_for_cpl}
use dep2p.KBucket.Change.{Table, remove_peer}
use dep2p.KBucket.Refresh.{get_tracked_cpls_for_refresh}

pub data QueryErr : Type 0 where
  -- `context.DeadlineExceeded`, and whether the context of the query has it.
  deadline_exceeded : Bool → QueryErr
  query_err : ℕ → QueryErr

pub data RefreshErr : Type 0 where
  self_failed : QueryErr → RefreshErr
  key_failed : ℕ → ℕ → RefreshErr
  cpl_failed : ℕ → QueryErr → RefreshErr
  ctx_err : RefreshErr

-- A key, or the error of the generator.
pub data KeyResult : Type 0 where
  generated : PeerId → KeyResult
  no_key : ℕ → KeyResult

pub record Network (T : Type 0) : Type 1 where
  pub World : Type 0
  pub now : World → ℕ
  pub gen_key : ℕ → T → World → KeyResult × World
  -- A query changes the routing table too.
  pub query : PeerId → T → World → Option QueryErr × T × World
  pub connects : PeerId → World → Bool
  pub answers_ping : PeerId → World → Bool
  -- Whether the context has ended, and whether a select takes its end although it could also send.
  pub done : World → Bool
  pub takes_end : World → Bool

-- `signals` counts the values written to `refreshDoneCh`; `refreshed` lists the prefix lengths whose
-- refresh was called for, which the code does not keep.
pub record Manager (T W : Type 0) : Type 0 where
  pub table : T
  pub world : W
  pub self : PeerId
  pub refresh_interval : ℕ
  pub grace_period : ℕ
  pub signals : ℕ
  pub refreshed : List ℕ

-- A request's response channel, where it has one.
pub record TriggerRefreshReq : Type 0 where
  pub resp_ch : Option ℕ
  pub force_cpl_refresh : Bool

unfoldable pub min : ℕ → ℕ → ℕ
min a b = if leb a b then a else b

-- The requests that wait at one time.
unfoldable pub batch : List TriggerRefreshReq → List ℕ × Bool
batch [] = ([], false)
batch (r ∷ rs) =
    let (waiting, forced) = batch rs in
    (elim r.resp_ch [ some ch ↦ ch ∷ waiting | none ↦ waiting ], r.force_cpl_refresh || forced)

-- The end of a query by its own timeout is no error.
unfoldable pub not_expired : Option QueryErr → Option QueryErr
not_expired none = none
not_expired (some (deadline_exceeded expired)) =
    if expired then none else some (deadline_exceeded expired)
not_expired (some (query_err n)) = some (query_err n)

module _ (P : Primitives) (D : Diversity) (N : Network (Table P D)) where
  open N use {World, now, gen_key, query, connects, answers_ping, done, takes_end}

  abbrev pub RtRefreshManager : Type 0
  RtRefreshManager = Manager (Table P D) World

  unfoldable pub run_refresh_dht_query :
      PeerId → RtRefreshManager → Option QueryErr × RtRefreshManager
  unfolding not_expired
  run_refresh_dht_query key r =
      let (err, table, world) = query key r.table r.world in
      (not_expired err, record r { table = table; world = world })

  unfoldable pub query_for_self : RtRefreshManager → Option RefreshErr × RtRefreshManager
  unfolding run_refresh_dht_query
  query_for_self r =
      let (err, r') = run_refresh_dht_query r.self r in (Option.map self_failed err, r')

  -- The end of `refreshCpl`, with the key.
  unfoldable pub query_key : ℕ → KeyResult → RtRefreshManager → Option RefreshErr × RtRefreshManager
  query_key cpl (no_key n) r = (some (key_failed cpl n), r)
  query_key cpl (generated key) r =
      let (err, r') = run_refresh_dht_query key r in (Option.map (cpl_failed cpl) err, r')

  unfoldable pub refresh_cpl : ℕ → RtRefreshManager → Option RefreshErr × RtRefreshManager
  unfolding query_key
  refresh_cpl cpl r =
      let (key, world) = gen_key cpl r.table r.world in
      query_key cpl key (record r { world = world })

  unfoldable pub refresh_cpl_if_eligible :
      (cpl last_refreshed_at : ℕ) → RtRefreshManager → Option RefreshErr × RtRefreshManager
  unfolding refresh_cpl
  refresh_cpl_if_eligible cpl last_refreshed_at r =
      if leb (now r.world - last_refreshed_at) r.refresh_interval
      then (none, r)
      else refresh_cpl cpl r

  -- `rfnc` of `doRefresh`.
  unfoldable pub rfnc :
      (force_refresh : Bool) (refresh_cpls : List ℕ) (cpl : ℕ)
      → RtRefreshManager
      → Option RefreshErr × RtRefreshManager
  unfolding refresh_cpl refresh_cpl_if_eligible
  rfnc force_refresh refresh_cpls cpl r =
      let r' : RtRefreshManager = record r { refreshed = r.refreshed ++ (cpl ∷ []) } in
      if force_refresh
      then refresh_cpl cpl r'
      else refresh_cpl_if_eligible cpl (get_or refresh_cpls cpl 0) r'

  unfoldable pub append_err : List RefreshErr → Option RefreshErr → List RefreshErr
  append_err merr none = merr
  append_err merr (some e) = merr ++ (e ∷ [])

  -- The loop over the prefix lengths after a gap: `count` of them from `i` on.
  unfoldable pub refresh_range :
      (force_refresh : Bool) (refresh_cpls : List ℕ) (i count : ℕ)
      → List RefreshErr
      → RtRefreshManager
      → List RefreshErr × RtRefreshManager
  unfolding rfnc append_err
  refresh_range force_refresh refresh_cpls i zero merr r = (merr, r)
  refresh_range force_refresh refresh_cpls i (suc count) merr r =
      let (err, r') = rfnc force_refresh refresh_cpls i r in
      refresh_range force_refresh refresh_cpls (i + 1) count (append_err merr err) r'

  -- The loop over the tracked prefix lengths from `c` on, the rest of them given by its count, and
  -- the gap that ended it.
  unfoldable pub refresh_from :
      (force_refresh : Bool) (refresh_cpls : List ℕ) (c rest : ℕ)
      → List RefreshErr
      → RtRefreshManager
      → Option ℕ × List RefreshErr × RtRefreshManager
  unfolding rfnc refresh_range min
  refresh_from force_refresh refresh_cpls c zero merr r = (none, merr, r)
  refresh_from force_refresh refresh_cpls c (suc rest) merr r =
      let (err, r') = rfnc force_refresh refresh_cpls c r in
      elim err [
        | some e ↦ refresh_from force_refresh refresh_cpls (c + 1) rest (merr ++ (e ∷ [])) r'
        | none ↦
            let next = refresh_from force_refresh refresh_cpls (c + 1) rest merr r' in
            if n_peers_for_cpl P r'.table c == 0
            then (let last_cpl = min (2 * (c + 1)) (length refresh_cpls - 1) in
                let (merr', r'') =
                  refresh_range force_refresh refresh_cpls (c + 1) (last_cpl + 1 - (c + 1)) merr
                    r' in
                (some c, merr', r''))
            else next
      ]

  unfoldable pub do_refresh : Bool → RtRefreshManager → List RefreshErr × RtRefreshManager
  unfolding query_for_self append_err refresh_from
  do_refresh force_refresh r =
      let (err, r0) = query_for_self r in
      let refresh_cpls = get_tracked_cpls_for_refresh P r0.table in
      let (gap, merr, r1) =
        refresh_from force_refresh refresh_cpls 0 (length refresh_cpls) (append_err [] err) r0 in
      elim gap [
        | some c ↦ (merr, r1)
        | none ↦
            if done r1.world && takes_end r1.world
            then (ctx_err ∷ [], r1)
            else (merr, record r1 { signals = r1.signals + 1 })
      ]

  -- One of the goroutines of `pingAndEvictPeers`.
  unfoldable pub check_peer : PeerInfo → RtRefreshManager → RtRefreshManager
  check_peer ps r =
      let evicted : RtRefreshManager = record r { table = (remove_peer P D ps.id r.table).1 } in
      if connects ps.id r.world then if answers_ping ps.id r.world then r else evicted else evicted

  unfoldable pub check_all : List PeerInfo → RtRefreshManager → RtRefreshManager
  unfolding check_peer
  check_all [] r = r
  check_all (ps ∷ pss) r = check_all pss (check_peer ps r)

  unfoldable pub is_due : RtRefreshManager → PeerInfo → Bool
  is_due r ps = ltb r.grace_period (now r.world - ps.last_successful_outbound_query_at)

  -- The goroutines end in any order: the order is an argument.
  unfoldable pub ping_and_evict_peers :
      (order : List PeerInfo → List PeerInfo) → RtRefreshManager → RtRefreshManager
  unfolding check_all is_due
  ping_and_evict_peers order r = check_all (order (keep (is_due r) (get_peer_infos r.table))) r

  -- One turn of `loop`: the requests that came (none for the ticker), and what the channels that
  -- wait are given.
  unfoldable pub turn :
      (order : List PeerInfo → List PeerInfo)
      → List TriggerRefreshReq
      → RtRefreshManager
      → List (ℕ × List RefreshErr) × RtRefreshManager
  unfolding batch ping_and_evict_peers do_refresh
  turn order requests r =
      let (waiting, forced) = batch requests in
      let (err, r') = do_refresh forced (ping_and_evict_peers order r) in
      (map (λ w. (w, err)) waiting, r')
