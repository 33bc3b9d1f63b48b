-- ===== src/RtRefresh/Tests.antt =====
-- Runs of the refresh manager, and each theorem at a concrete input.
use dep2p.Base.{ℕ, ◌+◌, ◌≡◌, ◌↔◌, ◌⊎◌, true, false, [], ◌∷◌, List, none, some, Option, ◌==◌, not}
use dep2p.Keyspace.{PeerId}
use dep2p.Keyspace.Tests.{toy}
use dep2p.KBucket.Change.{Table}
use dep2p.KBucket.Table.{get_peer_infos}
use dep2p.KBucket.Refresh.{get_tracked_cpls_for_refresh}
use dep2p.KBucket.Invariant.{IsValid}
use dep2p.KBucket.Tests.{budget, full_table, full_table-IsValid}
use dep2p.RtRefresh.{
  Network, TriggerRefreshReq, generated, RtRefreshManager, query_for_self, do_refresh,
  ping_and_evict_peers,
}
use dep2p.RtRefresh.Cpls
use dep2p.RtRefresh.Cpls.{Refreshed}
use dep2p.RtRefresh.Liveness
use dep2p.RtRefresh.Liveness.{Gone, Overdue}
use dep2p.RtRefresh.Turns

-- A network in which the queries find nothing new, and peer 0x80 does not answer.
abbrev quiet : Network (Table toy budget)
quiet = record {
  World = ℕ;
  now = λ w. w;
  gen_key = λ cpl t w. (generated cpl, w);
  query = λ k t w. (none, t, w + 1);
  connects = λ p w. true;
  answers_ping = λ p w. not (p == 0x80);
  done = λ w. false;
  takes_end = λ w. true;
}

abbrev manager : RtRefreshManager toy budget quiet
manager = record {
  table = full_table;
  world = 100;
  self = 0;
  refresh_interval = 10;
  grace_period = 5;
  signals = 0;
  refreshed = [];
}

abbrev requests : List TriggerRefreshReq
requests =
    record { resp_ch = some 1; force_cpl_refresh = false }
    ∷ record { resp_ch = none; force_cpl_refresh = true }
    ∷ record { resp_ch = some 2; force_cpl_refresh = false }
    ∷ []

do_refresh-covers_example :
    (g : Option ℕ) × Refreshed toy budget quiet true
      (get_tracked_cpls_for_refresh toy (query_for_self toy budget quiet manager).1.table)
      g
      (query_for_self toy budget quiet manager).1
      (do_refresh toy budget quiet true manager).1
do_refresh-covers_example = Cpls.do_refresh-covers toy budget quiet true manager

ping_and_evict-exact_example :
    let r' = ping_and_evict_peers toy budget quiet (λ ps. ps) manager in
    IsValid toy r'.table
    × ((p : PeerId)
        → Gone toy budget quiet p r' ↔ (
            Gone toy budget quiet p manager
            ⊎ (Overdue toy budget quiet manager p (get_peer_infos full_table)
                × ((quiet.connects p 100 ≡ false) ⊎ (quiet.answers_ping p 100 ≡ false)))))
ping_and_evict-exact_example =
    Liveness.ping_and_evict-exact toy budget quiet (λ ps. ps) manager (λ p qs. (λ h. h, λ h. h))
      full_table-IsValid
