-- ===== src/RtRefresh/Turns.antt =====
-- A whole turn of the refresh loop: the table stays valid, and the requests are answered.
use dep2p.Base.{ℕ, Bool, true, false, if◌then◌else◌, List, [], ◌∷◌, none, some}
use dep2p.Keyspace.{PeerId, Primitives}
use dep2p.KBucket.Table.{Diversity}
use dep2p.KBucket.Change.{Table}
use dep2p.KBucket.Invariant.{IsValid}
use dep2p.RtRefresh.{Network, TriggerRefreshReq, RtRefreshManager}

abbrev pub channels : List TriggerRefreshReq → List ℕ
channels [] = []
channels (r ∷ rs) = elim r.resp_ch [ some ch ↦ ch ∷ channels rs | none ↦ channels rs ]

abbrev pub any_forced : List TriggerRefreshReq → Bool
any_forced [] = false
any_forced (r ∷ rs) = if r.force_cpl_refresh then true else any_forced rs

module _ (P : Primitives) (D : Diversity) (N : Network (Table P D)) where
  abbrev pub KeepsValid : Type 0
  KeepsValid =
      (key : PeerId) (t : Table P D) (w : N.World) → IsValid P t → IsValid P (N.query key t w).1

module _ (P : Primitives) (D : Diversity) (N : Network (Table P D)) (keeps : KeepsValid P D N) where
  abbrev M : Type 0
  M = RtRefreshManager P D N

  abbrev Valid : M → Type 0
  Valid r = IsValid P r.table
