-- ===== src/RtRefresh/Cpls.antt =====
-- Which prefix lengths a refresh covers.
use dep2p.Base.{
  ℕ, zero, suc, ◌+◌, ◌-◌, ◌*◌, ◌≤◌, ◌<◌, ◌≡◌, refl, sym, ap, ◌∙◌, Bool, ◌&&◌, inl, inr, List, [],
  ◌∷◌, ◌++◌, Option, none, some, length, get_or, leb, ◌==◌, if◌then◌else◌, if_true, if_false,
  ==_iff, Bool-cases, Option-cases, arith,
}
use mathlib.Core.List.{append_assoc, append-nil}
use dep2p.Keyspace.{Primitives}
use dep2p.KBucket.Table.{Diversity, n_peers_for_cpl}
use dep2p.KBucket.Change.{Table}
use dep2p.KBucket.Refresh.{get_tracked_cpls_for_refresh}
use dep2p.RtRefresh.{
  Network, RefreshErr, KeyResult, generated, no_key, min, RtRefreshManager, run_refresh_dht_query,
  query_for_self, query_key, refresh_cpl, refresh_cpl_if_eligible, rfnc, append_err, refresh_range,
  refresh_from, do_refresh,
}

-- The numbers from `i` on, `n` of them.
unfoldable pub count_up : ℕ → ℕ → List ℕ
count_up i zero = []
count_up i (suc n) = i ∷ count_up (i + 1) n

module _ (P : Primitives) (D : Diversity) (N : Network (Table P D)) where
  abbrev M : Type 0
  M = RtRefreshManager P D N

  -- A query does not change the lists of the manager.
  query_keeps :
      (k : ℕ) (r : M)
      → ((run_refresh_dht_query P D N k r).1.refreshed ≡ r.refreshed)
        × ((run_refresh_dht_query P D N k r).1.signals ≡ r.signals)
  unfolding run_refresh_dht_query
  query_keeps k r = (refl, refl)

  key_keeps :
      (c : ℕ) (k : KeyResult) (r : M)
      → ((query_key P D N c k r).1.refreshed ≡ r.refreshed)
        × ((query_key P D N c k r).1.signals ≡ r.signals)
  unfolding query_key
  key_keeps c (no_key n) r = (refl, refl)
  key_keeps c (generated k) r = query_keeps k r

  refresh_keeps :
      (c : ℕ) (r : M)
      → ((refresh_cpl P D N c r).1.refreshed ≡ r.refreshed)
        × ((refresh_cpl P D N c r).1.signals ≡ r.signals)
  unfolding refresh_cpl
  refresh_keeps c r = key_keeps c _ _

  -- A call of `rfnc` is listed, and signals nothing.
  rfnc_logs :
      (force : Bool) (cpls : List ℕ) (c : ℕ) (r : M)
      → ((rfnc P D N force cpls c r).1.refreshed ≡ r.refreshed ++ (c ∷ []))
        × ((rfnc P D N force cpls c r).1.signals ≡ r.signals)
  unfolding rfnc refresh_cpl_if_eligible
  rfnc_logs force cpls c r =
      let r' : M = record r { refreshed = r.refreshed ++ (c ∷ []) } in
      let kept = refresh_keeps c r' in
      elim (Bool-cases force) [
        | inl e ↦ rw e kept
        | inr e ↦ elim (Bool-cases (leb (N.now r.world - get_or cpls c 0) r.refresh_interval)) [
          | inl f ↦ rw (e, f) (refl, refl)
          | inr f ↦ rw (e, f) kept
        ]
      ]

  -- The calls of rfnc for `n` prefix lengths from `c` on, and nothing else.
  unfoldable pub calls : (force : Bool) (cpls : List ℕ) (c n : ℕ) → M → M
  calls force cpls c zero r = r
  calls force cpls c (suc n) r = calls force cpls (c + 1) n (rfnc P D N force cpls c r).1

  calls_logs :
      (force : Bool) (cpls : List ℕ) (c n : ℕ) (r : M)
      → ((calls force cpls c n r).refreshed ≡ r.refreshed ++ count_up c n)
        × ((calls force cpls c n r).signals ≡ r.signals)
  unfolding calls count_up
  calls_logs force cpls c zero r = (sym (append-nil r.refreshed), refl)
  calls_logs force cpls c (suc n) r =
      let r' = (rfnc P D N force cpls c r).1 in
      let (a, b) = calls_logs force cpls (c + 1) n r' in
      let (d, e) = rfnc_logs force cpls c r in
      (
        a
            ∙ ap (λ l. l ++ count_up (c + 1) n) d
            ∙ append_assoc r.refreshed (c ∷ []) (count_up (c + 1) n),
        b ∙ e,
      )

  range_calls :
      (force : Bool) (cpls : List ℕ) (i n : ℕ) (merr : List RefreshErr) (r : M)
      → (refresh_range P D N force cpls i n merr r).1 ≡ calls force cpls i n r
  unfolding refresh_range calls
  range_calls force cpls i zero merr r = refl
  range_calls force cpls i (suc n) merr r =
      let (err, r') = rfnc P D N force cpls i r in
      range_calls force cpls (i + 1) n (append_err P D N merr err) r'

  -- A call that has no error and leaves no peer of its prefix length in the table.
  abbrev pub Gap : (force : Bool) (cpls : List ℕ) (c : ℕ) → M → Type 0
  Gap force cpls c r =
      ((rfnc P D N force cpls c r).0 ≡ none)
      × (n_peers_for_cpl P (rfnc P D N force cpls c r).1.table c ≡ 0)

  -- None of `n` calls from `c` on is one.
  abbrev pub NoGap : (force : Bool) (cpls : List ℕ) (c n : ℕ) → M → Type 0
  NoGap force cpls c zero r = Unit
  NoGap force cpls c (suc n) r =
      (Gap force cpls c r → ⊥) × NoGap force cpls (c + 1) n (rfnc P D N force cpls c r).1

  abbrev pub last : ℕ → ℕ → ℕ
  last g total = if leb (2 * (g + 1)) (total - 1) then 2 * (g + 1) else total - 1

  min-last : (g total : ℕ) → min (2 * (g + 1)) (total - 1) ≡ last g total
  unfolding min
  min-last g total = refl

  last-le : (g total : ℕ) → g < total → g ≤ last g total
  last-le g total lt = ground arith

  -- What a loop over `rest` prefix lengths from `c` comes to, with the gap at which it ended.
  abbrev pub Covered : (force : Bool) (cpls : List ℕ) (c rest : ℕ) → Option ℕ → M → M → Type 0
  Covered force cpls c rest none r r' = NoGap force cpls c rest r × (r' ≡ calls force cpls c rest r)
  Covered force cpls c rest (some g) r r' =
      (k : ℕ) × (g ≡ c + k)
      × (k < rest)
      × NoGap force cpls c k r
      × Gap force cpls g (calls force cpls c k r)
      × (r' ≡ calls force cpls c (last g (length cpls) + 1 - c) r)

  Covered-later :
      (force : Bool) (cpls : List ℕ) (c rest : ℕ) (o : Option ℕ) (r r' : M)
      → c + suc rest ≡ length cpls
      → (Gap force cpls c r → ⊥)
      → Covered force cpls (c + 1) rest o (rfnc P D N force cpls c r).1 r'
      → Covered force cpls c (suc rest) o r r'
  unfolding calls
  Covered-later force cpls c rest none r r' e n (h, k) = ((n, h), k)
  Covered-later force cpls c rest (some g) r r' e n (k, at, lt, h, gap, end) =
      let bound = last-le g (length cpls) (omega arith) in
      let more : last g (length cpls) + 1 - c ≡ suc (last g (length cpls) + 1 - (c + 1)) =
        omega arith in
      (suc k, omega arith, omega arith, (n, h), gap, end ∙ rw more refl)

  from_covers :
      (force : Bool) (cpls : List ℕ) (c rest : ℕ) (merr : List RefreshErr) (r : M)
      → c + rest ≡ length cpls
      → let (g, _, r') = refresh_from P D N force cpls c rest merr r in
        Covered force cpls c rest g r r'
  unfolding refresh_from calls
  from_covers force cpls c zero merr r e = (tt, refl)
  from_covers force cpls c (suc rest) merr r e =
      let r1 = (rfnc P D N force cpls c r).1 in
      elim (Option-cases (rfnc P D N force cpls c r).0) [
        | inr (err, f) ↦
            let h = from_covers force cpls (c + 1) rest (merr ++ (err ∷ [])) r1 (omega arith) in
            rw (f, refresh_from) (Covered-later force cpls c rest _ r _ e (λ g. absurd cc) h)
        | inl f ↦ elim (Bool-cases (n_peers_for_cpl P r1.table c == 0)) [
          | inr b ↦
              let h = from_covers force cpls (c + 1) rest merr r1 (omega arith) in
              rw (f, refresh_from, b)
                (Covered-later force cpls c rest _ r _ e (λ g. absurd (ground (arith, g.1))) h)
          | inl b ↦
              let total = length cpls in
              let bound = last-le c total (omega arith) in
              let more : last c total + 1 - c ≡ suc (last c total + 1 - (c + 1)) = omega arith in
              rw (f, refresh_from, b)
                (
                  0,
                  omega arith,
                  omega arith,
                  tt,
                  (f, (==_iff _ _).0 b),
                  range_calls force cpls (c + 1) (last c total + 1 - (c + 1)) merr r1
                      ∙ rw more refl,
                )
        ]
      ]

  -- What a refresh comes to: without a gap, the calls for all tracked prefix lengths, and a signal
  -- unless the end of the context is taken; with the first gap at g, those up to g and up to twice
  -- the one behind it.
  abbrev pub Refreshed : (force : Bool) (cpls : List ℕ) → Option ℕ → M → M → Type 0
  Refreshed force cpls none r r' =
      let ended = N.done r'.world && N.takes_end r'.world in
      NoGap force cpls 0 (length cpls) r
      × (r'.table ≡ (calls force cpls 0 (length cpls) r).table)
      × (r'.refreshed ≡ r.refreshed ++ count_up 0 (length cpls))
      × (r'.signals ≡ (if ended then r.signals else r.signals + 1))
  Refreshed force cpls (some g) r r' =
      (g < length cpls)
      × NoGap force cpls 0 g r
      × Gap force cpls g (calls force cpls 0 g r)
      × (r' ≡ calls force cpls 0 (last g (length cpls) + 1) r)
      × (r'.refreshed ≡ r.refreshed ++ count_up 0 (last g (length cpls) + 1))
      × (r'.signals ≡ r.signals)

  -- After the query for itself, a refresh calls for the prefix lengths in order from 0 on. If no
  -- call, one that has no error and leaves no peer of its prefix length in the table, is a gap: for
  -- every tracked one. Else, with g that of the first gap: for those up to 2 (g + 1) and for no
  -- untracked one. It writes to refreshDoneCh once, and only if there was no gap and the end of the
  -- context is not taken instead, which it can be only when the context has ended.
  pub do_refresh-covers :
      (force : Bool) (r : M)
      → let r0 = (query_for_self P D N r).1 in
        let tracked = get_tracked_cpls_for_refresh P r0.table in
        (g : Option ℕ) × Refreshed force tracked g r0 (do_refresh P D N force r).1
  unfolding do_refresh
  do_refresh-covers force r =
      let r0 = (query_for_self P D N r).1 in
      let cpls = get_tracked_cpls_for_refresh P r0.table in
      let total = length cpls in
      let merr = append_err P D N [] (query_for_self P D N r).0 in
      let h = from_covers force cpls 0 total merr r0 (omega arith) in
      let (found, _, r1) = refresh_from P D N force cpls 0 total merr r0 in
      elim (Option-cases found) [
        | inr (g, f) ↦
            let (k, at, lt, clear, gap, end) : Covered force cpls 0 total (some g) r0 r1 =
              rw f at h in
            let here : g ≡ k = omega arith in
            let whole : last g total + 1 - 0 ≡ last g total + 1 = omega arith in
            let ends = rw whole at end in
            let (logged, quiet) = calls_logs force cpls 0 (last g total + 1) r0 in
            rw (f, do_refresh)
              (
                some g,
                (
                  rw here lt,
                  rw here clear,
                  rw here (rw here at gap),
                  ends,
                  ap (λ (s : M). s.refreshed) ends ∙ logged,
                  ap (λ (s : M). s.signals) ends ∙ quiet,
                ),
              )
        | inl f ↦
            let (clear, end) : Covered force cpls 0 total none r0 r1 = rw f at h in
            let (logged, quiet) = calls_logs force cpls 0 total r0 in
            let lists = ap (λ (s : M). s.refreshed) end ∙ logged in
            let signals = ap (λ (s : M). s.signals) end ∙ quiet in
            let table = ap (λ (s : M). s.table) end in
            elim (Bool-cases (N.done r1.world && N.takes_end r1.world)) [
              | inl d ↦
                  rw (f, do_refresh, d) (none, (clear, table, lists, signals ∙ sym (if_true _ _ d)))
              | inr d ↦
                  rw (f, do_refresh, d)
                    (none, (clear, table, lists, ap (λ n. n + 1) signals ∙ sym (if_false _ _ d)))
            ]
      ]
