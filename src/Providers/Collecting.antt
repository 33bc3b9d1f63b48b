-- ===== src/Providers/Collecting.antt =====
-- What the garbage collection removes, and when the next one comes.
use dep2p.Base.{
  ℕ, ◌-◌, ◌≡◌, ◌⊎◌, refl, sym, ap, ◌∙◌, inl, inr, true, false, List, [], ◌∷◌, Option, none, some,
  ◌==◌, if_false, subst, ltb→lt, ◌<◌, ◌+◌, Bool-cases, Option-cases, arith,
}
use dep2p.Base.Predicates.{All, All-imp, elem}
use dep2p.Keyspace.{Bytes}
use dep2p.Providers.{provide_validity, read_time_value}
use dep2p.Providers.Collector.{
  QueryResult, failed, found, Store, Collector, on_newprov, remove_record, is_garbage, collect,
  on_result, on_timer, skip_key, put_done, take_result, start_collection,
}

module _ (S : Store) where
  -- A query lists records that are there.
  abbrev pub IsThere : S.State → QueryResult → Type 0
  IsThere d failed = Unit {0}
  IsThere d (found k v) = S.get k d ≡ some v

  abbrev pub Lists : Type 0
  Lists =
      (d : S.State) (results : List QueryResult)
      → S.query d ≡ some results
      → All (IsThere d) results

  -- The cases of the loop. A GetProviders removes records too, in loadProviderSet.
  pub data Step : Collector S.State → Collector S.State → Type 0 where
    adds : (c : Collector S.State) (k : ℕ) (v : Bytes) → Step c (on_newprov S k v c)
    loads : (c : Collector S.State) (k : ℕ) → Step c (remove_record S k c)
    collects : (c : Collector S.State) → Step c (on_result S c)
    fires : (c : Collector S.State) (now : ℕ) → c.timer_armed ≡ true → Step c (on_timer S now c)

  pub data Runs (c : Collector S.State) : Collector S.State → Type 0 where
    starts : Runs c c
    goes_on : {d e : Collector S.State} → Runs c d → Step d e → Runs c e

  abbrev pub at_start : S.State → Collector S.State
  at_start d = record {
    dstore = d;
    gc_query_res = none;
    gc_skip = [];
    gc_time = 0;
    timer_armed = true;
    purges = 0;
  }

  -- A result that is left is about a record that has not changed, was removed, or is to be skipped.
  abbrev Current : S.State → List ℕ → QueryResult → Type 0
  Current d skip failed = Unit {0}
  Current d skip (found k v) = (S.get k d ≡ some v) ⊎ (S.get k d ≡ none) ⊎ (elem k skip ≡ true)

  abbrev left : Option (List QueryResult) → List QueryResult
  left none = []
  left (some results) = results

  abbrev IsSound : Collector S.State → Type 0
  IsSound c = All (Current c.dstore c.gc_skip) (left c.gc_query_res)

  delete-Current :
      (k : ℕ) (d d' : S.State) (skip : List ℕ) (r : QueryResult)
      → S.delete k d ≡ some d'
      → Current d skip r
      → Current d' skip r
  delete-Current k d d' skip failed e h = tt
  delete-Current k d d' skip (found j w) e h = ground (arith, S.get-delete k j d d', h)

  put-Current :
      (k : ℕ) (v : Bytes) (d d' : S.State) (skip : List ℕ) (r : QueryResult)
      → S.put k v d ≡ some d'
      → Current d skip r
      → Current d' (k ∷ skip) r
  put-Current k v d d' skip failed e h = tt
  put-Current k v d d' skip (found j w) e h = ground (arith, S.get-put k j v d d', h)

  remove_record-IsSound :
      (c : Collector S.State) (k : ℕ) → IsSound c → IsSound (remove_record S k c)
  unfolding remove_record
  remove_record-IsSound c k h = elim (Option-cases (S.delete k c.dstore)) [
    | inl e ↦ rw (e, remove_record) h
    | inr (d', e) ↦
        rw (e, remove_record)
          (All-imp _ (Current d' c.gc_skip) (λ r. delete-Current k c.dstore d' c.gc_skip r e)
            (left c.gc_query_res) h)
  ]

  skip_key-Current :
      (k : ℕ) (v : Bytes) (d d' : S.State) (skip : List ℕ) (q : Option (List QueryResult))
      → S.put k v d ≡ some d'
      → All (Current d skip) (left q)
      → All (Current d' (skip_key S q k skip)) (left q)
  unfolding skip_key
  skip_key-Current k v d d' skip none e h = tt
  skip_key-Current k v d d' skip (some rs) e h =
      All-imp _ (Current d' (k ∷ skip)) (λ r. put-Current k v d d' skip r e) rs h

  put_done-IsSound :
      (c : Collector S.State) (k : ℕ) (v : Bytes) (o : Option S.State)
      → S.put k v c.dstore ≡ o
      → IsSound c
      → IsSound (put_done S o k c)
  unfolding put_done
  put_done-IsSound c k v none e h = h
  put_done-IsSound c k v (some d') e h =
      skip_key-Current k v c.dstore d' c.gc_skip c.gc_query_res e h

  collect-IsSound : (r : QueryResult) (c : Collector S.State) → IsSound c → IsSound (collect S r c)
  unfolding collect
  collect-IsSound failed c h = h
  collect-IsSound (found k v) c h = elim (Bool-cases (elem k c.gc_skip)) [
    | inl e ↦ rw e h
    | inr e ↦ elim (Bool-cases (is_garbage S c.gc_time (read_time_value v))) [
      | inl g ↦ rw (e, g) (remove_record-IsSound c k h)
      | inr g ↦ rw (e, g) h
    ]
  ]

  take_result-IsSound :
      (c : Collector S.State) (q : Option (List QueryResult))
      → c.gc_query_res ≡ q
      → IsSound c
      → IsSound (take_result S q c)
  unfolding take_result
  take_result-IsSound c none e h = h
  take_result-IsSound c (some []) e h = tt
  take_result-IsSound c (some (r ∷ rs)) e h =
      let all : All (Current c.dstore c.gc_skip) (r ∷ rs) =
        subst (λ q. All (Current c.dstore c.gc_skip) (left q)) e h in
      collect-IsSound r (record c { gc_query_res = some rs }) all.1

  start_collection-IsSound :
      (c : Collector S.State) (o : Option (List QueryResult))
      → ((results : List QueryResult) → o ≡ some results → All (IsThere c.dstore) results)
      → IsSound c
      → IsSound (start_collection S o c)
  unfolding start_collection
  start_collection-IsSound c none lists h = h
  start_collection-IsSound c (some results) lists h =
      All-imp _ (Current c.dstore []) now_current results (lists results refl)
    where
      now_current : (r : QueryResult) → IsThere c.dstore r → Current c.dstore [] r
      now_current failed h = tt
      now_current (found k v) h = inl h

  Step-IsSound : {c d : Collector S.State} → Lists → Step c d → IsSound c → IsSound d
  unfolding on_newprov on_result on_timer
  Step-IsSound lists (adds c k v) h = put_done-IsSound c k v (S.put k v c.dstore) refl h
  Step-IsSound lists (loads c k) h = remove_record-IsSound c k h
  Step-IsSound lists (collects c) h = take_result-IsSound c c.gc_query_res refl h
  Step-IsSound lists (fires c now armed) h =
      start_collection-IsSound
        (record c { gc_time = now; timer_armed = false; purges = c.purges + 1 }) (S.query c.dstore)
        (lists c.dstore) h

  Runs-IsSound : {c d : Collector S.State} → Lists → IsSound c → Runs c d → IsSound d
  Runs-IsSound lists h starts = h
  Runs-IsSound lists h (goes_on r s) = Step-IsSound lists s (Runs-IsSound lists h r)

  -- A record that was not read, or older than 48 hours at the time.
  abbrev pub Garbage : ℕ → Bytes → Type 0
  Garbage now v =
      (read_time_value v ≡ none)
      ⊎ ((t : ℕ) × (read_time_value v ≡ some t) × (provide_validity < now - t))

  is_garbage-Garbage :
      (now : ℕ) (v : Bytes) → is_garbage S now (read_time_value v) ≡ true → Garbage now v
  unfolding is_garbage
  is_garbage-Garbage now v h = elim (Option-cases (read_time_value v)) [
    | inl e ↦ inl e
    | inr (t, e) ↦ inr (t, e, ltb→lt _ _ (rw (e, is_garbage) at h))
  ]

  -- What a result does to the record of a key.
  collect-get :
      (c : Collector S.State) (k j : ℕ) (v w : Bytes)
      → Current c.dstore c.gc_skip (found k v)
      → S.get j c.dstore ≡ some w
      → (S.get j (collect S (found k v) c).dstore ≡ some w) ⊎ Garbage c.gc_time w
  unfolding collect remove_record
  collect-get c k j v w cur h = elim (Bool-cases (elem k c.gc_skip)) [
    | inl skipped ↦ inl (rw skipped h)
    | inr e ↦ elim (Bool-cases (is_garbage S c.gc_time (read_time_value v))) [
      | inr fresh ↦ inl (rw (e, fresh) h)
      | inl g ↦ elim (Option-cases (S.delete k c.dstore)) [
        | inl err ↦ inl (rw (e, g, remove_record, err) h)
        | inr (d', gone) ↦ elim (Bool-cases (k == j)) [
          | inr other ↦ inl (
              rw (e, g, remove_record, gone)
                (S.get-delete k j c.dstore d' gone ∙ if_false _ _ other ∙ h))
          | inl same ↦
              let here : k ≡ j = ground (arith, same) in
              let there : S.get k c.dstore ≡ some w = ap (λ i. S.get i c.dstore) here ∙ h in
              let equal : v ≡ w = elim cur [
                | inl now ↦ cc
                | inr (inl gone) ↦ absurd (ground (arith, gone, there))
                | inr (inr skipped) ↦ absurd (ground (arith, skipped, e))
              ] in
              inr (is_garbage-Garbage c.gc_time w (rw equal at g))
        ]
      ]
    ]
  ]

  take_result-get :
      (c : Collector S.State) (q : Option (List QueryResult)) (j : ℕ) (w : Bytes)
      → All (Current c.dstore c.gc_skip) (left q)
      → S.get j c.dstore ≡ some w
      → (S.get j (take_result S q c).dstore ≡ some w) ⊎ Garbage c.gc_time w
  unfolding take_result collect
  take_result-get c none j w h there = inl there
  take_result-get c (some []) j w h there = inl there
  take_result-get c (some (failed ∷ rs)) j w h there = inl there
  take_result-get c (some (found k v ∷ rs)) j w h there =
      collect-get (record c { gc_query_res = some rs }) k j v w h.0 there

  -- Where a query lists records that are there: after any order of the cases of run, the case of a
  -- result of the collection keeps each record as it is, but one that is not read, or that was older
  -- than 48 hours when the collection started. So no record that was put meanwhile is lost.
  pub on_result-keeps :
      {d : S.State} {c : Collector S.State}
      → Lists
      → Runs (at_start d) c
      → (j : ℕ) (w : Bytes) → S.get j c.dstore ≡ some w
      → (S.get j (on_result S c).dstore ≡ some w) ⊎ Garbage c.gc_time w
  unfolding on_result
  on_result-keeps {c = c} lists r j w there =
      take_result-get c c.gc_query_res j w (Runs-IsSound lists tt r) there

  -- A collection that is over, with a timer that will not fire.
  abbrev pub Stopped : Collector S.State → Type 0
  Stopped c = (c.timer_armed ≡ false) × (c.gc_query_res ≡ none)

  put_done-same :
      (c : Collector S.State) (o : Option S.State) (k : ℕ)
      → ((put_done S o k c).timer_armed ≡ c.timer_armed)
        × ((put_done S o k c).gc_query_res ≡ c.gc_query_res)
        × ((put_done S o k c).purges ≡ c.purges)
  unfolding put_done
  put_done-same c none k = (refl, refl, refl)
  put_done-same c (some d) k = (refl, refl, refl)

  remove_record-same :
      (c : Collector S.State) (k : ℕ)
      → ((remove_record S k c).timer_armed ≡ c.timer_armed)
        × ((remove_record S k c).gc_query_res ≡ c.gc_query_res)
        × ((remove_record S k c).purges ≡ c.purges)
  unfolding remove_record
  remove_record-same c k = elim (Option-cases (S.delete k c.dstore)) [
    | inl e ↦ rw (e, remove_record) (refl, refl, refl)
    | inr (d, e) ↦ rw (e, remove_record) (refl, refl, refl)
  ]

  Step-Stopped :
      {c d : Collector S.State} → Step c d → Stopped c → Stopped d × (d.purges ≡ c.purges)
  unfolding on_newprov on_result
  Step-Stopped (adds c k v) h =
      let (t, q, p) = put_done-same c (S.put k v c.dstore) k in ((t ∙ h.0, q ∙ h.1), p)
  Step-Stopped (loads c k) h = let (t, q, p) = remove_record-same c k in ((t ∙ h.0, q ∙ h.1), p)
  Step-Stopped (collects c) h =
      subst (λ q. Stopped (take_result S q c) × ((take_result S q c).purges ≡ c.purges)) (sym h.1)
        (unfold take_result in (h, refl))
  Step-Stopped (fires c now armed) h = absurd (ground (arith, armed, h.0))

  -- When the query of a collection has an error, no other collection ever starts: the timer is not
  -- set again, and the cache is purged no more.
  pub failed_query-Stopped :
      (c : Collector S.State) (now : ℕ)
      → c.gc_query_res ≡ none
      → S.query c.dstore ≡ none
      → {d : Collector S.State} → Runs (on_timer S now c) d
      → (d.timer_armed ≡ false) × (d.gc_query_res ≡ none) × (d.purges ≡ c.purges + 1)
  unfolding on_timer start_collection
  failed_query-Stopped c now idle err starts = rw (err, on_timer) (refl, idle, refl)
  failed_query-Stopped c now idle err (goes_on r s) =
      let (t, q, p) = failed_query-Stopped c now idle err r in
      let ((t2, q2), p2) = Step-Stopped s (t, q) in (t2, q2, p2 ∙ p)
