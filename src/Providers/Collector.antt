-- ===== src/Providers/Collector.antt =====
-- providers/providers_manager.go: the garbage collection in run, beside the calls that it serves.
use dep2p.Base.{
  ℕ, ◌+◌, ◌-◌, ◌≡◌, Bool, true, false, List, [], ◌∷◌, Option, none, some, ltb, ◌==◌, if◌then◌else◌,
}
use dep2p.Base.Predicates.{elem}
use dep2p.Keyspace.{Bytes}
use dep2p.Providers.{provide_validity, read_time_value}

-- A result of the query: an error, or a record.
pub data QueryResult : Type 0 where
  failed : QueryResult
  found : ℕ → Bytes → QueryResult

-- What the code takes from go-datastore, with numbers for the texts of the records' keys: none is an
-- error, which changes nothing, and a query lists records that are there.
pub record Store : Type 1 where
  pub State : Type 0
  pub get : ℕ → State → Option Bytes
  pub put : ℕ → Bytes → State → Option State
  pub delete : ℕ → State → Option State
  pub query : State → Option (List QueryResult)
  pub get-put :
      (k j : ℕ) (v : Bytes) (d d' : State)
      → put k v d ≡ some d'
      → get j d' ≡ (if k == j then some v else get j d)
  pub get-delete :
      (k j : ℕ) (d d' : State)
      → delete k d ≡ some d'
      → get j d' ≡ (if k == j then none else get j d)

-- The state of the loop of `run`: gcQueryRes with the results that are left and gcSkip while a
-- collection runs, gcTime, and a timer that is set and has not fired. `purges` counts the calls of
-- Purge of the cache.
pub record Collector (S : Type 0) : Type 0 where
  pub dstore : S
  pub gc_query_res : Option (List QueryResult)
  pub gc_skip : List ℕ
  pub gc_time : ℕ
  pub timer_armed : Bool
  pub purges : ℕ

module _ (S : Store) where
  open S use {State, put, delete, query}

  -- A key that is put while a collection runs is to be skipped.
  unfoldable pub skip_key : Option (List QueryResult) → ℕ → List ℕ → List ℕ
  skip_key none k skip = skip
  skip_key (some results) k skip = k ∷ skip

  unfoldable pub put_done : Option State → ℕ → Collector State → Collector State
  unfolding skip_key
  put_done none k c = c
  put_done (some d) k c = record c { dstore = d; gc_skip = skip_key c.gc_query_res k c.gc_skip }

  -- The case of a new provider, with the key and the bytes of its record.
  unfoldable pub on_newprov : ℕ → Bytes → Collector State → Collector State
  unfolding put_done
  on_newprov k v c = put_done (put k v c.dstore) k c

  -- A record is removed; an error is logged.
  unfoldable pub remove_record : ℕ → Collector State → Collector State
  remove_record k c = elim (delete k c.dstore) [ none ↦ c | some d ↦ record c { dstore = d } ]

  -- The time of a record that is looked at: none where it is not read.
  unfoldable pub is_garbage : (now : ℕ) → Option ℕ → Bool
  is_garbage now none = true
  is_garbage now (some t) = ltb provide_validity (now - t)

  unfoldable pub collect : QueryResult → Collector State → Collector State
  unfolding remove_record is_garbage read_time_value
  collect failed c = c
  collect (found k v) c =
      if elem k c.gc_skip
      then c
      else if is_garbage c.gc_time (read_time_value v)
      then remove_record k c
      else c

  -- The case of a result, or of the end of the results, which sets the timer.
  unfoldable pub take_result : Option (List QueryResult) → Collector State → Collector State
  unfolding collect
  take_result none c = c
  take_result (some []) c = record c { gc_query_res = none; gc_skip = []; timer_armed = true }
  take_result (some (r ∷ results)) c = collect r (record c { gc_query_res = some results })

  unfoldable pub on_result : Collector State → Collector State
  unfolding take_result
  on_result c = take_result c.gc_query_res c

  unfoldable pub start_collection : Option (List QueryResult) → Collector State → Collector State
  start_collection none c = c
  start_collection (some results) c = record c { gc_query_res = some results; gc_skip = [] }

  -- The case of the timer.
  unfoldable pub on_timer : (now : ℕ) → Collector State → Collector State
  unfolding start_collection
  on_timer now c =
      start_collection (query c.dstore)
        (record c { gc_time = now; timer_armed = false; purges = c.purges + 1 })
