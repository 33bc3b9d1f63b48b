-- ===== src/Providers/Tests.antt =====
-- Runs of the provider manager, and each theorem at a concrete input.
use mathlib.Core.Option.{some-injective}
use dep2p.Base.{
  ℕ, ◌+◌, ◌⊎◌, subst, false, ◌≡◌, ◌↔◌, refl, ap, sym, ◌∙◌, true, inl, List, [], ◌∷◌, none, some,
  arith,
}
use dep2p.Base.Predicates.{elem, All}
use dep2p.Base.Maps.{
  Map, fetch, fetch_or, put, delete, fetch-put, fetch-delete, fetch-insert_self,
  fetch_or-insert_self,
}
use dep2p.Keyspace.{PeerId, Bytes}
use dep2p.Providers.{
  ProviderSet, Entry, Cache, Datastore, ProviderManager, time_value, read_time_value,
  new_provider_set, load_entries, add_prov, get_providers_for_key,
}
use dep2p.Providers.Collector.{
  QueryResult, found, Store, Collector, on_newprov, on_result, on_timer,
}
use dep2p.Providers.Collecting
use dep2p.Providers.Collecting.{Garbage, starts, goes_on, adds, fires}
use dep2p.Providers.Times
use dep2p.Providers.Sets
use dep2p.Providers.Sets.{IsProviderSet, AnyLive}
use dep2p.Providers.Lookups
use dep2p.Providers.Lookups.{Lists}

-- A cache that forgets nothing, and a datastore that is a map.
abbrev remembers : Cache
remembers = record {
  State = Map ProviderSet;
  get = λ k c. (fetch k c, c);
  add = put;
  change = put;
  get_again = λ k c. refl;
  get-change = λ k ps qs c e. fetch-insert_self k qs c;
}

abbrev mapped : Datastore
mapped = record {
  State = Map (List Entry);
  put_record = λ k p v d.
      some (put k (record { failed = false; prov = some p; value = v } ∷ fetch_or [] k d) d);
  query = λ k d. some (fetch_or [] k d);
  delete = λ k e d. d;
}

mapped_lists : Lists mapped
mapped_lists k p v d d' e =
    let es : List Entry = record { failed = false; prov = some p; value = v } ∷ fetch_or [] k d in
    let same = some-injective (put k es d) d' e in
    (
      es,
      ap (λ m. some (fetch_or [] k m)) (sym same) ∙ ap some (fetch_or-insert_self [] k es d),
      inl (refl, refl, refl),
    )

abbrev empty : ProviderManager remembers mapped
empty = record { cache = []; dstore = [] }

reads_back : read_time_value (time_value 300) ≡ some 300
unfolding read_time_value time_value
reads_back = refl

read_time_value-time_value_example :
    read_time_value (time_value 1700000000000000000) ≡ some 1700000000000000000
read_time_value-time_value_example =
    Times.read_time_value-time_value 1700000000000000000 (omega arith)

abbrev records : List Entry
records =
    record { failed = false; prov = some 5; value = time_value 300 }
    ∷ record { failed = false; prov = none; value = time_value 300 }
    ∷ record { failed = true; prov = some 6; value = time_value 300 }
    ∷ []

load_entries-exact_example :
    IsProviderSet (load_entries remembers mapped 400 7 records (new_provider_set, [])).0
    × ((p : PeerId)
        → (elem p (load_entries remembers mapped 400 7 records (new_provider_set, [])).0.providers
            ≡ true)
          ↔ AnyLive remembers mapped 400 7 p records)
load_entries-exact_example = Sets.load_entries-exact remembers mapped 400 7 records []

no_set : (ps : ProviderSet) → fetch 7 empty.cache ≡ some ps → IsProviderSet ps
unfolding fetch
no_set ps e = absurd (ground (arith, e))

get_providers-add_prov_example :
    (l : List PeerId) × ((get_providers_for_key remembers mapped 900 7
        (add_prov remembers mapped 400 7 5 empty).1).0
      ≡ some l)
    × (elem 5 l ≡ true)
unfolding add_prov
get_providers-add_prov_example =
    Lookups.get_providers-add_prov remembers mapped 400 900 7 5 empty mapped_lists no_set
      (omega arith) (omega arith) refl

-- A store of one record that an argument gives, whose query lists it or has an error.
abbrev unlisted : Store
unlisted = record {
  State = Map Bytes;
  get = fetch;
  put = λ k v d. some (put k v d);
  delete = λ k d. some (delete k d);
  query = λ d. none;
  get-put =
      λ k j v d d' e. ap (fetch j) (sym (some-injective (put k v d) d' e)) ∙ fetch-put k j v d;
  get-delete =
      λ k j d d' e. ap (fetch j) (sym (some-injective (delete k d) d' e)) ∙ fetch-delete k j d;
}

listed : Map Bytes → List QueryResult
listed [] = []
listed ((k, v) ∷ d) = found k v ∷ []

listed-IsThere : (d : Map Bytes) → All (Collecting.IsThere unlisted d) (listed d)
unfolding listed fetch
listed-IsThere [] = tt
listed-IsThere ((k, v) ∷ d) = (ground arith, tt)

abbrev lists_first : Store
lists_first = record unlisted { query = λ d. some (listed d) }

first_there : Collecting.Lists lists_first
first_there d results e =
    let same : listed d ≡ results = cc in
    subst (All (Collecting.IsThere lists_first d)) same (listed-IsThere d)

abbrev old : Bytes
old = time_value 300

abbrev late : ℕ
late = 300000000000000

-- The record 7 is record_renewed while a collection that has listed it as an old one runs.
abbrev listed_old : Collector (Map Bytes)
listed_old = on_timer lists_first late (Collecting.at_start lists_first ((7, old) ∷ []))

abbrev record_renewed : Collector (Map Bytes)
record_renewed = on_newprov lists_first 7 (time_value late) listed_old

kept_after : fetch 7 (on_result lists_first record_renewed).dstore ≡ some (time_value late)
unfolding on_result on_newprov on_timer fetch listed put
kept_after = refl

removed_after : fetch 7 (on_result lists_first listed_old).dstore ≡ none
unfolding on_result on_newprov on_timer fetch delete listed time_value
removed_after = refl

record_renewed-Runs :
    Collecting.Runs lists_first (Collecting.at_start lists_first ((7, old) ∷ [])) record_renewed
record_renewed-Runs =
    goes_on (goes_on starts (fires (Collecting.at_start lists_first ((7, old) ∷ [])) late refl))
      (adds listed_old 7 (time_value late))

now_there : fetch 7 record_renewed.dstore ≡ some (time_value late)
unfolding on_newprov on_timer fetch listed put
now_there = refl

on_result-keeps_example :
    (fetch 7 (on_result lists_first record_renewed).dstore ≡ some (time_value late))
    ⊎ Garbage lists_first record_renewed.gc_time (time_value late)
on_result-keeps_example =
    Collecting.on_result-keeps lists_first first_there record_renewed-Runs 7 (time_value late)
      now_there

abbrev quiet : Collector (Map Bytes)
quiet = Collecting.at_start unlisted ((7, old) ∷ [])

failed_query-Stopped_example :
    let d = on_newprov unlisted 9 old (on_timer unlisted late quiet) in
    (d.timer_armed ≡ false) × (d.gc_query_res ≡ none) × (d.purges ≡ quiet.purges + 1)
failed_query-Stopped_example =
    Collecting.failed_query-Stopped unlisted quiet late refl refl
      (goes_on starts (adds (on_timer unlisted late quiet) 9 old))
