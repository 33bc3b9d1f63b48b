-- ===== src/Providers.antt =====
-- providers/provider_set.go and providers/providers_manager.go: the providers of a key, in a cache in
-- front of a datastore. The goroutine that serves the calls makes each one step.
pub mod Times
pub mod Sets
pub mod Lookups
pub mod Collector
pub mod Collecting
pub mod Tests
use mathlib.Core.Option
use dep2p.Base.{
  ℕ, zero, suc, ◌+◌, ◌-◌, ◌*◌, ◌/◌, ◌%◌, ◌≤◌, ◌≡◌, Bool, true, false, ◌&&◌, List, [], ◌∷◌, ◌++◌,
  Option, none, some, ltb, ◌==◌, if◌then◌else◌,
}
use dep2p.Base.Maps.{Map, fetch, put}
use dep2p.Keyspace.{PeerId, Bytes}

-- 48 hours in nanoseconds.
abbrev pub provide_validity : ℕ
provide_validity = 172800000000000

pub record ProviderSet : Type 0 where
  pub providers : List PeerId
  pub set : Map ℕ

-- A result of a query of the datastore for a key: whether it is an error, else the record with its
-- provider, none where the text does not decode, and the bytes of the time.
pub record Entry : Type 0 where
  pub failed : Bool
  pub prov : Option PeerId
  pub value : Bytes

unfoldable pub new_provider_set : ProviderSet
new_provider_set = record { providers = []; set = [] }

unfoldable pub is_some : Option ℕ → Bool
is_some none = false
is_some (some n) = true

unfoldable pub set_val : PeerId → ℕ → ProviderSet → ProviderSet
unfolding fetch put is_some
set_val p t ps = record {
  providers = if is_some (fetch p ps.set) then ps.providers else ps.providers ++ (p ∷ []);
  set = put p t ps.set;
}

-- `binary.PutUvarint`, with as many bytes as the buffer is given for.
unfoldable pub put_uvarint : ℕ → ℕ → Bytes
put_uvarint zero x = []
put_uvarint (suc left) x =
    let rest = put_uvarint left (x / 128) in if ltb x 128 then x ∷ [] else (x % 128 + 128) ∷ rest

-- `binary.Uvarint`: none where it reports an error, with the bytes that are left to it.
unfoldable pub uvarint : ℕ → Bytes → Option ℕ
uvarint zero bs = none
uvarint (suc left) [] = none
uvarint (suc left) (b ∷ bs) =
    let rest = uvarint left bs in
    if ltb b 128
    then (if left == 0 && ltb 1 b then none else some b)
    else Option.map (λ r. b - 128 + r * 128) rest

-- The value that `writeProviderEntry` puts: `binary.PutVarint` of the time.
unfoldable pub time_value : ℕ → Bytes
unfolding put_uvarint
time_value t = put_uvarint 10 (t * 2)

-- A time before 1970 reads as 0, which has expired as it has.
unfoldable pub read_time_value : Bytes → Option ℕ
unfolding uvarint
read_time_value bs = Option.map (λ u. if u % 2 == 0 then u / 2 else 0) (uvarint 10 bs)

-- What the manager takes from golang-lru: `get` counts as a use and so changes the cache;
-- `change` stands for a change of a cached set through its pointer.
pub record Cache : Type 1 where
  pub State : Type 0
  pub get : ℕ → State → Option ProviderSet × State
  pub add : ℕ → ProviderSet → State → State
  pub change : ℕ → ProviderSet → State → State
  pub get_again : (k : ℕ) (c : State) → (get k (get k c).1).0 ≡ (get k c).0
  pub get-change :
      (k : ℕ) (ps qs : ProviderSet) (c : State)
      → (get k c).0 ≡ some ps
      → (get k (change k qs (get k c).1)).0 ≡ some qs

-- What it takes from go-datastore, with the keys that `mkProvKeyFor` makes: none is an error.
pub record Datastore : Type 1 where
  pub State : Type 0
  pub put_record : ℕ → PeerId → Bytes → State → Option State
  pub query : ℕ → State → Option (List Entry)
  pub delete : ℕ → Entry → State → State

pub record Manager (C S : Type 0) : Type 0 where
  pub cache : C
  pub dstore : S

module _ (C : Cache) (S : Datastore) where
  open C use {get, add, change}
  open S use {put_record, query, delete}

  abbrev pub ProviderManager : Type 0
  ProviderManager = Manager C.State S.State

  unfoldable pub change_cached :
      (now : ℕ) (p : PeerId) (k : ℕ) → Option ProviderSet × C.State → C.State
  unfolding set_val
  change_cached now p k (none, c) = c
  change_cached now p k (some ps, c) = change k (set_val p now ps) c

  -- `addProv`, and whether it has no error.
  unfoldable pub add_prov : (now k : ℕ) (p : PeerId) → ProviderManager → Bool × ProviderManager
  unfolding change_cached time_value
  add_prov now k p pm =
      let cache = change_cached now p k (get k pm.cache) in
      elim (put_record k p (time_value now) pm.dstore) [
        | none ↦ (false, record { cache = cache; dstore = pm.dstore })
        | some d ↦ (true, record { cache = cache; dstore = d })
      ]

  -- The end of a round of the loop of `loadProviderSet`, with the provider that was decoded.
  unfoldable pub load_named :
      ℕ → Entry → ℕ → Option PeerId → ProviderSet × S.State → ProviderSet × S.State
  unfolding set_val
  load_named k e t none (out, d) = (out, delete k e d)
  load_named k e t (some pid) (out, d) = (set_val pid t out, d)

  -- A round of that loop, with the time that was read.
  unfoldable pub load_entry :
      (now k : ℕ) → Entry → Option ℕ → ProviderSet × S.State → ProviderSet × S.State
  unfolding load_named
  load_entry now k e none (out, d) = (out, delete k e d)
  load_entry now k e (some t) (out, d) =
      if ltb provide_validity (now - t)
      then (out, delete k e d)
      else load_named k e t e.prov (out, d)

  unfoldable pub load_entries :
      (now k : ℕ) → List Entry → ProviderSet × S.State → ProviderSet × S.State
  unfolding load_entry read_time_value
  load_entries now k [] r = r
  load_entries now k (e ∷ es) r =
      load_entries now k es (if e.failed then r else load_entry now k e (read_time_value e.value) r)

  -- The end of `getProviderSetForKey`, for a set that was loaded: a set that is not empty is cached.
  unfoldable pub cached : ℕ → ProviderSet → C.State → C.State
  cached k ps c = elim ps.providers [ [] ↦ c | p ∷ providers ↦ add k ps c ]

  -- `getProvidersForKey`: none is its error.
  unfoldable pub get_providers_for_key :
      (now k : ℕ) → ProviderManager → Option (List PeerId) × ProviderManager
  unfolding load_entries cached new_provider_set
  get_providers_for_key now k pm =
      let (hit, c) = get k pm.cache in
      elim hit [
        | some ps ↦ (some ps.providers, record { cache = c; dstore = pm.dstore })
        | none ↦ elim (query k pm.dstore) [
          | none ↦ (none, record { cache = c; dstore = pm.dstore })
          | some es ↦
              let (ps, d) = load_entries now k es (new_provider_set, pm.dstore) in
              (some ps.providers, record { cache = cached k ps c; dstore = d })
        ]
      ]
