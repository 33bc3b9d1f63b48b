-- ===== src/KBucket/Refresh.antt =====
-- kbucket/table_refresh.go: the times of the refreshes, and random keys of a given prefix length.
pub mod Joins
pub mod Keys
pub mod Words
pub mod Tracked
use Prim.Native.Nat.{bit_and, bit_or, bit_xor}
use dep2p.Base.{
  ℕ, zero, suc, ◌+◌, ◌-◌, ◌*◌, ◌/◌, ◌%◌, ◌^◌, ◌<◌, ◌≡◌, List, [], ◌∷◌, ◌++◌, Option, none, some,
  length, get_or, take, set, ltb, leb, ◌==◌, if◌then◌else◌,
}
use dep2p.Keyspace.{PeerId, Bytes, Primitives, common_prefix_len}
use dep2p.KBucket.Table.{RoutingTable, max_common_prefix}

abbrev pub max_cpl_for_refresh : ℕ
max_cpl_for_refresh = 15

-- The values of a function at 0, 1, …, up to a bound.
unfoldable pub values {ℓ} : {A : Type ℓ} → (ℕ → A) → ℕ → List A
values f zero = []
values f (suc n) = values f n ++ (f n ∷ [])

-- The byte that joins the local key to the random one: the high bits of the local byte with the
-- lowest of them flipped, and below it the random bits. A shift drops what leaves the byte.
unfoldable pub mixed_byte : ℕ → ℕ → ℕ → ℕ
mixed_byte remaining_bits orig output =
    let orig_mask : ℕ = (255 * 2 ^ remaining_bits) % 256 in
    let rand_mask : ℕ = (255 - orig_mask) / 2 in
    let flipped_bit_mask : ℕ = 2 ^ (remaining_bits - 1) in
    bit_or
      (bit_xor (bit_or (bit_and orig orig_mask) (bit_and orig flipped_bit_mask)) flipped_bit_mask)
      (bit_and output rand_mask)

-- The same join on the first 16 bits.
unfoldable pub target_prefix : (target_cpl local_prefix rand_prefix : ℕ) → ℕ
target_prefix target_cpl local_prefix rand_prefix =
    let toggled : ℕ = bit_xor local_prefix (0x8000 / 2 ^ target_cpl) in
    let mask : ℕ = (0xffff * 2 ^ (16 - (target_cpl + 1))) % 2 ^ 16 in
    bit_or (bit_and toggled mask) (bit_and rand_prefix (0xffff - mask))

-- `binary.BigEndian.Uint16`.
unfoldable pub big_endian16 : Bytes → ℕ
big_endian16 bs = get_or bs 0 0 * 256 + get_or bs 1 0

module _ (P : Primitives) {S : Type 0} where
  unfoldable pub get_tracked_cpls_for_refresh : RoutingTable S → List ℕ
  unfolding values
  get_tracked_cpls_for_refresh t =
      let longest = max_common_prefix P t in
      values t.cpl_refreshed_at
        ((if ltb max_cpl_for_refresh longest then max_cpl_for_refresh else longest) + 1)

  unfoldable pub reset_cpl_refreshed_at_for_id : Bytes → ℕ → RoutingTable S → RoutingTable S
  reset_cpl_refreshed_at_for_id id new_time t =
      let cpl = common_prefix_len P id t.local in
      if ltb max_cpl_for_refresh cpl
      then t
      else record t { cpl_refreshed_at = λ c. if c == cpl then new_time else t.cpl_refreshed_at c }

module _ {S : Type 0} where
  -- The random bytes that `rand.Read` gives fill the key from the byte of the prefix on.
  unfoldable pub gen_random_key : ℕ → Bytes → RoutingTable S → Option Bytes
  unfolding mixed_byte
  gen_random_key target_cpl random t =
      let partial_offset = target_cpl / 8 in
      let output = take partial_offset t.local ++ random in
      let remaining_bits : ℕ = 8 - target_cpl % 8 in
      if leb (length t.local * 8) (target_cpl + 1)
      then none
      else some (
          set output partial_offset (
            mixed_byte remaining_bits (get_or t.local partial_offset 0)
              (get_or output partial_offset 0)))

  -- The generated map of key prefixes, and the identity of 34 bytes that is made of an entry, are
  -- arguments.
  unfoldable pub gen_rand_peer_id :
      (key_prefix_map : ℕ → ℕ) (peer_of : ℕ → PeerId)
      → ℕ
      → (rand_prefix : ℕ) → RoutingTable S
      → Option PeerId
  unfolding target_prefix big_endian16
  gen_rand_peer_id key_prefix_map peer_of target_cpl rand_prefix t =
      if ltb max_cpl_for_refresh target_cpl
      then none
      else some
          (peer_of (key_prefix_map (target_prefix target_cpl (big_endian16 t.local) rand_prefix)))
