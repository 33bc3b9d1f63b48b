-- ===== src/Keyspace/Distance.antt =====
-- Distances, prefixes and their orders between the 32-byte keys of the program.
use dep2p.Base.{ℕ, ◌*◌, ◌^◌, ◌≤◌, ◌<◌, ◌≡◌, refl, ◌↔◌, true, arith, length, ltb}
use dep2p.Keyspace.{
  PeerId, Bytes, IsBytes, Primitives, Key, key, equal, distance, id_less, common_prefix_len, closer,
  zip_xor,
}
use dep2p.Keyspace.Bytes.{less_bytes-eq-ltb, equal_bytes_iff}
use dep2p.Keyspace.Prefix.{
  zero_prefix_len-scale, less_bytes_of_prefix-lt, zero_prefix_len-zip, zero_prefix_len-zip_same,
  zip_xor_comm, zip_xor-cancel, length-zip_xor, zip_xor-IsBytes, eq_of_zip_xor-zero, zip_xor_self,
}

-- What `Sum256` returns: 32 bytes.
pub record IsDigest (a : Bytes) : Type 0 where
  pub size : length a ≡ 32
  pub bytes : IsBytes a

module _ (P : Primitives) where
  open P use {xor_bytes, sum256, xor_bytes-eq-zip, length-sum256, sum256-IsBytes}

  pub sum256-IsDigest : (s : ℕ) → IsDigest (sum256 s)
  sum256-IsDigest s = record { size = length-sum256 s; bytes = sum256-IsBytes s }

module _ (P : Primitives) {a b : Bytes} (da : IsDigest a) (db : IsDigest b) where
  open P use {xor_bytes, xor_bytes-eq-zip}

  zipped : xor_bytes a b ≡ zip_xor a b
  zipped = xor_bytes-eq-zip a b (omega arith)

  pub xor_bytes-IsDigest : IsDigest (xor_bytes a b)
  xor_bytes-IsDigest = rw zipped (record {
    size = omega (arith, length-zip_xor a b (omega arith));
    bytes = zip_xor-IsBytes a b da.bytes db.bytes;
  })

  pub xor_bytes_comm : xor_bytes a b ≡ xor_bytes b a
  xor_bytes_comm = rw (zipped, xor_bytes-eq-zip b a (omega arith)) (zip_xor_comm a b)

  -- The common prefix does not depend on the order of the two keys.
  pub common_prefix_len_comm : common_prefix_len P a b ≡ common_prefix_len P b a
  unfolding common_prefix_len
  common_prefix_len_comm = rw (zipped, xor_bytes-eq-zip b a (omega arith), zip_xor_comm a b)

  pub common_prefix_len-le : common_prefix_len P a b ≤ 256
  unfolding common_prefix_len
  common_prefix_len-le = omega (
    arith,
    (zero_prefix_len-scale (xor_bytes a b) xor_bytes-IsDigest.bytes).2,
    xor_bytes-IsDigest.size,
  )

module _ (P : Primitives) {a b c : Bytes} (da : IsDigest a) (db : IsDigest b)
    (dc : IsDigest c) where
  open P use {xor_bytes, xor_bytes-eq-zip}

  -- Two keys share at least the bits that both share with a third.
  pub common_prefix_len_trans :
      (k : ℕ)
      → k ≤ common_prefix_len P a b
      → k ≤ common_prefix_len P b c
      → k ≤ common_prefix_len P a c
  unfolding common_prefix_len
  common_prefix_len_trans k p q =
      let eab : xor_bytes a b ≡ zip_xor a b = zipped P da db in
      let ebc : xor_bytes b c ≡ zip_xor b c = zipped P db dc in
      rw (zipped P da dc, ← zip_xor-cancel a b c (omega arith) (omega arith))
        (zero_prefix_len-zip k (zip_xor a b) (zip_xor b c) (zip_xor-IsBytes a b da.bytes db.bytes)
          (zip_xor-IsBytes b c db.bytes dc.bytes)
          (omega (arith, length-zip_xor a b (omega arith), length-zip_xor b c (omega arith)))
          (rw (← eab) p) (rw (← ebc) q))

  -- Two keys that part from a third at one bit share that bit.
  pub common_prefix_len_part :
      common_prefix_len P a b ≡ common_prefix_len P b c
      → common_prefix_len P a b < 256
      → common_prefix_len P a b < common_prefix_len P a c
  unfolding common_prefix_len
  common_prefix_len_part e h =
      rw (zipped P da dc, ← zip_xor-cancel a b c (omega arith) (omega arith))
        (rw (zipped P da db) (
          zero_prefix_len-zip_same (zip_xor a b) (zip_xor b c)
            (zip_xor-IsBytes a b da.bytes db.bytes) (zip_xor-IsBytes b c db.bytes dc.bytes)
            (omega (arith, length-zip_xor a b (omega arith), length-zip_xor b c (omega arith)))
            (rw (← zipped P da db, ← zipped P db dc) e)
            (omega (arith, rw (zipped P da db) at h, length-zip_xor a b (omega arith)))))

  -- The key that shares more bits with the third is strictly nearer to it.
  pub id_less_of_prefix-lt :
      common_prefix_len P b c < common_prefix_len P a c
      → id_less P (xor_bytes a c) (xor_bytes b c) ≡ true
  unfolding common_prefix_len id_less
  id_less_of_prefix-lt h =
      less_bytes_of_prefix-lt (xor_bytes a c) (xor_bytes b c)
        (omega (arith, (xor_bytes-IsDigest P da dc).size, (xor_bytes-IsDigest P db dc).size)) h

module _ (P : Primitives) (x y : Key) (dx : IsDigest x.bytes) (dy : IsDigest y.bytes) where
  open P use {xor_bytes, xor_bytes-eq-zip}

  -- Only equal keys are at distance 0.
  pub equal_iff_distance-zero : (equal P x y ≡ true) ↔ (distance P x y ≡ 0)
  unfolding equal distance
  equal_iff_distance-zero = (
    λ e.
        let same : x.bytes ≡ y.bytes = (equal_bytes_iff x.bytes y.bytes).0 e in
        rw (same, xor_bytes-eq-zip y.bytes y.bytes refl) (zip_xor_self y.bytes),
    λ e.
        (equal_bytes_iff x.bytes y.bytes).1
          (eq_of_zip_xor-zero x.bytes y.bytes (omega arith) (rw (zipped P dx dy) at e)),
  )

  pub distance_comm : distance P x y ≡ distance P y x
  unfolding distance
  distance_comm = rw (zipped P dx dy, zipped P dy dx, zip_xor_comm x.bytes y.bytes)

  -- The common prefix says in which power of two the distance lies.
  pub common_prefix_len-distance :
      (distance P x y * 2 ^ common_prefix_len P x.bytes y.bytes < 2 ^ 256)
      × (common_prefix_len P x.bytes y.bytes < 256
          → 2 ^ 256 ≤ 2 * (distance P x y * 2 ^ common_prefix_len P x.bytes y.bytes))
  unfolding distance common_prefix_len
  common_prefix_len-distance =
      let d = xor_bytes-IsDigest P dx dy in
      let (upper, lower, _) = zero_prefix_len-scale (xor_bytes x.bytes y.bytes) d.bytes in
      (rw d.size at upper, λ h. rw d.size at (lower (rw d.size h)))

module _ (P : Primitives) (x y t : Key) (dx : IsDigest x.bytes) (dy : IsDigest y.bytes)
    (dt : IsDigest t.bytes) where
  open P use {xor_bytes}

  -- The byte order of the routing table and the big-integer order of the lookup agree.
  pub id_less-eq-distance :
      id_less P (xor_bytes x.bytes t.bytes) (xor_bytes y.bytes t.bytes)
      ≡ ltb (distance P x t) (distance P y t)
  unfolding id_less distance
  id_less-eq-distance =
      let da = xor_bytes-IsDigest P dx dt in
      let db = xor_bytes-IsDigest P dy dt in
      less_bytes-eq-ltb (xor_bytes x.bytes t.bytes) (xor_bytes y.bytes t.bytes) da.bytes db.bytes
        (omega (arith, da.size, db.size))

module _ (P : Primitives) (a b : PeerId) (k : ℕ) where
  -- `Closer` compares the distances of the two peers to the key.
  pub closer-eq-distance :
      closer P a b k ≡ ltb (distance P (key P a) (key P k)) (distance P (key P b) (key P k))
  unfolding closer key
  closer-eq-distance =
      id_less-eq-distance P (key P a) (key P b) (key P k) (sum256-IsDigest P a)
        (sum256-IsDigest P b) (sum256-IsDigest P k)
