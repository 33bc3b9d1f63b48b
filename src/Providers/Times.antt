-- ===== src/Providers/Times.antt =====
-- The times of the records are read as they were written.
use dep2p.Base.{
  ℕ, zero, suc, ◌+◌, ◌-◌, ◌*◌, ◌/◌, ◌%◌, ◌^◌, ◌<◌, ◌≡◌, refl, ap, true, false, inl, inr, some, ltb,
  ◌==◌, Bool-cases, arith,
}
use dep2p.Providers.{put_uvarint, uvarint, time_value, read_time_value}

-- The numbers that fit: seven bits in each byte, and one in the last.
limit : ℕ → ℕ
limit zero = 0
limit (suc zero) = 2
limit (suc (suc left)) = limit (suc left) * 128

uvarint-put : (left x : ℕ) → x < limit left → uvarint left (put_uvarint left x) ≡ some x
unfolding limit put_uvarint uvarint
uvarint-put zero x h = absurd (omega arith)
uvarint-put (suc zero) x h = ground arith
uvarint-put (suc (suc left)) x h = elim (Bool-cases (ltb x 128)) [
  | inl e ↦ let more : (suc left == 0) ≡ false = ground arith in rw (e, uvarint, e, more) refl
  | inr e ↦
      let ih = uvarint-put (suc left) (x / 128) (omega arith) in
      let high : ltb (x % 128 + 128) 128 ≡ false = ground arith in
      let sum : x % 128 + 128 - 128 + x / 128 * 128 ≡ x = omega arith in
      rw (e, uvarint, high, ih) (ap some sum)
]

-- A time below 2^63 nanoseconds, as an int64 holds it, is read from the bytes of the record as it was
-- written.
pub read_time_value-time_value : (t : ℕ) → t < 2 ^ 63 → read_time_value (time_value t) ≡ some t
unfolding read_time_value time_value limit
read_time_value-time_value t h =
    let fits : t * 2 < limit 10 = omega arith in
    let even : (t * 2 % 2 == 0) ≡ true = ground arith in
    let half : t * 2 / 2 ≡ t = omega arith in rw (uvarint-put 10 (t * 2) fits, even) (ap some half)
