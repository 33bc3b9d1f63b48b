-- ===== src/Routing/Deadlines.antt =====
-- The time that classicProvide leaves, and the peers that it announces itself to.
use dep2p.Base.{
  ℕ, ◌-◌, ◌*◌, ◌/◌, ◌≤◌, ◌≡◌, ◌⊎◌, refl, inl, inr, true, false, Option, none, some, ltb, if_true,
  Bool-cases, Option-cases, arith,
}
use dep2p.Routing.{
  Error, deadline_exceeded, other, second, closer_deadline, Closest, put_to_closest,
  classic_provide,
}

-- Where the deadline has not passed, that of the lookup lies between now and it, and leaves the tenth
-- part of the time that is left, rounded down, or one second where that is less.
pub closer_deadline_bounds :
    (now deadline : ℕ)
    → now ≤ deadline
    → (d : ℕ) × (closer_deadline now deadline ≡ some d)
      × (now ≤ d)
      × (d ≤ deadline)
      × (deadline - d ≤ second)
      × ((deadline - d ≡ second) ⊎ (deadline - d ≡ (deadline - now) / 10))
unfolding closer_deadline
closer_deadline_bounds now deadline h =
    let late : ltb deadline now ≡ false = ground arith in
    elim (Bool-cases (ltb (deadline - now) (10 * second))) [
      | inl soon ↦ (
        deadline - (deadline - now) / 10,
        rw (late, soon) refl,
        ground arith,
        ground arith,
        ground arith,
        inr (ground arith),
      )
      | inr far ↦ (
        deadline - second,
        rw (late, far) refl,
        ground arith,
        ground arith,
        ground arith,
        inl (ground arith),
      )
    ]

closer_deadline_passed :
    (now deadline : ℕ) → ltb deadline now ≡ true → closer_deadline now deadline ≡ none
unfolding closer_deadline
closer_deadline_passed now deadline late = if_true _ _ late

put_to_closest_complete :
    (done done_after : Option Error) (c : Closest)
    → (put_to_closest done done_after c).0 ≡ none
    → (c.err ≡ none) × (done_after ≡ none) × ((put_to_closest done done_after c).1 ≡ c.peers)
unfolding put_to_closest
put_to_closest_complete done done_after c h = elim (Option-cases c.err) [
  | inl e ↦ rw (e, put_to_closest) (refl, rw (e, put_to_closest) at h, refl)
  | inr (other, e) ↦ absurd (ground (arith, h, e))
  | inr (deadline_exceeded, e) ↦ elim (Option-cases done) [
    | inl f ↦ absurd (ground (arith, h, e, f))
    | inr (x, f) ↦ absurd (ground (arith, h, e, f))
  ]
]

-- The deadline of the lookup, none where the context has none.
abbrev pub Within : ℕ → Option ℕ → Option ℕ → Type 0
Within now none closer = closer ≡ none
Within now (some deadline) closer = (d : ℕ) × (closer ≡ some d) × (now ≤ d) × (d ≤ deadline)

-- When classicProvide has no error, its lookup had none, under a deadline between now and that of the
-- context, if that has one, and PutProvider was called for each peer that the lookup returned.
pub classic_provide_complete :
    (now : ℕ) (deadline : Option ℕ) (lookup : Option ℕ → Closest) (done done_after : Option Error)
    → (classic_provide now deadline lookup done done_after).0 ≡ none
    → (closer : Option ℕ) × Within now deadline closer
      × ((lookup closer).err ≡ none)
      × (done_after ≡ none)
      × ((classic_provide now deadline lookup done done_after).1 ≡ (lookup closer).peers)
unfolding classic_provide
classic_provide_complete now none lookup done done_after h =
    let (err, after, all) = put_to_closest_complete done done_after (lookup none) h in
    (none, refl, err, after, all)
classic_provide_complete now (some deadline) lookup done done_after h =
    elim (Bool-cases (ltb deadline now)) [
      | inl late ↦
          let passed : closer_deadline now deadline ≡ none =
            closer_deadline_passed now deadline late in
          absurd (ground (arith, rw (passed, classic_provide) at h))
      | inr early ↦
          let (d, e, after_now, before, _, _) =
            closer_deadline_bounds now deadline (ground (arith, early)) in
          let (err, after, all) =
            put_to_closest_complete done done_after (lookup (some d))
              (rw (e, classic_provide) at h) in
          (some d, (d, refl, after_now, before), err, after, rw (e, classic_provide) all)
    ]
