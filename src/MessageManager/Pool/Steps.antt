-- ===== src/MessageManager/Pool/Steps.antt =====
-- The calls that change the map of the senders keep what holds of all of them.
use dep2p.Base.{
  ℕ, ◌+◌, ◌≡◌, ◌⊎◌, refl, sym, ◌∙◌, inl, inr, Bool, true, false, List, [], ◌∷◌, none, some, ◌==◌,
  if◌then◌else◌, Bool-cases, Option-cases, arith,
}
use dep2p.Base.Maps.{fetch, put, delete, fetch-put, fetch-delete}
use dep2p.Base.Predicates.{elem, keep}
use dep2p.Keyspace.{PeerId}
use dep2p.MessageManager.{Made, new_sender, sender_for_peer, forget_failed, on_disconnect}
use dep2p.MessageManager.Streams.{IsKept, open_streams, held}
use dep2p.MessageManager.Pool.{Pool, IsSound, at_rest, without}

abbrev made_for : PeerId → Made
made_for p = record { p = p; sender = new_sender; log = [] }

abbrev with_new : Pool → PeerId → Pool
with_new x p = record x {
  m = record {
    strmap = put p x.m.next x.m.strmap;
    senders = put x.m.next (made_for p) x.m.senders;
    next = x.m.next + 1;
  };
}

which_made :
    (x : Pool) (p : PeerId) (j : ℕ) (made : Made)
    → fetch j (with_new x p).m.senders ≡ some made
    → ((j ≡ x.m.next) × (made ≡ made_for p)) ⊎ (fetch j x.m.senders ≡ some made)
which_made x p j made h =
    let now = sym (fetch-put x.m.next j (made_for p) x.m.senders) ∙ h in
    elim (Bool-cases (x.m.next == j)) [
      | inl s ↦
          let same : some (made_for p) ≡ some made = rw s at now in inl (ground (arith, s), cc)
      | inr other ↦ inr (rw other at now)
    ]

made_for-IsKept : (p : PeerId) → IsKept {S = Unit {0}} (at_rest (made_for p) tt)
unfolding open_streams held
made_for-IsKept p = record { owned = refl; idle = λ e. absurd (ground (arith, e)) }

new_sender-IsSound :
    (x : Pool) (p : PeerId) → fetch p x.m.strmap ≡ none → IsSound x → IsSound (with_new x p)
new_sender-IsSound x p e v = record {
  fresh = λ j made h. elim (which_made x p j made h) [
    | inl (here, _) ↦ omega (arith, here)
    | inr old ↦ omega (arith, v.fresh j made old)
  ];
  kept = λ j made h. elim (which_made x p j made h) [
    | inl (_, now) ↦ rw now (made_for-IsKept p)
    | inr old ↦ v.kept j made old
  ];
  owner = λ j made h. elim (which_made x p j made h) [
    | inl (here, now) ↦ inl (rw (now, here) (ground (arith, fetch-put p p x.m.next x.m.strmap)))
    | inr old ↦ elim (v.owner j made old) [
      | inl a ↦ inl (ground (arith, a, e, fetch-put p made.p x.m.next x.m.strmap))
      | inr a ↦ inr a
    ]
  ];
  useless = λ j h. elim (v.useless j h) [
    | inl a ↦ inl a
    | inr (made, old, a) ↦ inr (
      made,
      ground (arith, old, v.fresh j made old, fetch-put x.m.next j (made_for p) x.m.senders),
      a,
    )
  ];
}

pub look_up-IsSound :
    (x : Pool) (p : PeerId) → IsSound x → IsSound (record x { m = (sender_for_peer p x.m).1 })
unfolding sender_for_peer
look_up-IsSound x p v = elim (Option-cases (fetch p x.m.strmap)) [
  | inr (n, e) ↦ rw (e, sender_for_peer) v
  | inl e ↦ rw (e, sender_for_peer) (new_sender-IsSound x p e v)
]

remove_owner :
    (x : Pool) (p : PeerId) (n j : ℕ) (made : Made)
    → fetch p x.m.strmap ≡ some n
    → fetch made.p x.m.strmap ≡ some j
    → (j ≡ n) ⊎ (fetch made.p (delete p x.m.strmap) ≡ some j)
remove_owner x p n j made e h = ground (arith, fetch-delete p made.p x.m.strmap)

pub disconnect-IsSound :
    (x : Pool) (p : PeerId) (n : ℕ)
    → (on_disconnect p x.m).0 ≡ some n
    → IsSound x
    → IsSound (record x { m = (on_disconnect p x.m).1; invalidating = n ∷ x.invalidating })
unfolding on_disconnect
disconnect-IsSound x p n got v = elim (Option-cases (fetch p x.m.strmap)) [
  | inl e ↦ absurd (ground (arith, e))
  | inr (k, e) ↦
      let same : k ≡ n = ground (arith, got, e) in
      rw (e, on_disconnect)
        (record {
          fresh = v.fresh;
          kept = v.kept;
          owner = λ j made h. elim (v.owner j made h) [
            | inl a ↦ elim (remove_owner x p k j made e a) [
              | inl here ↦ inr (inl (ground (arith, here, same)))
              | inr still ↦ inl still
            ]
            | inr (inl a) ↦ inr (inl (ground (arith, a)))
            | inr (inr a) ↦ inr (inr a)
          ];
          useless = v.useless;
        })
]

pub forget-IsSound :
    (x : Pool) (n : ℕ) (made : Made)
    → fetch n x.m.senders ≡ some made
    → elem n x.failed ≡ true
    → IsSound x
    → IsSound (record x { m = (forget_failed made.p n x.m).1 })
unfolding forget_failed
forget-IsSound x n made h f v = elim (Option-cases (fetch made.p x.m.strmap)) [
  | inl e ↦ rw (e, forget_failed) v
  | inr (k, e) ↦ elim (Bool-cases (n == k)) [
    | inr other ↦ rw (e, forget_failed, other) v
    | inl s ↦
        let same : k ≡ n = ground (arith, s) in
        rw (e, forget_failed, s)
          (record {
            fresh = v.fresh;
            kept = v.kept;
            owner = λ j made' h'. elim (v.owner j made' h') [
              | inr a ↦ inr a
              | inl a ↦ elim (remove_owner x made.p k j made' e a) [
                | inr still ↦ inl still
                | inl here ↦ elim (v.useless n f) [
                  | inl g ↦ inr (inr (inl (rw (here, same) g)))
                  | inr (made2, h2, bad) ↦
                      let at_n : fetch n x.m.senders ≡ some made' = rw (here, same) at h' in
                      let equal : made2 ≡ made' = cc in inr (inr (inr (rw equal at bad)))
                ]
              ]
            ];
            useless = v.useless;
          })
  ]
]

pub give_up-IsSound :
    (x : Pool) (n : ℕ)
    → IsSound x
    → IsSound (record x { failed = n ∷ x.failed; gave_up = n ∷ x.gave_up })
give_up-IsSound x n v = record {
  fresh = v.fresh;
  kept = v.kept;
  owner = λ j made h. elim (v.owner j made h) [
    | inl a ↦ inl a
    | inr (inl a) ↦ inr (inl a)
    | inr (inr (inl a)) ↦ inr (inr (inl (ground (arith, a))))
    | inr (inr (inr a)) ↦ inr (inr (inr a))
  ];
  useless = λ j h. elim (Bool-cases (j == n)) [
    | inl s ↦ inl (rw s refl)
    | inr other ↦ elim (v.useless j (rw other at h)) [ inl a ↦ inl (rw other a) | inr a ↦ inr a ]
  ];
}

elem-without : (j n : ℕ) (l : List ℕ) → elem j l ≡ true → (j ≡ n) ⊎ (elem j (without n l) ≡ true)
unfolding keep
elem-without j n [] h = inr h
elem-without j n (k ∷ l) h = elim (Bool-cases (j == k)) [
  | inl s ↦ elim (Bool-cases (k == n)) [
    | inl t ↦ inl (ground (arith, s, t))
    | inr t ↦ inr (rw (t, s) refl)
  ]
  | inr s ↦ elim (elem-without j n l (rw s at h)) [
    | inl e ↦ inl e
    | inr e ↦ elim (Bool-cases (k == n)) [ inl t ↦ inr (rw t e) | inr t ↦ inr (rw (t, s) e) ]
  ]
]

-- The goroutine of an OnDisconnect ends: the sender is invalid, or it was given up.
pub ended-IsSound :
    (x : Pool) (n : ℕ)
    → ((made : Made)
        → fetch n x.m.senders ≡ some made
        → (elem n x.gave_up ≡ true) ⊎ (made.sender.invalid ≡ true))
    → IsSound x
    → IsSound (record x { invalidating = without n x.invalidating })
ended-IsSound x n settled v = record {
  fresh = v.fresh;
  kept = v.kept;
  owner = λ j made h. elim (v.owner j made h) [
    | inl a ↦ inl a
    | inr (inr a) ↦ inr (inr a)
    | inr (inl a) ↦ elim (elem-without j n x.invalidating a) [
      | inr b ↦ inr (inl b)
      | inl here ↦ elim (settled made (rw here at h)) [
        | inl g ↦ inr (inr (inl (rw here g)))
        | inr bad ↦ inr (inr (inr bad))
      ]
    ]
  ];
  useless = v.useless;
}

-- A sender may join those that were given up.
pub abandon-IsSound :
    (x : Pool) (n : ℕ) → IsSound x → IsSound (record x { gave_up = n ∷ x.gave_up })
abandon-IsSound x n v = record {
  fresh = v.fresh;
  kept = v.kept;
  owner = λ j made h. elim (v.owner j made h) [
    | inl a ↦ inl a
    | inr (inl a) ↦ inr (inl a)
    | inr (inr (inl a)) ↦ inr (inr (inl (ground (arith, a))))
    | inr (inr (inr a)) ↦ inr (inr (inr a))
  ];
  useless = λ j h. elim (v.useless j h) [ inl a ↦ inl (ground (arith, a)) | inr a ↦ inr a ];
}

-- A sender that is invalid may join the failed ones.
pub failed-IsSound :
    (x : Pool) (n : ℕ) (made : Made) (ok : Bool)
    → fetch n x.m.senders ≡ some made
    → (ok ≡ false → made.sender.invalid ≡ true)
    → IsSound x
    → IsSound (record x { failed = if ok then x.failed else n ∷ x.failed })
failed-IsSound x n made true h bad v = v
failed-IsSound x n made false h bad v = record {
  fresh = v.fresh;
  kept = v.kept;
  owner = v.owner;
  useless = λ j f. elim (Bool-cases (j == n)) [
    | inl s ↦ let here : j ≡ n = ground (arith, s) in inr (made, rw here h, bad refl)
    | inr other ↦ v.useless j (rw other at f)
  ];
}
