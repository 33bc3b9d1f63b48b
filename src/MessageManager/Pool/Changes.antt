-- ===== src/MessageManager/Pool/Changes.antt =====
-- A call under the lock of a sender keeps what holds of all of them.
use dep2p.Base.{
  ℕ, ◌≡◌, ◌⊎◌, refl, sym, ap, ◌∙◌, inl, inr, true, some, ◌==◌, if◌then◌else◌, if_true, if_false,
  Bool-cases, arith,
}
use dep2p.Base.Maps.{fetch, fetch-put}
use dep2p.MessageManager.{Line, Made, change_sender}
use dep2p.MessageManager.Streams.{IsKept}
use dep2p.MessageManager.Pool.{Pool, IsSound}

-- A change of one sender that keeps its streams, and leaves it invalid if it was.
module _ {S : Type 0} (x : Pool) (n : ℕ) (made : Made) (net : S) (l : Line S) where
  abbrev pub Changed : Type 0
  Changed =
      (fetch n x.m.senders ≡ some made)
      × IsKept l
      × (made.sender.invalid ≡ true → l.sender.invalid ≡ true)

  abbrev pub changed : Made
  changed = record made { sender = l.sender; log = l.log }

  pub fetch-change_sender :
      (j : ℕ)
      → fetch n x.m.senders ≡ some made
      → fetch j (change_sender n l x.m).senders
        ≡ (if n == j then some changed else fetch j x.m.senders)
  unfolding change_sender
  fetch-change_sender j e = rw (e, change_sender) (fetch-put n j changed x.m.senders)

  rest-change_sender :
      fetch n x.m.senders ≡ some made
      → ((change_sender n l x.m).strmap ≡ x.m.strmap) × ((change_sender n l x.m).next ≡ x.m.next)
  unfolding change_sender
  rest-change_sender e = rw (e, change_sender) (refl, refl)

  which :
      (j : ℕ) (made' : Made)
      → fetch n x.m.senders ≡ some made
      → fetch j (change_sender n l x.m).senders ≡ some made'
      → ((j ≡ n) × (made' ≡ changed)) ⊎ (fetch j x.m.senders ≡ some made')
  which j made' e h =
      let now = sym (fetch-change_sender j e) ∙ h in
      elim (Bool-cases (n == j)) [
        | inl s ↦ let same : some changed ≡ some made' = rw s at now in inl (ground (arith, s), cc)
        | inr other ↦ inr (rw other at now)
      ]

  pub change_sender-IsSound : IsSound x → Changed → IsSound (record x { m = change_sender n l x.m })
  change_sender-IsSound v (e, k, bad) =
      let (map, count) = rest-change_sender e in
      record {
        fresh = λ j made' h. elim (which j made' e h) [
          | inl (here, _) ↦ rw (count, here) (v.fresh n made e)
          | inr old ↦ rw count (v.fresh j made' old)
        ];
        kept = λ j made' h. elim (which j made' e h) [
          | inl (_, now) ↦ rw now (record { owned = k.owned; idle = k.idle })
          | inr old ↦ v.kept j made' old
        ];
        owner = λ j made' h. elim (which j made' e h) [
          | inl (here, now) ↦
              rw (now, here, map)
                (elim (v.owner n made e) [
                  | inl a ↦ inl a
                  | inr (inl a) ↦ inr (inl a)
                  | inr (inr (inl a)) ↦ inr (inr (inl a))
                  | inr (inr (inr a)) ↦ inr (inr (inr (bad a)))
                ])
          | inr old ↦ rw map (v.owner j made' old)
        ];
        useless = λ j h. elim (v.useless j h) [
          | inl a ↦ inl a
          | inr (made', old, a) ↦ elim (Bool-cases (n == j)) [
            | inl s ↦
                let here : n ≡ j = ground (arith, s) in
                let same : made ≡ made' =
                  ground (arith, e, old, ap (λ k. fetch k x.m.senders) here) in
                inr (changed, fetch-change_sender j e ∙ if_true _ _ s, bad (rw same a))
            | inr other ↦ inr (made', fetch-change_sender j e ∙ if_false _ _ other ∙ old, a)
          ]
        ];
      }
