-- ===== src/MessageManager/Owners.antt =====
-- Which of the senders can hold a stream.
use mathlib.Core.Option.{some-injective}
use dep2p.Base.{ℕ, ◌≡◌, ◌≢◌, ◌⊎◌, sym, ◌∙◌, inl, inr, true, ◌∷◌, none, some, ◌==◌, if_true, arith}
use dep2p.Base.Maps.{fetch}
use dep2p.Base.Predicates.{elem}
use dep2p.MessageManager.{Transport, Made, prep_or_invalidate, invalidate, change_sender}
use dep2p.MessageManager.Streams.{
  IsKept, open_streams, held, prep_or_invalidate-IsKept, invalidate-IsKept, send_request-IsKept,
  send_message-IsKept,
}
use dep2p.MessageManager.Validity.{
  invalidate-invalid, send_request-invalid, send_message-invalid, prep_or_invalidate-invalid,
  prep_or_invalidate_kept,
}
use dep2p.MessageManager.Pool.{
  Pool, IsSound, at_rest, Step, look_up, prepare, give_up, forget, request, message, disconnect,
  invalidated, abandon, Reached, starts, steps,
}
use dep2p.MessageManager.Pool.Changes.{changed, fetch-change_sender, change_sender-IsSound}
use dep2p.MessageManager.Pool.Steps.{
  ended-IsSound, abandon-IsSound, look_up-IsSound, disconnect-IsSound, forget-IsSound,
  give_up-IsSound, failed-IsSound,
}

rests :
    {S : Type 0} (made : Made) (net : S)
    → IsKept {S = Unit {0}} (at_rest made tt)
    → IsKept (at_rest made net)
rests made net k = record { owned = k.owned; idle = k.idle }

module _ {M : Type 0} (T : Transport M) where
  pub Step-IsSound : {x y : Pool} → Step T x y → IsSound x → IsSound y
  Step-IsSound (look_up x p) v = look_up-IsSound x p v
  Step-IsSound (prepare x n made net h) v =
      let k = rests made net (v.kept n made h) in
      let (ok, l) = prep_or_invalidate T (at_rest made net) in
      failed-IsSound (record x { m = change_sender n l x.m }) n (changed x n made net l) ok
        (fetch-change_sender x n made net l n h ∙ if_true {b = n == n} _ _ (ground arith))
        (prep_or_invalidate-invalid T (at_rest made net))
        (change_sender-IsSound x n made net l v
          (h, prep_or_invalidate-IsKept T _ k, prep_or_invalidate_kept T (at_rest made net)))
  Step-IsSound (give_up x n) v = give_up-IsSound x n v
  Step-IsSound (forget x n made h f) v = forget-IsSound x n made h f v
  Step-IsSound (request x n made net mes r l h e) v =
      let (r2, l2, e2, k) = send_request-IsKept T mes _ (rests made net (v.kept n made h)) in
      let same : l2 ≡ l = cc in
      change_sender-IsSound x n made net l v
        (h, rw same at k, λ bad. send_request-invalid T mes _ l r e ∙ bad)
  Step-IsSound (message x n made net mes r l h e) v =
      let (r2, l2, e2, k) = send_message-IsKept T mes _ (rests made net (v.kept n made h)) in
      let same : l2 ≡ l = cc in
      change_sender-IsSound x n made net l v
        (h, rw same at k, λ bad. send_message-invalid T mes _ l r e ∙ bad)
  Step-IsSound (disconnect x p n got) v = disconnect-IsSound x p n got v
  Step-IsSound (invalidated x n made net h f) v =
      let l = invalidate (at_rest made net) in
      let now = fetch-change_sender x n made net l n h ∙ if_true {b = n == n} _ _ (ground arith) in
      ended-IsSound (record x { m = change_sender n l x.m }) n
        (λ made' e.
          let same : changed x n made net l ≡ made' = some-injective _ _ (sym now ∙ e) in
          inr (rw (← same) (invalidate-invalid (at_rest made net))))
        (change_sender-IsSound x n made net l v (
          h,
          invalidate-IsKept _ (rests made net (v.kept n made h)),
          λ _. invalidate-invalid (at_rest made net),
        ))
  Step-IsSound (abandon x n f) v =
      ended-IsSound (record x { gave_up = n ∷ x.gave_up }) n (λ made e. inl (ground arith))
        (abandon-IsSound x n v)

  pub Reached-IsSound : {x : Pool} → Reached T x → IsSound x
  unfolding fetch
  Reached-IsSound starts = record {
    fresh = λ n made h. absurd (ground (arith, h));
    kept = λ n made h. absurd (ground (arith, h));
    owner = λ n made h. absurd (ground (arith, h));
    useless = λ n h. absurd (ground (arith, h));
  }
  Reached-IsSound (steps r s) = Step-IsSound s (Reached-IsSound r)

  -- However the calls of any number of goroutines interleave, and whatever fails: the streams that a
  -- sender has opened and not ended are the one that it holds. While it holds one, it is the sender of
  -- its peer in strmap, or an OnDisconnect has taken it out and has still to invalidate it, or the
  -- context of the call that made it or of that OnDisconnect ended while it waited for its lock.
  pub Reached-owner :
      {x : Pool}
      → Reached T x
      → (n : ℕ) (made : Made) → fetch n x.m.senders ≡ some made
      → (open_streams made.log ≡ held made.sender.stream)
        × (made.sender.stream ≢ none
            → (fetch made.p x.m.strmap ≡ some n)
              ⊎ (elem n x.invalidating ≡ true)
              ⊎ (elem n x.gave_up ≡ true))
  Reached-owner r n made h =
      let v = Reached-IsSound r in
      let k = v.kept n made h in
      (
        k.owned,
        λ holds. elim (v.owner n made h) [
          | inl a ↦ inl a
          | inr (inl a) ↦ inr (inl a)
          | inr (inr (inl a)) ↦ inr (inr a)
          | inr (inr (inr bad)) ↦ absurd (holds (k.idle bad))
        ],
      )
