-- ===== src/Dht/Checks.antt =====
-- The bound on the lookup checks that run at one time.
use dep2p.Base.{
  ℕ, suc, ◌+◌, ◌≤◌, ◌≡◌, subst, Bool, true, inl, inr, List, [], ◌∷◌, Option, none, some, length,
  ◌==◌, Bool-cases, arith,
}
use dep2p.Keyspace.{PeerId, Primitives}
use dep2p.KBucket.Table.{Diversity, useful_new_peer}
use dep2p.KBucket.Change.{Table}
use dep2p.Dht.{LookupChecks, peer_found, take_out, check_done, member}

length-take_out :
    (p : PeerId) (l : List PeerId) → member p l ≡ true → suc (length (take_out p l)) ≡ length l
unfolding take_out member
length-take_out p [] h = cc
length-take_out p (q ∷ l) h = ground (arith, length-take_out p l)

module _ (P : Primitives) (D : Diversity) where
  -- The states that `peerFound`, for any peers and tables, and the ends of checks lead to, in any order.
  pub data Reached (n : ℕ) : LookupChecks → Type 0 where
    at_start : Reached n (record { lookup_check_capacity = n; running = [] })
    finds :
        {c c' : LookupChecks} (valid : PeerId → Bool) (p : PeerId) (t : Table P D)
        → Reached n c
        → peer_found P D valid p t c ≡ some c'
        → Reached n c'
    ends :
        {c : LookupChecks} (p : PeerId) (answered : Bool)
        → Reached n c
        → member p c.running ≡ true
        → Reached n (check_done p answered c).1

  Balanced : ℕ → LookupChecks → Type 0
  Balanced n c = c.lookup_check_capacity + length c.running ≡ n

  SomeBalanced : ℕ → Option LookupChecks → Type 0
  SomeBalanced n none = Unit
  SomeBalanced n (some c) = Balanced n c

  found-Balanced :
      (n : ℕ) (valid : PeerId → Bool) (p : PeerId) (t : Table P D) (c : LookupChecks)
      → Balanced n c
      → SomeBalanced n (peer_found P D valid p t c)
  unfolding peer_found Balanced SomeBalanced
  found-Balanced n valid p t c h = elim (Bool-cases (useful_new_peer P t p)) [
    | inr e ↦ rw (e, peer_found) tt
    | inl e ↦ elim (Bool-cases (valid p)) [
      | inr v ↦ rw (e, peer_found, v) tt
      | inl v ↦ elim (Bool-cases (c.lookup_check_capacity == 0)) [
        | inl z ↦ rw (e, peer_found, v, z) tt
        | inr z ↦ rw (e, peer_found, v, z) (ground arith)
      ]
    ]
  ]

  -- In every state, the capacity that is left and the checks that run make the configured number, so
  -- that no more checks than that run at one time.
  pub Reached-balance :
      (n : ℕ) {c : LookupChecks}
      → Reached n c
      → (c.lookup_check_capacity + length c.running ≡ n) × (length c.running ≤ n)
  unfolding check_done Balanced SomeBalanced
  Reached-balance n at_start = (omega arith, omega arith)
  Reached-balance n (finds {c = c} {c' = c'} valid p t r e) =
      let kept = subst (SomeBalanced n) e (found-Balanced n valid p t c (Reached-balance n r).0) in
      (kept, omega arith)
  Reached-balance n (ends {c = c} p answered r h) =
      let (balance, _) = Reached-balance n r in
      let one_less = length-take_out p c.running h in (omega arith, omega arith)
