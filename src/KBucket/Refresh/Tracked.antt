-- ===== src/KBucket/Refresh/Tracked.antt =====
-- The tracked times of the refreshes, after a reset.
use dep2p.Base.{
  ℕ, zero, suc, ◌+◌, ◌<◌, ◌≤◌, ◌≡◌, refl, false, List, [], ◌∷◌, ◌++◌, some, length, length-append,
  get_elem?, min, ltb, ◌==◌, if◌then◌else◌, Bool-cases, inl, inr, arith,
}
use dep2p.Keyspace.{Bytes, Primitives, common_prefix_len}
use dep2p.KBucket.Table.{RoutingTable, max_common_prefix}
use dep2p.KBucket.Refresh.{
  values, max_cpl_for_refresh, get_tracked_cpls_for_refresh, reset_cpl_refreshed_at_for_id,
}

module _ {A : Type 0} where
  pub length-values : (f : ℕ → A) (n : ℕ) → length (values f n) ≡ n
  unfolding values
  length-values f zero = refl
  length-values f (suc n) = omega (arith, length-append (values f n) (f n ∷ []), length-values f n)

  at_append :
      (xs : List A) (y : A) (i : ℕ)
      → get_elem? (xs ++ (y ∷ [])) i ≡ (if i == length xs then some y else get_elem? xs i)
  at_append [] y zero = refl
  at_append [] y (suc i) = ground arith
  at_append (x ∷ xs) y zero = ground arith
  at_append (x ∷ xs) y (suc i) = ground (arith, at_append xs y i)

  pub at-values : (f : ℕ → A) (n i : ℕ) → i < n → get_elem? (values f n) i ≡ some (f i)
  unfolding values
  at-values f zero i lt = absurd (omega arith)
  at-values f (suc n) i lt =
      let e = at_append (values f n) (f n) i in ground (arith, length-values f n, at-values f n i)

module _ (P : Primitives) {S : Type 0} where
  -- The times are listed for the prefix lengths from 0 to the longest one of the table, 15 at
  -- most.
  pub tracked_length :
      (t : RoutingTable S)
      → length (get_tracked_cpls_for_refresh P t)
        ≡ min max_cpl_for_refresh (max_common_prefix P t) + 1
  unfolding get_tracked_cpls_for_refresh
  tracked_length t =
      let longest = max_common_prefix P t in
      let same = length-values t.cpl_refreshed_at ((if ltb 15 longest then 15 else longest) + 1) in
      ground arith

  -- After a reset for an identity, the listed times have the new time at the prefix length of the
  -- identity if it is 15 at most, and are what they were at the others.
  pub reset_tracked :
      (id : Bytes) (now : ℕ) (t : RoutingTable S) (i : ℕ)
      → i < length (get_tracked_cpls_for_refresh P t)
      → get_elem? (get_tracked_cpls_for_refresh P (reset_cpl_refreshed_at_for_id P id now t)) i
        ≡ some (if i == common_prefix_len P id t.local then now else t.cpl_refreshed_at i)
  unfolding get_tracked_cpls_for_refresh reset_cpl_refreshed_at_for_id max_common_prefix
  reset_tracked id now t i lt =
      let longest = max_common_prefix P t in
      let n : ℕ = (if ltb 15 longest then 15 else longest) + 1 in
      let same = length-values t.cpl_refreshed_at n in
      let small : i < n = omega arith in
      let most : n ≤ 16 = ground arith in
      let cpl = common_prefix_len P id t.local in
      elim (Bool-cases (ltb 15 cpl)) [
        | inl e ↦
            let away : (i == cpl) ≡ false = ground arith in
            rw (e, away) (at-values t.cpl_refreshed_at n i small)
        | inr e ↦ rw e (at-values (λ c. if c == cpl then now else t.cpl_refreshed_at c) n i small)
      ]
