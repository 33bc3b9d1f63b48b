-- ===== src/RtRefresh/Liveness.antt =====
-- The peers that a liveness check takes out of the table.
use dep2p.Base.{
  ◌+◌, ◌<◌, ◌≡◌, ◌≢◌, ◌↔◌, refl, ◌∙◌, subst, ◌⊎◌, inl, inr, true, false, not, List, [], ◌∷◌, ◌==◌,
  ==_iff, if◌then◌else◌, Bool-cases, arith,
}
use dep2p.Base.Predicates.{keep}
use dep2p.Keyspace.{PeerId, Primitives}
use dep2p.KBucket.Bucket.{PeerInfo}
use dep2p.KBucket.Table.{Diversity, get_peer_infos}
use dep2p.KBucket.Change.{Table, remove_peer}
use dep2p.KBucket.Invariant.{IsValid}
use dep2p.KBucket.Invariant.Methods.{remove_peer-IsValid}
use dep2p.KBucket.Invariant.Absence.{Absent}
use dep2p.KBucket.Invariant.Removal.{remove_peer-Absent}
use dep2p.KBucket.Invariant.Others.{remove_peer_others}
use dep2p.RtRefresh.{Network, RtRefreshManager, check_peer, check_all, is_due, ping_and_evict_peers}

abbrev pub Listed : PeerId → List PeerInfo → Type 0
Listed p [] = ⊥
Listed p (q ∷ qs) = (q.id ≡ p) ⊎ Listed p qs

module _ (P : Primitives) (D : Diversity) (N : Network (Table P D)) where
  abbrev M : Type 0
  M = RtRefreshManager P D N

  -- A peer to which the connection fails, or that does not answer.
  abbrev pub Dead : M → PeerId → Type 0
  Dead r p = (if N.connects p r.world then not (N.answers_ping p r.world) else true) ≡ true

  fails :
      (r : M) (p : PeerId)
      → Dead r p ↔ ((N.connects p r.world ≡ false) ⊎ (N.answers_ping p r.world ≡ false))
  fails r p = elim (Bool-cases (N.connects p r.world)) [
    | inl e ↦ rw e (λ h. inr (ground (arith, h)), λ h. ground (arith, h))
    | inr e ↦ rw e (λ h. inl refl, λ h. refl)
  ]

  abbrev pub Gone : PeerId → M → Type 0
  Gone p r = Absent p r.table.buckets

  evicted : PeerInfo → M → M
  evicted ps r = record r { table = (remove_peer P D ps.id r.table).1 }

  -- A worker evicts, or leaves the manager as it is.
  check_peer_cases :
      (ps : PeerInfo) (r : M)
      → (Dead r ps.id × (check_peer P D N ps r ≡ evicted ps r))
        ⊎ (((h : Dead r ps.id) → ⊥) × (check_peer P D N ps r ≡ r))
  unfolding check_peer evicted
  check_peer_cases ps r = ground arith

  -- What a worker, or some of them, have done from `r` on, with the peers that they checked.
  pub record Checked (pss : List PeerInfo) (r r' : M) : Type 0 where
    pub valid : IsValid P r'.table
    pub same_world : r'.world ≡ r.world
    pub gone : (p : PeerId) → Gone p r' ↔ (Gone p r ⊎ (Listed p pss × Dead r p))

  check_peer-Checked :
      (ps : PeerInfo) (r : M) → IsValid P r.table → Checked (ps ∷ []) r (check_peer P D N ps r)
  unfolding evicted
  check_peer-Checked ps r v = elim (check_peer_cases ps r) [
    | inr (alive, e) ↦ rw e (record {
      valid = v;
      same_world = refl;
      gone = λ p. (
        λ g. inl g,
        λ h. elim h [
          | inl g ↦ g
          | inr (inl q, d) ↦ absurd (alive (rw q d))
          | inr (inr l, d) ↦ absurd l
        ],
      );
    })
    | inl (dead, e) ↦ rw e (record {
      valid = remove_peer-IsValid P D ps.id r.table v;
      same_world = refl;
      gone = λ p. elim (Bool-cases (ps.id == p)) [
        | inl s ↦
            let q = (==_iff ps.id p).0 s in
            (
              λ g. inr (inl q, rw q at dead),
              λ h. subst (λ k. Gone k (evicted ps r)) q (remove_peer-Absent P D ps.id r.table v),
            )
        | inr n ↦
            let other : p ≢ ps.id = λ q. ground arith in
            let (there, back) = remove_peer_others P D ps.id p r.table other in
            (
              λ g. inl (there g),
              λ h. elim h [
                | inl g ↦ back g
                | inr (inl q, d) ↦ absurd (ground arith)
                | inr (inr l, d) ↦ absurd l
              ],
            )
      ];
    })
  ]

  same-Dead : (u r : M) (p : PeerId) → u.world ≡ r.world → Dead u p ↔ Dead r p
  same-Dead u r p e = rw e (λ h. h, λ h. h)

  join :
      (ps : PeerInfo) (pss : List PeerInfo) (r u r' : M)
      → Checked (ps ∷ []) r u
      → Checked pss u r'
      → Checked (ps ∷ pss) r r'
  join ps pss r u r' c d = record {
    valid = d.valid;
    same_world = d.same_world ∙ c.same_world;
    gone = λ p.
        let same = same-Dead u r p c.same_world in
        (
          λ g. elim ((d.gone p).0 g) [
            | inl h ↦ elim ((c.gone p).0 h) [
              | inl k ↦ inl k
              | inr (inl q, x) ↦ inr (inl q, x)
              | inr (inr l, x) ↦ absurd l
            ]
            | inr (l, x) ↦ inr (inr l, same.0 x)
          ],
          λ h. elim h [
            | inl k ↦ (d.gone p).1 (inl ((c.gone p).1 (inl k)))
            | inr (inl q, x) ↦ (d.gone p).1 (inl ((c.gone p).1 (inr (inl q, x))))
            | inr (inr l, x) ↦ (d.gone p).1 (inr (l, same.1 x))
          ],
        );
  }

  check_all-Checked :
      (pss : List PeerInfo) (r : M) → IsValid P r.table → Checked pss r (check_all P D N pss r)
  unfolding check_all
  check_all-Checked [] r v = record {
    valid = v;
    same_world = refl;
    gone = λ p. (inl, λ h. elim h [ inl g ↦ g | inr (l, d) ↦ absurd l ]);
  }
  check_all-Checked (ps ∷ pss) r v =
      let c = check_peer-Checked ps r v in join ps pss r _ _ c (check_all-Checked pss _ c.valid)

  -- The peers of a list whose last successful query is longer ago than the grace period.
  abbrev pub Overdue : M → PeerId → List PeerInfo → Type 0
  Overdue r p [] = ⊥
  Overdue r p (q ∷ qs) =
      ((q.id ≡ p) × (r.grace_period + q.last_successful_outbound_query_at < N.now r.world))
      ⊎ Overdue r p qs

  due-Overdue :
      (r : M) (p : PeerId) (qs : List PeerInfo)
      → Listed p (keep (is_due P D N r) qs) ↔ Overdue r p qs
  unfolding keep is_due
  due-Overdue r p [] = (λ h. h, λ h. h)
  due-Overdue r p (q ∷ qs) =
      let (there, back) = due-Overdue r p qs in
      elim (Bool-cases (is_due P D N r q)) [
        | inl e ↦
            let late : r.grace_period + q.last_successful_outbound_query_at < N.now r.world =
              ground (arith, e) in
            rw e (
              λ h. elim h [ inl a ↦ inl (a, late) | inr b ↦ inr (there b) ],
              λ h. elim h [ inl (a, _) ↦ inl a | inr b ↦ inr (back b) ],
            )
        | inr e ↦ rw e (
          λ h. inr (there h),
          λ h. elim h [ inl (_, late) ↦ absurd (ground (arith, e, late)) | inr b ↦ back b ],
        )
      ]

  pub ping_and_evict-valid :
      (order : List PeerInfo → List PeerInfo) (r : M)
      → IsValid P r.table
      → IsValid P (ping_and_evict_peers P D N order r).table
  unfolding ping_and_evict_peers
  ping_and_evict-valid order r v =
      (check_all-Checked (order (keep (is_due P D N r) (get_peer_infos r.table))) r v).valid

  -- In whatever order the goroutines of pingAndEvictPeers end, a valid table stays valid, and a
  -- peer is missing from it afterwards exactly if it was before, or if it is a peer of the table
  -- whose last successful query is longer ago than the grace period, and to which the connection
  -- fails, or that does not answer.
  pub ping_and_evict-exact :
      (order : List PeerInfo → List PeerInfo) (r : M)
      → ((p : PeerId) (qs : List PeerInfo) → Listed p (order qs) ↔ Listed p qs)
      → IsValid P r.table
      → let r' = ping_and_evict_peers P D N order r in
        IsValid P r'.table
        × ((p : PeerId)
            → Gone p r' ↔ (
                Gone p r
                ⊎ (Overdue r p (get_peer_infos r.table)
                    × ((N.connects p r.world ≡ false) ⊎ (N.answers_ping p r.world ≡ false)))))
  unfolding ping_and_evict_peers
  ping_and_evict-exact order r same v =
      let due = keep (is_due P D N r) (get_peer_infos r.table) in
      let c = check_all-Checked (order due) r v in
      (
        c.valid,
        λ p.
            let (listed, back) = same p due in
            let (late, on_time) = due-Overdue r p (get_peer_infos r.table) in
            (
              λ g. elim ((c.gone p).0 g) [
                | inl h ↦ inl h
                | inr (l, d) ↦ inr (late (listed l), (fails r p).0 d)
              ],
              λ h.
                  (c.gone p).1 (elim h [
                    | inl g ↦ inl g
                    | inr (l, d) ↦ inr (back (on_time l), (fails r p).1 d)
                  ]),
            ),
      )
