-- ===== src/Routing/Tests.antt =====
-- Runs of the routing, and each theorem at a concrete input.
use dep2p.Base.{
  ℕ, ◌-◌, ◌*◌, ◌/◌, ◌≤◌, ◌≡◌, ◌≢◌, ◌⊎◌, refl, subst, [], ◌∷◌, Option, none, some, length, arith,
}
use dep2p.Messages.{AddrInfo}
use dep2p.Routing.{
  Error, second, closer_deadline, Closest, classic_provide, Search, try_add, tries, sends,
}
use dep2p.Routing.Deadlines
use dep2p.Routing.Deadlines.{Within}
use dep2p.Routing.Found
use dep2p.Routing.Found.{nothing_found, SentWell, Reached, starts, steps}

closer_deadline_bounds_example :
    (d : ℕ) × (closer_deadline (3 * second) (8 * second) ≡ some d)
    × (3 * second ≤ d)
    × (d ≤ 8 * second)
    × (8 * second - d ≤ second)
    × ((8 * second - d ≡ second) ⊎ (8 * second - d ≡ (8 * second - 3 * second) / 10))
closer_deadline_bounds_example =
    Deadlines.closer_deadline_bounds (3 * second) (8 * second) (omega arith)

abbrev lookup : Option ℕ → Closest
lookup closer = record { peers = 4 ∷ 9 ∷ []; err = none }

classic_provide_complete_example :
    (closer : Option ℕ) × Within (3 * second) (some (8 * second)) closer
    × ((lookup closer).err ≡ none)
    × (◌≡◌ {A = Option Error} none none)
    × ((classic_provide (3 * second) (some (8 * second)) lookup none none).1
        ≡ (lookup closer).peers)
unfolding classic_provide
classic_provide_complete_example =
    Deadlines.classic_provide_complete (3 * second) (some (8 * second)) lookup none none refl

abbrev bare : AddrInfo
bare = record { id = 4; addrs = [] }

abbrev full : AddrInfo
full = record { id = 4; addrs = 8 ∷ [] }

abbrev added_bare : Search
added_bare = record { ps = (4, bare) ∷ []; adding = bare ∷ []; sent = [] }

abbrev added_both : Search
added_both = record { ps = (4, full) ∷ []; adding = full ∷ bare ∷ []; sent = [] }

abbrev sent_both : Search
sent_both = record { ps = (4, full) ∷ []; adding = []; sent = bare ∷ full ∷ [] }

add_bare : try_add 2 bare nothing_found ≡ added_bare
unfolding try_add
add_bare = refl

add_full : try_add 2 full added_bare ≡ added_both
unfolding try_add
add_full = refl

-- One goroutine adds a provider without addresses, another one adds it with addresses and sends it
-- before the first one sends its own.
sent_both-Reached : Reached 2 sent_both
sent_both-Reached =
    let one : Reached 2 added_bare =
      subst (λ s. Reached 2 s) add_bare (steps starts (tries nothing_found bare)) in
    let two : Reached 2 added_both =
      subst (λ s. Reached 2 s) add_full (steps one (tries added_bare full)) in
    let three = steps two (sends added_both [] full (bare ∷ []) refl) in
    steps three (sends (record added_both { adding = bare ∷ []; sent = full ∷ [] }) [] bare [] refl)

Reached-SentWell_example : (◌≢◌ {A = ℕ} 2 0 → length sent_both.ps ≤ 2) × SentWell sent_both.sent
Reached-SentWell_example = Found.Reached-SentWell 2 sent_both-Reached
