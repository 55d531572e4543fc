-- ===== src/Wiring/Rooms.antt =====
-- The wiring of a whole room: its peers are wired up with one another and with nobody else.
use ababilx_chat_sfu.Shared.{
  ℕ, ◌≡◌, ◌≢◌, ap, Bool, true, false, List, [], ◌∷◌, map, nat_Eq, All, All-map, arith, Bool-cases,
  inl, inr,
}
use ababilx_chat_sfu.Media.{Deps}
use ababilx_chat_sfu.Tracks.{Arcs}
use ababilx_chat_sfu.Peer.{Peer}
use ababilx_chat_sfu.Room.{Room}
use ababilx_chat_sfu.Hall.{Seat, seated, Distinct}
use ababilx_chat_sfu.Engine.Seats.{seat_of, seats_of}
use ababilx_chat_sfu.Engine.Io.Spreads.{Apart, AllApart}
use ababilx_chat_sfu.Wiring.{IsTuned}

seated-cons :
    (j : ℕ) (s : Seat) (seats : List Seat) → seated j seats ≡ true → seated j (s ∷ seats) ≡ true
seated-cons j s seats h = ground (arith, h)

module _ {d : Deps} where
  -- Who is in the room.
  abbrev pub here : Room d → ℕ → Bool
  here r j = seated j (seats_of r)

  -- Every peer publishes exactly the live tracks that name it, and is subscribed exactly once to every
  -- live track of the others in the room, and to no other live track.
  abbrev pub IsWired : Arcs d → Room d → Type 0
  IsWired h r = All (IsTuned h (here r) []) r.peers

  -- Two rooms without a common peer.
  abbrev pub Foreign : Room d → Room d → Type 0
  Foreign r s = (j : ℕ) → here r j ≡ true → here s j ≡ false

  pub Foreign-sym : (r s : Room d) → Foreign r s → Foreign s r
  Foreign-sym r s f j in_s = elim (Bool-cases (here r j)) [
    | inl in_r ↦ absurd (ground (arith, in_s, f j in_r))
    | inr out ↦ out
  ]

  pub All-seated :
      (ps : List (Peer d)) → All (λ (p : Peer d). seated p.id (map seat_of ps) ≡ true) ps
  All-seated [] = tt
  All-seated (p ∷ ps) = (
    ground (arith, nat_Eq.matches_iff p.id p.id),
    All-map _ _ ps (λ q h. seated-cons q.id (seat_of p) (map seat_of ps) h) (All-seated ps),
  )

  apart-seats :
      (p : Peer d) (ps : List (Peer d))
      → All (λ (t : Seat). (t.0 ≢ p.id) × (t.1 ≢ p.user_id)) (map seat_of ps)
      → All (λ (q : Peer d). q.id ≢ p.id) ps
  apart-seats p [] h = tt
  apart-seats p (q ∷ ps) h = (h.0.0, apart-seats p ps h.1)

  pub AllApart-Distinct : (ps : List (Peer d)) → Distinct (map seat_of ps) → AllApart ps
  AllApart-Distinct [] h = tt
  AllApart-Distinct (p ∷ ps) h = (apart-seats p ps h.0, AllApart-Distinct ps h.1)

  pub Apart-present :
      (j : ℕ) (present : ℕ → Bool) (ps : List (Peer d))
      → present j ≡ false
      → All (λ (p : Peer d). present p.id ≡ true) ps
      → Apart j ps
  Apart-present j present [] out h = tt
  Apart-present j present (p ∷ ps) out h =
      (λ e. ground (arith, out, h.0, ap present e), Apart-present j present ps out h.1)
