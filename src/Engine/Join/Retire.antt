-- ===== src/Engine/Join/Retire.antt =====
-- src/sfu/join.rs, the removal of the stale peers, on the view of who sits where.
use ababilx_chat_sfu.Shared.{
  ℕ, ◌≡◌, ◌≢◌, refl, ap, ◌∙◌, String, not, none, List, [], ◌∷◌, ◌++◌, map, arith, if◌then◌else◌,
  ◌==◌, nat_Eq, string_Eq, Bool-cases, inl, inr, lookup, lookup-remove, All, keep, length-append,
  length,
}
use ababilx_chat_sfu.Media.{Deps}
use ababilx_chat_sfu.Hall.{Seat, of_user, seated, vacate, sit, Distinct}
use ababilx_chat_sfu.Peer.{Peer}
use ababilx_chat_sfu.Room.{
  Room, has_id, peer_of, subscribe, subscribe_all, existing, subscribe_to_existing,
}
use ababilx_chat_sfu.Room
use ababilx_chat_sfu.Engine.{Engine, JoinRequest}
use ababilx_chat_sfu.Engine.Seats.{
  seat_of, seats_of, seats_in, seats-remove, remove-none, seats-update_first,
}
use ababilx_chat_sfu.Engine.Join.{Seating, retire_one, retire, room_or_new}

abbrev pub vacate_all : List ℕ → List Seat → List Seat
vacate_all [] seats = seats
vacate_all (id ∷ ids) seats = vacate_all ids (vacate id seats)

abbrev pub ids_of : List Seat → List ℕ
ids_of = map (λ (s : Seat). s.0)

vacate_all-cons :
    (ids : List ℕ) (s : Seat) (seats : List Seat)
    → All (λ (i : ℕ). i ≢ s.0) ids
    → vacate_all ids (s ∷ seats) ≡ s ∷ vacate_all ids seats
vacate_all-cons [] s seats h = refl
vacate_all-cons (id ∷ ids) s seats h = ground (arith, vacate_all-cons ids s (vacate id seats) h.1)

ids-ne-keep :
    (user : String) (s : Seat) (seats : List Seat)
    → All (λ (t : Seat). (t.0 ≢ s.0) × (t.1 ≢ s.1)) seats
    → All (λ (i : ℕ). i ≢ s.0) (ids_of (keep (of_user user) seats))
ids-ne-keep user s [] h = tt
ids-ne-keep user s (t ∷ seats) h = elim (Bool-cases (of_user user t)) [
  | inl e ↦ rw e (h.0.0, ids-ne-keep user s seats h.1)
  | inr e ↦ rw e (ids-ne-keep user s seats h.1)
]

-- Giving up the seats of a user one by one leaves the seats of the others.
pub vacate_all-keep :
    (user : String) (seats : List Seat)
    → Distinct seats
    → vacate_all (ids_of (keep (of_user user) seats)) seats ≡ keep (λ s. not (of_user user s)) seats
vacate_all-keep user [] h = refl
vacate_all-keep user (s ∷ seats) h = ground (
  arith,
  vacate_all-keep user seats h.1,
  vacate_all-cons (ids_of (keep (of_user user) seats)) s seats (ids-ne-keep user s seats h.0),
)

pub sit-ne-nil : (id : ℕ) (user : String) (seats : List Seat) → sit id user seats ≢ []
sit-ne-nil id user seats h = omega (
  arith,
  ap (length {A = Seat}) h,
  length-append {0} (keep (λ s. not (of_user user s)) seats) ((id, user) ∷ []),
)

module _ {d : Deps} where
  seats-retire_one :
      (old : ℕ) (s : Seating d) → seats_of (retire_one old s).room ≡ vacate old (seats_of s.room)
  unfolding retire_one
  seats-retire_one old s = ground (arith, seats-remove old s.room, remove-none old s.room)

  home-retire_one :
      (old : ℕ) (s : Seating d) (j : ℕ)
      → lookup j (retire_one old s).peer_rooms ≡ (if old == j then none else lookup j s.peer_rooms)
  unfolding retire_one
  home-retire_one old s j = ground (arith, lookup-remove old j s.peer_rooms)

  pub seats-retire :
      (ids : List ℕ) (s : Seating d)
      → seats_of (retire ids s).room ≡ vacate_all ids (seats_of s.room)
  unfolding retire
  seats-retire [] s = refl
  seats-retire (id ∷ ids) s =
      seats-retire ids (retire_one id s) ∙ ap (vacate_all ids) (seats-retire_one id s)

  pub home-retire :
      (seats : List Seat) (s : Seating d) (j : ℕ)
      → lookup j (retire (ids_of seats) s).peer_rooms
        ≡ (if seated j seats then none else lookup j s.peer_rooms)
  unfolding retire
  home-retire [] s j = refl
  home-retire (t ∷ seats) s j =
      ground (arith, home-retire seats (retire_one t.0 s) j, home-retire_one t.0 s j)

  pub stale_ids :
      (user : String) (ps : List (Peer d))
      → map (λ (p : Peer d). p.id) (keep (λ p. p.user_id == user) ps)
        ≡ ids_of (keep (of_user user) (map seat_of ps))
  stale_ids user [] = refl
  stale_ids user (p ∷ ps) = ground (arith, stale_ids user ps)

  seats-subscribe_all : (ws : List ℕ) (p : Peer d) → seat_of (subscribe_all ws p) ≡ seat_of p
  unfolding subscribe_all
  seats-subscribe_all [] p = refl
  seats-subscribe_all (w ∷ ws) p = seats-subscribe_all ws (subscribe w p)

  pub seats-subscribe_to_existing :
      (id : ℕ) (r : Room d) → seats_of (subscribe_to_existing id r) ≡ seats_of r
  unfolding subscribe_to_existing
  seats-subscribe_to_existing id r =
      seats-update_first (has_id id) (subscribe_all (existing id r)) r.peers
        (seats-subscribe_all (existing id r))

  pub seats-room_or_new :
      (q : JoinRequest) (e : Engine d)
      → seats_of (room_or_new q e) ≡ seats_in (lookup q.claims.room e.rooms)
  unfolding room_or_new Room.new
  seats-room_or_new q e = ground arith

  pub seats-append-one :
      (ps : List (Peer d)) (p : Peer d)
      → map seat_of (ps ++ p ∷ []) ≡ map seat_of ps ++ seat_of p ∷ []
  seats-append-one [] p = refl
  seats-append-one (q ∷ ps) p = ground (arith, seats-append-one ps p)
