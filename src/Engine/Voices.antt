-- ===== src/Engine/Voices.antt =====
-- Who a room lists as speaking, src/sfu/room.rs: the list against the peers that are in the room.
pub mod Keeps
pub mod Moves
pub mod Joins
pub mod Turns
use mathlib.Core.Option
use ababilx_chat_sfu.Shared.{
  ℕ, ◌≡◌, refl, ap, sym, subst, ◌∙◌, String, Bool, true, false, not, ◌&&◌, Option, none, some, List,
  [], ◌∷◌, map, arith, ◌==◌, nat_Eq, string_Eq, if◌then◌else◌, All, All-keep, All-map, any, keep,
  lookup, Bool-cases, Option-cases, inl, inr,
}
use ababilx_chat_sfu.Media.{Deps}
use ababilx_chat_sfu.Hall.{Seat, vacate}
use ababilx_chat_sfu.Tracks.{as_string}
use ababilx_chat_sfu.Peer.{Peer, is_speaking}
use ababilx_chat_sfu.Room.{Room, peer_of, removed, sort, speakers, sync_speaking}
use ababilx_chat_sfu.Room
use ababilx_chat_sfu.Room.Speaking.{sync_speaking_lem}
use ababilx_chat_sfu.Room.Speaking.Sorted.{IsSorted, All-sort, speakers-IsSorted}
use ababilx_chat_sfu.Engine.{Engine}
use ababilx_chat_sfu.Engine.Seats.{seat_of, seats_of, seats-remove_first, SameSeats}

-- The texts are the ids of seats.
abbrev pub is_seated : List Seat → String → Bool
is_seated seats s = any (λ (t : Seat). as_string t.0 == s) seats

-- A list of speakers that is sorted and names only those who have a seat.
abbrev pub Fits : List Seat → List String → Type 0
Fits seats speaking = IsSorted speaking × All (λ s. is_seated seats s ≡ true) speaking

IsSorted-keep : (test : String → Bool) (ss : List String) → IsSorted ss → IsSorted (keep test ss)
IsSorted-keep test [] h = tt
IsSorted-keep test (s ∷ ss) h = elim (Bool-cases (test s)) [
  | inl y ↦ rw y (All-keep _ test ss h.0, IsSorted-keep test ss h.1)
  | inr n ↦ rw n (IsSorted-keep test ss h.1)
]

-- Another id keeps its seat.
still_seated :
    (id : ℕ) (s : String) (seats : List Seat)
    → (s == as_string id) ≡ false
    → is_seated seats s ≡ true
    → is_seated (vacate id seats) s ≡ true
still_seated id s [] h k = k
still_seated id s (t ∷ seats) h k = elim (Bool-cases (t.0 == id)) [
  | inl this ↦
      let same = ap as_string ((nat_Eq.matches_iff t.0 id).0 this) in
      ground (
        arith,
        this,
        h,
        k,
        same,
        string_Eq.matches_iff (as_string t.0) s,
        string_Eq.matches_iff s (as_string id),
      )
  | inr other ↦ ground (arith, other, k, still_seated id s seats h)
]

seated_kept :
    (id : ℕ) (seats : List Seat) (ss : List String)
    → All (λ s. is_seated seats s ≡ true) ss
    → All (λ s. is_seated (vacate id seats) s ≡ true) (keep (λ s. not (s == as_string id)) ss)
seated_kept id seats [] h = tt
seated_kept id seats (s ∷ ss) h = elim (Bool-cases (s == as_string id)) [
  | inl gone ↦ rw gone (seated_kept id seats ss h.1)
  | inr other ↦ rw other (still_seated id s seats other h.0, seated_kept id seats ss h.1)
]

seated_more :
    (t : Seat) (seats : List Seat) (ss : List String)
    → All (λ s. is_seated seats s ≡ true) ss
    → All (λ s. is_seated (t ∷ seats) s ≡ true) ss
seated_more t seats ss h =
    All-map _ (λ s. is_seated (t ∷ seats) s ≡ true) ss (λ s k. ground (arith, k)) h

module _ {d : Deps} where
  seated_ids :
      (test : Peer d → Bool) (ps : List (Peer d))
      → All
          (λ s. is_seated (map seat_of ps) s ≡ true)
          (map (λ (p : Peer d). as_string p.id) (keep test ps))
  seated_ids test [] = tt
  seated_ids test (p ∷ ps) =
      let more = seated_more (seat_of p) (map seat_of ps) _ (seated_ids test ps) in
      elim (Bool-cases (test p)) [
        | inl y ↦
            rw y (ground (arith, string_Eq.matches_iff (as_string p.id) (as_string p.id)), more)
        | inr n ↦ rw n more
      ]

  Fits-speakers : (now : ℕ) (r : Room d) → Fits (seats_of r) (speakers now r)
  unfolding speakers
  Fits-speakers now r = (
    speakers-IsSorted now r,
    All-sort _ _ (seated_ids (λ p. not p.muted && is_speaking p now) r.peers),
  )

  pub Fits-sync_speaking :
      (now : ℕ) (r : Room d) → let s = (sync_speaking now r).0 in Fits (seats_of s) s.speaking
  Fits-sync_speaking now r =
      let (listed, same, _, _) = sync_speaking_lem now r in
      subst (λ ps. Fits (map seat_of ps) (sync_speaking now r).0.speaking)
        (sym (ap (λ (s : Room d). s.peers) same))
        (subst (Fits (seats_of r)) (sym listed) (Fits-speakers now r))

  pub Fits-remove :
      (id : ℕ) (r : Room d)
      → Fits (seats_of r) r.speaking
      → let s = (Room.remove id r).1 in Fits (seats_of s) s.speaking
  unfolding Room.remove removed
  Fits-remove id r h = elim (Option-cases (peer_of id r)) [
    | inl n ↦ rw (n, Room.remove) h
    | inr (p, found) ↦
        rw (found, Room.remove, seats-remove_first)
          (IsSorted-keep _ r.speaking h.0, seated_kept id (seats_of r) r.speaking h.1)
  ]

  -- Every room lists in order, and only peers that are in it, as speaking.
  pub record IsVoiced (e : Engine d) : Type 0 where
    pub heard : (m : String) (r : Room d) → lookup m e.rooms ≡ some r → Fits (seats_of r) r.speaking

  abbrev pub speaking_of : Room d → List String
  speaking_of r = r.speaking

  -- The rooms list the same speakers as before.
  abbrev pub SameSpeaking : Engine d → Engine d → Type 0
  SameSpeaking e f =
      (m : String)
      → Option.map speaking_of (lookup m f.rooms) ≡ Option.map speaking_of (lookup m e.rooms)

  fits_in :
      (o : Option (Room d)) (s : Room d)
      → ((r : Room d) → o ≡ some r → Fits (seats_of r) r.speaking)
      → some (seats_of s) ≡ Option.map seats_of o
      → some s.speaking ≡ Option.map speaking_of o
      → Fits (seats_of s) s.speaking
  fits_in none s h a b = cc
  fits_in (some r) s h a b =
      subst (λ x. Fits x s.speaking) (sym (Option.some-injective _ _ a))
        (subst (Fits (seats_of r)) (sym (Option.some-injective _ _ b)) (h r refl))

  pub IsVoiced-same : {e f : Engine d} → SameSeats e f → SameSpeaking e f → IsVoiced e → IsVoiced f
  IsVoiced-same {e} {f} seats speaking v = record {
    heard = λ m s there.
        fits_in (lookup m e.rooms) s (v.heard m)
          (ap (Option.map seats_of) (sym there) ∙ seats.same_rooms m)
          (ap (Option.map speaking_of) (sym there) ∙ speaking m);
  }
