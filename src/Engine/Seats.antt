-- ===== src/Engine/Seats.antt =====
-- The view of an engine as a `Hall`, and the invariant of the media loop.
use mathlib.Core.Option
use ababilx_chat_sfu.Shared.{
  ℕ, ◌<◌, ◌≡◌, ◌≢◌, refl, ap, sym, ◌∙◌, fun_ext, update_first, String, Bool, true, false, Option,
  none, some, List, [], ◌∷◌, map, arith, nat_Eq, string_Eq, find, remove_first, Bool-cases,
  Option-cases, inl, inr, lookup,
}
use ababilx_chat_sfu.Media.{Deps}
use ababilx_chat_sfu.Hall.{Seat, seated, vacate, Hall, IsConsistent}
use ababilx_chat_sfu.Hall.Vacate.{vacate_absent}
use ababilx_chat_sfu.Peer.{Peer, Effect}
use ababilx_chat_sfu.Room.{Room, has_id, peer_of}
use ababilx_chat_sfu.Room
use ababilx_chat_sfu.Report.{ReportEvent}
use ababilx_chat_sfu.Config.{Config}
use ababilx_chat_sfu.Engine.{Engine, emit, report_event}

abbrev or_none : Option (List Seat) → List Seat
or_none none = []
or_none (some s) = s

module _ {d : Deps} where
  abbrev pub seat_of : Peer d → Seat
  seat_of p = (p.id, p.user_id)

  abbrev pub seats_of : Room d → List Seat
  seats_of r = map seat_of r.peers

  abbrev pub seats_in : Option (Room d) → List Seat
  seats_in none = []
  seats_in (some r) = seats_of r

  abbrev pub hall : Engine d → Hall
  hall e = record { members = λ m. seats_in (lookup m e.rooms); home = λ j. lookup j e.peer_rooms }

  -- Rooms and index agree, ids are fresh, users are in a room once, and no room is empty.
  pub record IsValid (e : Engine d) : Type 0 where
    pub consistent : IsConsistent e.config.max_room_peers e.next_peer (hall e)
    pub room_for_one : 0 < e.config.max_room_peers
    pub no_empty : (m : String) (r : Room d) → lookup m e.rooms ≡ some r → r.peers ≢ []

  pub seats-remove_first :
      (id : ℕ) (ps : List (Peer d))
      → map seat_of (remove_first (has_id id) ps) ≡ vacate id (map seat_of ps)
  seats-remove_first id [] = refl
  seats-remove_first id (p ∷ ps) = ground (arith, seats-remove_first id ps)

  find-seated :
      (id : ℕ) (ps : List (Peer d))
      → find (has_id id) ps ≡ none
      → seated id (map seat_of ps) ≡ false
  find-seated id [] h = refl
  find-seated id (p ∷ ps) h = ground (arith, find-seated id ps)

  pub find-id :
      (id : ℕ) (ps : List (Peer d)) (p : Peer d) → find (has_id id) ps ≡ some p → p.id ≡ id
  find-id id [] p h = cc
  find-id id (q ∷ ps) p h = ground (arith, find-id id ps p)

  -- A seated id is found, and the room without it holds the other seats.
  pub remove-seated :
      (id : ℕ) (r : Room d)
      → seated id (seats_of r) ≡ true
      → (p : Peer d) × (peer_of id r ≡ some p)
        × ((Room.remove id r).0 ≡ some p)
        × (seats_of (Room.remove id r).1 ≡ vacate id (seats_of r))
  unfolding Room.remove peer_of
  remove-seated id r h = elim (Option-cases (find (has_id id) r.peers)) [
    | inl e ↦ ground (arith, find-seated id r.peers)
    | inr (p, e) ↦ (p, e, rw (e, Room.remove), rw (e, Room.remove) (seats-remove_first id r.peers))
  ]

  pub seats-remove : (id : ℕ) (r : Room d) → seats_of (Room.remove id r).1 ≡ vacate id (seats_of r)
  unfolding Room.remove peer_of
  seats-remove id r = elim (Bool-cases (seated id (seats_of r))) [
    | inl here ↦ (remove-seated id r here).3
    | inr missing ↦
        ground (arith, vacate_absent id (seats_of r) missing, seats-remove_first id r.peers)
  ]

  pub remove-none : (id : ℕ) (r : Room d) → (Room.remove id r).0 ≡ none → (Room.remove id r).1 ≡ r
  unfolding Room.remove
  remove-none id r h = ground arith

  -- `f` has the seats of `e`: no peer came or went.
  pub record SameSeats (e f : Engine d) : Type 0 where
    pub same_rooms :
        (m : String)
        → Option.map seats_of (lookup m f.rooms) ≡ Option.map seats_of (lookup m e.rooms)
    pub same_index : f.peer_rooms ≡ e.peer_rooms
    pub same_config : f.config ≡ e.config
    pub same_next : f.next_peer ≡ e.next_peer

  pub SameSeats-refl : (e : Engine d) → SameSeats e e
  SameSeats-refl e = record {
    same_rooms = λ m. refl;
    same_index = refl;
    same_config = refl;
    same_next = refl;
  }

  pub SameSeats-trans : {e f g : Engine d} → SameSeats e f → SameSeats f g → SameSeats e g
  SameSeats-trans s t = record {
    same_rooms = λ m. t.same_rooms m ∙ s.same_rooms m;
    same_index = t.same_index ∙ s.same_index;
    same_config = t.same_config ∙ s.same_config;
    same_next = t.same_next ∙ s.same_next;
  }

  seats_in-map : (o : Option (Room d)) → seats_in o ≡ or_none (Option.map seats_of o)
  seats_in-map none = refl
  seats_in-map (some r) = refl

  pub hall-SameSeats : {e f : Engine d} → SameSeats e f → hall f ≡ hall e
  hall-SameSeats {e} {f} s = λ i. record {
    members =
        fun_ext
          (λ m.
            seats_in-map (lookup m f.rooms)
            ∙ ap or_none (s.same_rooms m)
            ∙ sym (seats_in-map (lookup m e.rooms)))
          i;
    home = λ j. lookup j (s.same_index i);
  }

  nil-seats : (ps : List (Peer d)) → map seat_of ps ≡ [] → ps ≡ []
  nil-seats [] h = refl
  nil-seats (p ∷ ps) h = cc

  peers-ne-nil :
      (o : Option (Room d)) (r : Room d)
      → ((q : Room d) → o ≡ some q → q.peers ≢ [])
      → some (seats_of r) ≡ Option.map seats_of o
      → r.peers ≢ []
  peers-ne-nil none r h e empty = cc
  peers-ne-nil (some q) r h e empty = h q refl (nil-seats q.peers (ground (arith, empty)))

  pub SameSeats-IsValid : {e f : Engine d} → SameSeats e f → IsValid e → IsValid f
  SameSeats-IsValid {e} {f} s v = record {
    consistent =
        rw (hall-SameSeats s, ap (λ (c : Config d). c.max_room_peers) s.same_config, s.same_next)
          v.consistent;
    room_for_one = rw s.same_config v.room_for_one;
    no_empty = λ m r h.
        peers-ne-nil (lookup m e.rooms) r (v.no_empty m)
          (ap (Option.map seats_of) (sym h) ∙ s.same_rooms m);
  }

  pub seats-update_first :
      (test : Peer d → Bool) (f : Peer d → Peer d) (ps : List (Peer d))
      → ((p : Peer d) → seat_of (f p) ≡ seat_of p)
      → map seat_of (update_first test f ps) ≡ map seat_of ps
  seats-update_first test f [] h = refl
  seats-update_first test f (p ∷ ps) h = ground (arith, seats-update_first test f ps h, h p)

  -- What only writes to the log.
  pub emit-SameSeats : (fx : List (Effect d)) (e : Engine d) → SameSeats e (emit fx e)
  unfolding emit
  emit-SameSeats fx e = record {
    same_rooms = λ m. refl;
    same_index = refl;
    same_config = refl;
    same_next = refl;
  }

  pub report_event-SameSeats :
      (extend : ReportEvent → ReportEvent) (event room : String) (e : Engine d)
      → SameSeats e (report_event extend event room e)
  unfolding report_event
  report_event-SameSeats extend event room e = record {
    same_rooms = λ m. refl;
    same_index = refl;
    same_config = refl;
    same_next = refl;
  }

  pub seats-Option_map :
      (f : Room d → Room d) (o : Option (Room d))
      → ((r : Room d) → seats_of (f r) ≡ seats_of r)
      → Option.map seats_of (Option.map f o) ≡ Option.map seats_of o
  seats-Option_map f none h = refl
  seats-Option_map f (some r) h = ap some (h r)
