-- ===== src/Engine/Cards.antt =====
-- A finer view of an engine than its seats: who is in which room, and whose arrival was reported.
use mathlib.Core.Option
use ababilx_chat_sfu.Shared.{
  ℕ, ◌≡◌, refl, ap, sym, ◌∙◌, update_first, String, Bool, Option, none, some, List, [], ◌∷◌, map,
  arith, lookup, string_Eq,
}
use ababilx_chat_sfu.Media.{Deps}
use ababilx_chat_sfu.Peer.{Peer, Effect}
use ababilx_chat_sfu.Room.{Room}
use ababilx_chat_sfu.Report.{ReportEvent}
use ababilx_chat_sfu.Engine.{Engine, emit, report_event}
use ababilx_chat_sfu.Engine.Seats.{seat_of, seats_of, SameSeats}

-- The id and the user of a peer, and whether its arrival was reported.
abbrev pub Card : Type 0
Card = ℕ × String × Bool

module _ {d : Deps} where
  abbrev pub card_of : Peer d → Card
  card_of p = (p.id, p.user_id, p.reported)

  abbrev pub cards_of : Room d → List Card
  cards_of r = map card_of r.peers

  -- `f` has the cards of `e`: no peer came or went, and no arrival was reported.
  pub record SameCards (e f : Engine d) : Type 0 where
    pub same_rooms :
        (m : String)
        → Option.map cards_of (lookup m f.rooms) ≡ Option.map cards_of (lookup m e.rooms)
    pub same_index : f.peer_rooms ≡ e.peer_rooms
    pub same_config : f.config ≡ e.config
    pub same_next : f.next_peer ≡ e.next_peer

  pub SameCards-refl : (e : Engine d) → SameCards e e
  SameCards-refl e = record {
    same_rooms = λ m. refl;
    same_index = refl;
    same_config = refl;
    same_next = refl;
  }

  pub SameCards-trans : {e f g : Engine d} → SameCards e f → SameCards f g → SameCards e g
  SameCards-trans s t = record {
    same_rooms = λ m. t.same_rooms m ∙ s.same_rooms m;
    same_index = t.same_index ∙ s.same_index;
    same_config = t.same_config ∙ s.same_config;
    same_next = t.same_next ∙ s.same_next;
  }

  seats-card :
      (ps : List (Peer d)) → map seat_of ps ≡ map (λ (c : Card). (c.0, c.1)) (map card_of ps)
  seats-card [] = refl
  seats-card (p ∷ ps) = ap (λ l. seat_of p ∷ l) (seats-card ps)

  pub seats-cards : (r s : Room d) → cards_of s ≡ cards_of r → seats_of s ≡ seats_of r
  seats-cards r s same =
      seats-card s.peers ∙ ap (map (λ (c : Card). (c.0, c.1))) same ∙ sym (seats-card r.peers)

  seats_in_cards :
      (o q : Option (Room d))
      → Option.map cards_of q ≡ Option.map cards_of o
      → Option.map seats_of q ≡ Option.map seats_of o
  seats_in_cards none none h = refl
  seats_in_cards none (some q) h = cc
  seats_in_cards (some r) none h = cc
  seats_in_cards (some r) (some q) h = ap some (seats-cards r q (Option.some-injective _ _ h))

  pub SameCards-SameSeats : {e f : Engine d} → SameCards e f → SameSeats e f
  SameCards-SameSeats {e} {f} s = record {
    same_rooms = λ m. seats_in_cards (lookup m e.rooms) (lookup m f.rooms) (s.same_rooms m);
    same_index = s.same_index;
    same_config = s.same_config;
    same_next = s.same_next;
  }

  pub cards-map :
      (f : Peer d → Peer d) (ps : List (Peer d))
      → ((p : Peer d) → card_of (f p) ≡ card_of p)
      → map card_of (map f ps) ≡ map card_of ps
  cards-map f [] h = refl
  cards-map f (p ∷ ps) h = ground (arith, cards-map f ps h, h p)

  pub cards-update_first :
      (test : Peer d → Bool) (f : Peer d → Peer d) (ps : List (Peer d))
      → ((p : Peer d) → card_of (f p) ≡ card_of p)
      → map card_of (update_first test f ps) ≡ map card_of ps
  cards-update_first test f [] h = refl
  cards-update_first test f (p ∷ ps) h = ground (arith, cards-update_first test f ps h, h p)

  pub cards-Option_map :
      (f : Room d → Room d) (o : Option (Room d))
      → ((r : Room d) → cards_of (f r) ≡ cards_of r)
      → Option.map cards_of (Option.map f o) ≡ Option.map cards_of o
  cards-Option_map f none h = refl
  cards-Option_map f (some r) h = ap some (h r)

  -- What only writes to the log.
  pub emit-SameCards : (fx : List (Effect d)) (e : Engine d) → SameCards e (emit fx e)
  unfolding emit
  emit-SameCards fx e = record {
    same_rooms = λ m. refl;
    same_index = refl;
    same_config = refl;
    same_next = refl;
  }

  pub report_event-SameCards :
      (extend : ReportEvent → ReportEvent) (event room : String) (e : Engine d)
      → SameCards e (report_event extend event room e)
  unfolding report_event
  report_event-SameCards extend event room e = record {
    same_rooms = λ m. refl;
    same_index = refl;
    same_config = refl;
    same_next = refl;
  }
