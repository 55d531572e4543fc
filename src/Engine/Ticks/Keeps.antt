-- ===== src/Engine/Ticks/Keeps.antt =====
-- src/sfu/engine_io.rs: reporting arrivals and speakers keeps every seat.
use mathlib.Core.Option
use ababilx_chat_sfu.Shared.{
  ℕ, ◌-◌, ◌≡◌, refl, String, List, [], ◌∷◌, arith, ltb, string_Eq, Bool-cases, inl, inr, lookup,
  lookup-map_values, lookup-cons,
}
use ababilx_chat_sfu.Media.{Deps}
use ababilx_chat_sfu.Report
use ababilx_chat_sfu.Peer.{Peer}
use ababilx_chat_sfu.Room.{Room, sync_speaking}
use ababilx_chat_sfu.Engine.{Engine, report_event}
use ababilx_chat_sfu.Engine.Seats.{
  seat_of, seats_of, SameSeats, SameSeats-refl, SameSeats-trans, report_event-SameSeats,
  seats-Option_map,
}
use ababilx_chat_sfu.Engine.Cards.{
  cards_of, SameCards, SameCards-refl, SameCards-trans, SameCards-SameSeats, emit-SameCards,
}
use ababilx_chat_sfu.Engine.Io.Seats.{seats-map}
use ababilx_chat_sfu.Engine.Ticks.{
  mark_peer, mark_room, arrivals, report_joined, report_connections, sync_rooms, tick_speaking,
  speaking_tick,
}

module _ {d : Deps} where
  pub seat-mark_peer : (p : Peer d) → seat_of (mark_peer p) ≡ seat_of p
  unfolding mark_peer
  seat-mark_peer p = ground arith

  seats-mark_room : (r : Room d) → seats_of (mark_room r) ≡ seats_of r
  unfolding mark_room
  seats-mark_room r = seats-map mark_peer r.peers seat-mark_peer

  report_joined-SameSeats :
      (who : List (String × String)) (e : Engine d) → SameSeats e (report_joined who e)
  unfolding report_joined
  report_joined-SameSeats [] e = SameSeats-refl e
  report_joined-SameSeats ((name, user) ∷ rest) e =
      SameSeats-trans
        (report_event-SameSeats (λ r. Report.identity r user) "participant_joined" name e)
        (report_joined-SameSeats rest
          (report_event (λ r. Report.identity r user) "participant_joined" name e))

  pub report_connections-SameSeats : (e : Engine d) → SameSeats e (report_connections e)
  unfolding report_connections
  report_connections-SameSeats e =
      SameSeats-trans
        (record {
          same_rooms = λ m.
              rw lookup-map_values (seats-Option_map mark_room (lookup m e.rooms) seats-mark_room);
          same_index = refl;
          same_config = refl;
          same_next = refl;
        })
        (report_joined-SameSeats (arrivals e) _)

  cards-sync_speaking : (now : ℕ) (r : Room d) → cards_of (sync_speaking now r).0 ≡ cards_of r
  unfolding sync_speaking
  cards-sync_speaking now r = ground arith

  cards-sync_rooms :
      (now : ℕ) (rooms : List (String × Room d)) (m : String)
      → Option.map cards_of (lookup m (sync_rooms now rooms).0)
        ≡ Option.map cards_of (lookup m rooms)
  unfolding sync_rooms
  cards-sync_rooms now [] m = refl
  cards-sync_rooms now ((name, r) ∷ rest) m = ground (
    arith,
    lookup-cons m name r rest,
    lookup-cons m name (sync_speaking now r).0 (sync_rooms now rest).0,
    cards-sync_speaking now r,
    cards-sync_rooms now rest m,
  )

  pub tick_speaking-SameCards : (now : ℕ) (e : Engine d) → SameCards e (tick_speaking now e)
  unfolding tick_speaking
  tick_speaking-SameCards now e = elim (Bool-cases (ltb (now - e.last_speaking) speaking_tick)) [
    | inl early ↦ rw (early, tick_speaking) (SameCards-refl e)
    | inr due ↦
        rw (due, tick_speaking)
          (SameCards-trans
            (record {
              same_rooms = cards-sync_rooms now e.rooms;
              same_index = refl;
              same_config = refl;
              same_next = refl;
            })
            (emit-SameCards _ _))
  ]

  pub tick_speaking-SameSeats : (now : ℕ) (e : Engine d) → SameSeats e (tick_speaking now e)
  tick_speaking-SameSeats now e = SameCards-SameSeats (tick_speaking-SameCards now e)
