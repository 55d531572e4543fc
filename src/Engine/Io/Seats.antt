-- ===== src/Engine/Io/Seats.antt =====
-- src/sfu/engine_io.rs: draining the peers and reading the socket keep every seat.
use ababilx_chat_sfu.Shared.{ℕ, ◌≡◌, refl, ap, Option, some, List, [], ◌∷◌, map, arith}
use ababilx_chat_sfu.Media.{Deps, Driver, Input}
use ababilx_chat_sfu.Tracks.{Arcs, Propagated}
use ababilx_chat_sfu.Peer.{Peer}
use ababilx_chat_sfu.Peer.Identity.{who-handle_input}
use ababilx_chat_sfu.Peer.Poll.{handle_input}
use ababilx_chat_sfu.Room.{Room, propagate}
use ababilx_chat_sfu.Engine.{Engine}
use ababilx_chat_sfu.Engine.Cards.{Card, seats-cards, SameCards-SameSeats}
use ababilx_chat_sfu.Engine.Seats.{seat_of, seats_of, SameSeats}
use ababilx_chat_sfu.Engine.Io.{Drained, poll_room, poll_rooms, read_once, tell_time}
use ababilx_chat_sfu.Engine.Io.Keeps.{
  cards-propagate, cards-poll_room, poll_rooms-SameCards, read_once-SameCards, tell_time-SameCards,
}

module _ {d : Deps} where
  pub seats-map :
      (f : Peer d → Peer d) (ps : List (Peer d))
      → ((p : Peer d) → seat_of (f p) ≡ seat_of p)
      → map seat_of (map f ps) ≡ map seat_of ps
  seats-map f [] h = refl
  seats-map f (p ∷ ps) h = ground (arith, seats-map f ps h, h p)

  pub seat-handle_input :
      (v : Driver d) (input : Input d) (p : Peer d) → seat_of (handle_input v input p) ≡ seat_of p
  seat-handle_input v input p = ap (λ (c : Card). (c.0, c.1)) (who-handle_input v input p)

  pub seats-propagate :
      (h : Arcs d) (x : Propagated d) (r : Room d) → seats_of (propagate h x r) ≡ seats_of r
  seats-propagate h x r = seats-cards r (propagate h x r) (cards-propagate h x r)

  pub seats-poll_room :
      (v : Driver d) (fuel now wake : ℕ) (h : Arcs d) (r : Room d) (x : Drained d (Room d))
      → poll_room v fuel now wake h r ≡ some x
      → seats_of x.value ≡ seats_of r
  seats-poll_room v fuel now wake h r x e =
      seats-cards r x.value (cards-poll_room v fuel now wake h r x e)

  pub poll_rooms-SameSeats :
      (v : Driver d) (fuel now : ℕ) (e f : Engine d) (wake : ℕ)
      → poll_rooms v fuel now e ≡ some (f, wake)
      → SameSeats e f
  poll_rooms-SameSeats v fuel now e f wake h =
      SameCards-SameSeats (poll_rooms-SameCards v fuel now e f wake h)

  pub read_once-SameSeats :
      (v : Driver d) (now : ℕ) (got : Option (d.Address × d.Contents)) (e : Engine d)
      → SameSeats e (read_once v now got e)
  read_once-SameSeats v now got e = SameCards-SameSeats (read_once-SameCards v now got e)

  pub tell_time-SameSeats :
      (v : Driver d) (now : ℕ) (e : Engine d) → SameSeats e (tell_time v now e)
  tell_time-SameSeats v now e = SameCards-SameSeats (tell_time-SameCards v now e)
