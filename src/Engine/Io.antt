-- ===== src/Engine/Io.antt =====
-- src/sfu/engine_io.rs: how the media loop drains its peers and reads the socket. `now` is the
-- instant of the call. The loop over one peer's output ends when str0m has nothing left to send,
-- which is str0m's to say: it takes fuel, and `none` means that the fuel ran out.
pub mod Wakes
pub mod Keeps
pub mod Seats
pub mod Drains
pub mod Spreads
pub mod Wires
pub mod Sockets
pub mod Targets
use ababilx_chat_sfu.Shared.{
  ℕ, zero, suc, ◌+◌, min, String, Bool, true, false, not, Option, none, some, List, [], ◌∷◌, ◌++◌,
  map, if◌then◌else◌, any, update_first, map_values, string_Eq,
}
use ababilx_chat_sfu.Media.{Deps, Driver, Input, at_time, receive, millis}
use ababilx_chat_sfu.Tracks.{Arcs, Propagated, noop, timeout, track_open, media, keyframe_request}
use ababilx_chat_sfu.Peer.{Peer, Effect}
use ababilx_chat_sfu.Peer.Poll.{Polled, poll_output, handle_input}
use ababilx_chat_sfu.Room.{Room, propagate}
use ababilx_chat_sfu.Engine.{Engine, emit}

abbrev pub max_idle : ℕ
max_idle = millis 100

-- What polling leaves of `A`, with the heap of tracks, what is to propagate, and the wake-up time.
pub record Drained (d : Deps) (A : Type 0) : Type 0 where
  pub value : A
  pub arcs : Arcs d
  pub effects : List (Effect d)
  pub queue : List (Propagated d)
  pub wake : ℕ

-- `timeout.min(at)` where what was polled asks for a wake-up.
abbrev wake_of : {d : Deps} → Propagated d → Option ℕ
wake_of (timeout at) = some at
wake_of noop = none
wake_of (track_open _ _) = none
wake_of (media _ _) = none
wake_of (keyframe_request _ _ _ _) = none

unfoldable pub propagate_all : {d : Deps} → Arcs d → List (Propagated d) → Room d → Room d
propagate_all h [] r = r
propagate_all h (x ∷ xs) r = propagate_all h xs (propagate h x r)

module _ {d : Deps} (v : Driver d) where
  -- A round that goes on puts what it polled in front of the later rounds'.
  after_round : Polled d → Option (Drained d (Peer d)) → Option (Drained d (Peer d))
  after_round out none = none
  after_round out (some rest) =
      some
        (record rest { effects = out.effects ++ rest.effects; queue = out.propagated ∷ rest.queue })

  last_round : Polled d → ℕ → ℕ → Drained d (Peer d)
  last_round out wake at = record {
    value = out.peer;
    arcs = out.arcs;
    effects = out.effects;
    queue = [];
    wake = min wake at;
  }

  unfoldable pub poll_peer : ℕ → ℕ → ℕ → Arcs d → Peer d → Option (Drained d (Peer d))
  unfolding after_round last_round
  poll_peer zero now wake h p = none
  poll_peer (suc fuel) now wake h p =
      let out = poll_output v now h p in
      let rest = poll_peer fuel now wake out.arcs out.peer in
      if not (d.is_alive p.rtc)
      then some (record { value = p; arcs = h; effects = []; queue = []; wake = wake })
      else elim (wake_of out.propagated) [
        | some at ↦ some (last_round out wake at)
        | none ↦ after_round out rest
      ]

  -- What comes after the first peer.
  after_peer :
      Drained d (Peer d) → Option (Drained d (List (Peer d))) → Option (Drained d (List (Peer d)))
  after_peer x none = none
  after_peer x (some rest) = some (record rest {
    value = x.value ∷ rest.value;
    effects = x.effects ++ rest.effects;
    queue = x.queue ++ rest.queue;
  })

  unfoldable pub poll_peers :
      ℕ → ℕ → ℕ → Arcs d → List (Peer d) → Option (Drained d (List (Peer d)))
  unfolding after_peer
  poll_peers fuel now wake h [] =
      some (record { value = []; arcs = h; effects = []; queue = []; wake = wake })
  poll_peers fuel now wake h (p ∷ ps) = elim (poll_peer fuel now wake h p) [
    | none ↦ none
    | some x ↦ after_peer x (poll_peers fuel now x.wake x.arcs ps)
  ]

  -- The peers of a room are drained, and then what they propagate reaches the others.
  settled : Room d → Drained d (List (Peer d)) → Drained d (Room d)
  settled r x = record {
    value = propagate_all x.arcs x.queue (record r { peers = x.value });
    arcs = x.arcs;
    effects = x.effects;
    queue = [];
    wake = x.wake;
  }

  unfoldable pub poll_room : ℕ → ℕ → ℕ → Arcs d → Room d → Option (Drained d (Room d))
  unfolding settled
  poll_room fuel now wake h r = elim (poll_peers fuel now wake h r.peers) [
    | none ↦ none
    | some x ↦ some (settled r x)
  ]

  after_room :
      String
      → Drained d (Room d)
      → Option (Drained d (List (String × Room d)))
      → Option (Drained d (List (String × Room d)))
  after_room name x none = none
  after_room name x (some rest) =
      some
        (record rest { value = (name, x.value) ∷ rest.value; effects = x.effects ++ rest.effects })

  unfoldable pub poll_entries :
      ℕ → ℕ → ℕ → Arcs d → List (String × Room d) → Option (Drained d (List (String × Room d)))
  unfolding after_room
  poll_entries fuel now wake h [] =
      some (record { value = []; arcs = h; effects = []; queue = []; wake = wake })
  poll_entries fuel now wake h ((name, r) ∷ rest) = elim (poll_room fuel now wake h r) [
    | none ↦ none
    | some x ↦ after_room name x (poll_entries fuel now x.wake x.arcs rest)
  ]

  -- The engine afterwards, and the earliest wake-up that a peer asked for.
  unfoldable pub poll_rooms : ℕ → ℕ → Engine d → Option (Engine d × ℕ)
  poll_rooms fuel now e = elim (poll_entries fuel now (now + max_idle) e.arcs e.rooms) [
    | none ↦ none
    | some x ↦ some (emit x.effects (record e { rooms = x.value; arcs = x.arcs }), x.wake)
  ]

  takes_it : Input d → Room d → Bool
  takes_it input r = any (λ (p : Peer d). v.accepts p.rtc input) r.peers

  -- The first peer of all rooms that accepts the input takes it.
  unfoldable pub route_input : Input d → List (String × Room d) → List (String × Room d)
  unfolding takes_it
  route_input input [] = []
  route_input input ((name, r) ∷ rest) =
      if takes_it input r
      then (
        name,
        record r {
          peers =
              update_first (λ (p : Peer d). v.accepts p.rtc input) (handle_input v input) r.peers;
        },
      )
        ∷ rest
      else (name, r) ∷ route_input input rest

  -- One datagram, with its source; `none` where the read failed or str0m cannot parse it. The
  -- destination is the address that was advertised.
  unfoldable pub read_once : ℕ → Option (d.Address × d.Contents) → Engine d → Engine d
  read_once now none e = e
  read_once now (some (source, contents)) e = record e {
    rooms = route_input (receive now source e.advertised contents) e.rooms;
  }

  -- The end of a turn of `Engine::run`: every peer is told the time.
  unfoldable pub tell_time : ℕ → Engine d → Engine d
  tell_time now e = record e {
    rooms =
        map_values (λ (r : Room d). record r { peers = map (handle_input v (at_time now)) r.peers })
          e.rooms;
  }
