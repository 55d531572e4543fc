-- ===== src/Engine/Wired/Routes.antt =====
-- src/sfu/room.rs and src/sfu/peer_media.rs: how packets and keyframe requests go between the peers of
-- a room.
use ababilx_chat_sfu.Shared.{
  ℕ, ◌≡◌, ◌≢◌, String, true, some, [], arith, nat_Eq, string_Eq, lookup, find_of_all,
}
use ababilx_chat_sfu.Media.{Deps}
use ababilx_chat_sfu.Tracks.{TrackIn, TrackOut, upgrade}
use ababilx_chat_sfu.Peer.{Peer}
use ababilx_chat_sfu.Peer.Media.Routes.{IsOnly, LinesApart, IsRoute, IsRoute-subscribed}
use ababilx_chat_sfu.Room.{Room, has_id, peer_of}
use ababilx_chat_sfu.Engine.{Engine}
use ababilx_chat_sfu.Engine.Wired.{IsMeshed}
use ababilx_chat_sfu.Wiring.{IsTuned}
use ababilx_chat_sfu.Wiring.Rooms.{here}

module _ {d : Deps} where
  -- In a wired engine, let a track be live whose publisher is in a room, and no other live track have
  -- its publisher and its m-line. Any other peer of the room, of which no two subscriptions have the
  -- same m-line, has a subscription to that track with these properties. A packet of the track goes to
  -- the writer of the subscription's m-line, and without a line or a writer the peer is left as it is.
  -- A keyframe request that comes in on that m-line is passed on to the track's publisher, for the
  -- m-line on which it publishes the track.
  pub IsMeshed-IsRoute :
      (e : Engine d) (name : String) (r : Room d) (a : ℕ) (t : TrackIn d) (id : ℕ) (p : Peer d)
      → IsMeshed e
      → lookup name e.rooms ≡ some r
      → upgrade e.arcs a ≡ some t
      → here r t.origin ≡ true
      → IsOnly e.arcs a t
      → peer_of id r ≡ some p
      → t.origin ≢ p.id
      → LinesApart p.tracks_out
      → (s : TrackOut d) × IsRoute e.arcs a t p s
  unfolding peer_of
  IsMeshed-IsRoute e name r a t id p w there live in_room only found other apart =
      let tuned =
        find_of_all (IsTuned e.arcs (here r) []) (has_id id) r.peers p (w.wired name r there)
          found in
      IsRoute-subscribed e.arcs a t live only p apart
        (ground (arith, tuned.hears a t live, in_room, other, nat_Eq.matches_iff t.origin p.id))
