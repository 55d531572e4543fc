-- ===== src/Wiring.antt =====
-- Who is subscribed to what, in src/sfu/room.rs and around it. A publication and a subscription are an
-- address of the heap of tracks; a track is live while its address is in the heap, and names its
-- publisher.
pub mod Heaps
pub mod Same
pub mod Drops
pub mod Rounds
pub mod Deliveries
pub mod Rooms
pub mod Leaves
pub mod Joins
use ababilx_chat_sfu.Shared.{
  ℕ, ◌+◌, ◌<◌, ◌≡◌, Bool, true, false, not, ◌&&◌, Option, none, some, List, [], ◌∷◌, map, ◌==◌,
  nat_Eq, is_some, All, count, bit,
}
use ababilx_chat_sfu.Media.{Deps}
use ababilx_chat_sfu.Tracks.{
  Arcs, TrackIn, TrackOut, TrackOutState, to_open, negotiating, opened, to_stop, negotiating_stop,
  upgrade, Propagated, noop, timeout, track_open, media, keyframe_request,
}
use ababilx_chat_sfu.Peer.{Peer}
use ababilx_chat_sfu.Room.{published}

module _ {d : Deps} where
  -- The publications that a peer is subscribed to.
  abbrev pub wanted : Peer d → List ℕ
  wanted p = map (λ (t : TrackOut d). t.track_in) p.tracks_out

  -- A live track of the publisher `id`.
  abbrev pub of_origin : ℕ → Option (TrackIn d) → Bool
  of_origin id none = false
  of_origin id (some t) = t.origin == id

  abbrev pub state_stops : TrackOutState d → Bool
  state_stops to_open = false
  state_stops (negotiating m) = false
  state_stops (opened m) = false
  state_stops (to_stop m) = true
  state_stops (negotiating_stop m) = true

  -- A subscription is to stop although its publication is live.
  abbrev pub cut_off : Arcs d → TrackOut d → Bool
  cut_off h t = state_stops t.state && is_some (upgrade h t.track_in)

  -- The subscriptions to `a` that are still on their way to the peer `id`.
  abbrev opens : ℕ → ℕ → Propagated d → ℕ
  opens id a noop = 0
  opens id a (timeout _) = 0
  opens id a (track_open source w) = bit (not (id == source) && (w == a))
  opens id a (media _ _) = 0
  opens id a (keyframe_request _ _ _ _) = 0

  abbrev pub pending : ℕ → ℕ → List (Propagated d) → ℕ
  pending id a [] = 0
  pending id a (x ∷ xs) = opens id a x + pending id a xs

  -- The addresses on their way are of the heap.
  abbrev OpensBelow : ℕ → Propagated d → Type 0
  OpensBelow n noop = Unit
  OpensBelow n (timeout _) = Unit
  OpensBelow n (track_open source w) = w < n
  OpensBelow n (media _ _) = Unit
  OpensBelow n (keyframe_request _ _ _ _) = Unit

  abbrev pub QueueBelow : ℕ → List (Propagated d) → Type 0
  QueueBelow n = All (OpensBelow n)

  -- A peer of a room whose members pass `present`, with `queue` still to be propagated in it.
  pub record IsTuned (h : Arcs d) (present : ℕ → Bool) (queue : List (Propagated d)) (p : Peer d)
      : Type 0 where
    pub owns : (a : ℕ) → count a (published p) ≡ bit (of_origin p.id (upgrade h a))
    pub hears :
        (a : ℕ) (t : TrackIn d)
        → upgrade h a ≡ some t
        → count a (wanted p) + pending p.id a queue
          ≡ bit (not (t.origin == p.id) && present t.origin)
    pub below : All (λ (w : ℕ). w < h.next) (wanted p)
    pub uncut : All (λ (t : TrackOut d). cut_off h t ≡ false) p.tracks_out

  -- Every address that is in use lies below the next one.
  abbrev pub IsFresh : Arcs d → Type 0
  IsFresh h = (a : ℕ) (t : TrackIn d) → upgrade h a ≡ some t → a < h.next
