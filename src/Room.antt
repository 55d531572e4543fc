-- ===== src/Room.antt =====
-- src/sfu/room.rs: a call, its peers, and what they are told of one another.
pub mod Speaking
use Prim.Native.String.{compare}
use text.Mathlib.Text.{is_le, ◌==◌ as str_eq}
use ababilx_chat_sfu.Shared.{
  ℕ, String, Bool, true, false, not, ◌&&◌, Option, none, some, List, [], ◌∷◌, ◌++◌, map,
  if◌then◌else◌, ◌==◌, nat_Eq, find, keep, update_first, remove_first, gather,
}
use ababilx_chat_sfu.Media.{Deps}
use ababilx_chat_sfu.Proto.{PeerInfo, ServerMsg}
use ababilx_chat_sfu.Tracks.{
  Arcs, TrackInEntry, to_open, Propagated, noop, timeout, track_open, media, keyframe_request,
  source, as_string, downgrade,
}
use ababilx_chat_sfu.Peer.{Peer, Effect, send, info, is_speaking}
use ababilx_chat_sfu.Peer.Media.{forward, serve_keyframe_request}

pub record Room (d : Deps) : Type 0 where
  pub call_id : String
  pub peers : List (Peer d)
  pub speaking : List String

-- `sort` on texts, which compares bytes.
insert_sorted : String → List String → List String
insert_sorted s [] = s ∷ []
insert_sorted s (t ∷ ts) = if is_le (compare s t) then s ∷ t ∷ ts else t ∷ insert_sorted s ts

unfoldable pub sort : List String → List String
unfolding insert_sorted
sort [] = []
sort (s ∷ ss) = insert_sorted s (sort ss)

-- `==` on `Vec<String>`
unfoldable pub same_texts : List String → List String → Bool
same_texts [] [] = true
same_texts (s ∷ ss) (t ∷ ts) = str_eq s t && same_texts ss ts
same_texts _ _ = false

module _ {d : Deps} where
  unfoldable pub new : String → Room d
  new call_id = record { call_id = call_id; peers = []; speaking = [] }

  -- `peer.id == id`
  abbrev pub has_id : ℕ → Peer d → Bool
  has_id id p = p.id == id

  unfoldable pub peer_of : ℕ → Room d → Option (Peer d)
  peer_of id r = find (has_id id) r.peers

  unfoldable pub roster : Room d → List PeerInfo
  roster r = map info r.peers

  unfoldable pub broadcast : Room d → ServerMsg → List (Effect d)
  broadcast r m = gather (λ p. send p m) r.peers

  -- A new entry at the end of a peer's subscriptions.
  unfoldable pub subscribe : ℕ → Peer d → Peer d
  subscribe w p = record p {
    tracks_out = p.tracks_out ++ record { track_in = w; state = to_open } ∷ [];
  }

  unfoldable pub deliver : Arcs d → Propagated d → Peer d → Peer d
  unfolding subscribe
  deliver h (track_open _ w) p = subscribe w p
  deliver h (media origin m) p = forward h origin m p
  deliver h (keyframe_request _ request publisher m) p =
      if publisher == p.id then serve_keyframe_request m request.kind p else p
  deliver h noop p = p
  deliver h (timeout _) p = p

  unfoldable pub deliver_from : Arcs d → Propagated d → ℕ → Peer d → Peer d
  unfolding deliver
  deliver_from h x origin p = if p.id == origin then p else deliver h x p

  unfoldable pub propagate : Arcs d → Propagated d → Room d → Room d
  unfolding deliver_from
  propagate h x r = elim (source x) [
    | none ↦ r
    | some origin ↦ record r { peers = map (deliver_from h x origin) r.peers }
  ]

  unfoldable pub published : Peer d → List ℕ
  published p = map (λ (e : TrackInEntry d). downgrade e.id) p.tracks_in

  unfoldable pub subscribe_all : List ℕ → Peer d → Peer d
  unfolding subscribe
  subscribe_all [] p = p
  subscribe_all (w ∷ ws) p = subscribe_all ws (subscribe w p)

  -- What the other peers publish.
  unfoldable pub existing : ℕ → Room d → List ℕ
  unfolding published
  existing joining r = gather published (keep (λ p. not (has_id joining p)) r.peers)

  unfoldable pub subscribe_to_existing : ℕ → Room d → Room d
  subscribe_to_existing joining r = record r {
    peers = update_first (has_id joining) (subscribe_all (existing joining r)) r.peers;
  }

  unfoldable pub speakers : ℕ → Room d → List String
  speakers now r =
      sort (
        map (λ (p : Peer d). as_string p.id) (keep (λ p. not p.muted && is_speaking p now) r.peers))

  unfoldable pub sync_speaking : ℕ → Room d → Room d × List (Effect d)
  sync_speaking now r =
      let current = speakers now r in
      if same_texts current r.speaking
      then (r, [])
      else (record r { speaking = current }, broadcast r (ServerMsg.speaking current))

  unfoldable pub removed : ℕ → Room d → Room d
  removed id r = record r {
    peers = remove_first (has_id id) r.peers;
    speaking = keep (λ entry. not (str_eq entry (as_string id))) r.speaking;
  }

  -- The peer, the room without it, and what the others are told.
  unfoldable pub remove : ℕ → Room d → Option (Peer d) × Room d × List (Effect d)
  unfolding removed
  remove id r = elim (peer_of id r) [
    | none ↦ (none, r, [])
    | some p ↦ (some p, removed id r, broadcast (removed id r) (ServerMsg.peer_left (as_string id)))
  ]

  unfoldable pub is_empty : Room d → Bool
  is_empty r = elim r.peers [ [] ↦ true | _ ∷ _ ↦ false ]
