-- ===== src/Peer/Media/Wires.antt =====
-- src/sfu/peer_media.rs: media and keyframe requests leave every publication and subscription.
use ababilx_chat_sfu.Media.{KeyframeRequest, MediaKind, audio, video, pli}
use ababilx_chat_sfu.Shared.{
  ◌⊎◌, ℕ, ◌≡◌, refl, Bool, Option, none, some, List, [], ◌∷◌, map, nat_Eq, arith, Option-cases,
  Bool-cases, inl, inr, update_first, find,
}
use ababilx_chat_sfu.Media.{Deps, MediaData, KeyframeRequestKind}
use ababilx_chat_sfu.Tracks
use ababilx_chat_sfu.Tracks.{
  Arcs, TrackIn, TrackOut, TrackInEntry, TrackOutState, to_open, negotiating, opened, to_stop,
  negotiating_stop, upgrade, alloc, Propagated, downgrade,
}
use ababilx_chat_sfu.Peer.{Peer}
use ababilx_chat_sfu.Peer.Media.{
  at_mid, handle_incoming_keyframe_request, has_mid, stamp, by_kind, request_keyframe_throttled,
  handle_media_data_in, forward, note_audio_level, serve_keyframe_request,
}
use ababilx_chat_sfu.Room.{published}
use ababilx_chat_sfu.Wiring.Same.{SameWires, same_tracks}

module _ {d : Deps} where
  stamped :
      (test : TrackInEntry d → Bool) (f : TrackInEntry d → TrackInEntry d)
      (es : List (TrackInEntry d))
      → ((e : TrackInEntry d) → (f e).id ≡ e.id)
      → map (λ (e : TrackInEntry d). downgrade e.id) (update_first test f es)
        ≡ map (λ (e : TrackInEntry d). downgrade e.id) es
  stamped test f [] h = refl
  stamped test f (e ∷ es) h = ground (arith, stamped test f es h, h e)

  request_keyframe_throttled-same :
      (h : Arcs d) (now : ℕ) (m : d.Mid) (kind : KeyframeRequestKind) (p : Peer d)
      → SameWires h p (request_keyframe_throttled now m kind p)
  unfolding request_keyframe_throttled published
  request_keyframe_throttled-same h now m kind p =
      same_tracks h p _ (ground arith)
        (ground (arith, stamped (has_mid m) (stamp now) p.tracks_in (λ (e : TrackInEntry d). refl)))
        (ground arith)

  note_audio_level-same :
      (h : Arcs d) (now : ℕ) (m : MediaData d) (p : Peer d)
      → SameWires h p (note_audio_level now m p)
  unfolding note_audio_level published
  note_audio_level-same h now m p = same_tracks h p _ (ground arith) (ground arith) (ground arith)

  by_kind-same :
      (h : Arcs d) (now : ℕ) (m : MediaData d) (p : Peer d) (k : Option MediaKind)
      → SameWires h p (by_kind now m p k)
  unfolding by_kind
  by_kind-same h now m p (some audio) = note_audio_level-same h now m p
  by_kind-same h now m p (some video) = elim (Bool-cases m.contiguous) [
    | inl whole ↦ rw whole (same_tracks h p p refl refl refl)
    | inr cut ↦ rw cut (request_keyframe_throttled-same h now m.mid pli p)
  ]
  by_kind-same h now m p none = same_tracks h p p refl refl refl

  pub handle_media_data_in-same :
      (h : Arcs d) (now : ℕ) (m : MediaData d) (p : Peer d)
      → SameWires h p (handle_media_data_in now m p).0
  unfolding handle_media_data_in
  handle_media_data_in-same h now m p = by_kind-same h now m p _

  pub forward-same :
      (h : Arcs d) (origin : ℕ) (m : MediaData d) (p : Peer d)
      → SameWires h p (forward h origin m p)
  unfolding forward published
  forward-same h origin m p = same_tracks h p _ (ground arith) (ground arith) (ground arith)

  pub serve_keyframe_request-same :
      (h : Arcs d) (m : d.Mid) (kind : KeyframeRequestKind) (p : Peer d)
      → SameWires h p (serve_keyframe_request m kind p)
  unfolding serve_keyframe_request published
  serve_keyframe_request-same h m kind p =
      same_tracks h p _ (ground arith) (ground arith) (ground arith)

  pub incoming_keyframe_request-cases :
      (r : KeyframeRequest d) (h : Arcs d) (p : Peer d)
      → (handle_incoming_keyframe_request r h p ≡ Tracks.noop)
        ⊎ ((o : ℕ) × (q : KeyframeRequest d) × (publisher : ℕ) × (m : d.Mid)
            × (handle_incoming_keyframe_request r h p ≡ Tracks.keyframe_request o q publisher m))
  unfolding handle_incoming_keyframe_request
  incoming_keyframe_request-cases r h p = elim (Option-cases (find (at_mid r.mid) p.tracks_out)) [
    | inl out ↦ inl (ground (arith, out))
    | inr (t, found) ↦ elim (Option-cases (upgrade h t.track_in)) [
      | inl gone ↦ inl (ground (arith, found, gone))
      | inr (i, live) ↦
          inr (p.id, record r { rid = none }, i.origin, i.mid, ground (arith, found, live))
    ]
  ]
