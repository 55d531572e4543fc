-- ===== src/Peer/Media.antt =====
-- src/sfu/peer_media.rs: a peer's tracks, packets, keyframe requests and audio levels. `now` is the
-- instant at which the call reads the clock.
pub mod Keyframes
pub mod Routes
pub mod Wires
use mathlib.Core.Option
use ababilx_chat_sfu.Shared.{
  ℕ, ◌+◌, ◌-◌, Bool, true, false, not, ◌&&◌, Option, none, some, [], ◌∷◌, ◌++◌, Result, ok, err,
  ltb, int_lt, if◌then◌else◌, ◌==◌, nat_Eq, String, find, any, update_first,
}
use ababilx_chat_sfu.Media.{
  Deps, MediaKind, audio, video, KeyframeRequestKind, pli, MediaData, MediaAdded, KeyframeRequest,
  secs,
}
use ababilx_chat_sfu.Tracks.{
  Arcs, TrackInEntry, TrackOut, Propagated, alloc, downgrade, upgrade, mid,
}
use ababilx_chat_sfu.Peer.{Peer, speaking_hold, speaking_threshold}

module _ {d : Deps} where
  -- `track.id.mid == mid`
  unfoldable pub has_mid : d.Mid → TrackInEntry d → Bool
  has_mid m e = d.mid_Eq.matches e.id.value.mid m

  unfoldable pub handle_media_added :
      MediaAdded d → Arcs d → Peer d → Peer d × Arcs d × Propagated d
  handle_media_added added h p =
      let (a, h') = alloc (record { origin = p.id; mid = added.mid; kind = added.kind }) h in
      (
        record p {
          tracks_in = p.tracks_in ++ record { id = a; last_keyframe_request = none } ∷ [];
        },
        h',
        Propagated.track_open p.id (downgrade a),
      )

  unfoldable pub note_audio_level : ℕ → MediaData d → Peer d → Peer d
  note_audio_level now m p = elim m.audio_level [
    | none ↦ p
    | some level ↦
        if Option.get_or m.voice_activity true && int_lt speaking_threshold level
        then record p { speaking_until = some (now + speaking_hold) }
        else p
  ]

  -- less than a second since the last request
  unfoldable pub throttled : ℕ → TrackInEntry d → Bool
  throttled now e = elim e.last_keyframe_request [
    | none ↦ false
    | some at ↦ ltb (now - at) (secs 1)
  ]

  stamp : ℕ → TrackInEntry d → TrackInEntry d
  stamp now e = record e { last_keyframe_request = some now }

  requested : ℕ → d.Mid → Peer d → Result String (Unit {0}) × d.Rtc → Peer d
  unfolding has_mid stamp
  requested now m p (err _, rtc) = record p { rtc = rtc }
  requested now m p (ok _, rtc) = record p {
    rtc = rtc;
    tracks_in = update_first (has_mid m) (stamp now) p.tracks_in;
  }

  unfoldable pub request_keyframe_throttled : ℕ → d.Mid → KeyframeRequestKind → Peer d → Peer d
  unfolding has_mid throttled requested
  request_keyframe_throttled now m kind p = elim (find (has_mid m) p.tracks_in) [
    | none ↦ p
    | some e ↦ if throttled now e then p else elim (d.writer p.rtc m) [
      | none ↦ p
      | some w ↦ requested now m p (d.request_keyframe w none kind)
    ]
  ]

  by_kind : ℕ → MediaData d → Peer d → Option MediaKind → Peer d
  unfolding note_audio_level request_keyframe_throttled
  by_kind now m p (some audio) = note_audio_level now m p
  by_kind now m p (some video) =
      if not m.contiguous then request_keyframe_throttled now m.mid pli p else p
  by_kind now m p none = p

  unfoldable pub handle_media_data_in : ℕ → MediaData d → Peer d → Peer d × Propagated d
  unfolding has_mid by_kind
  handle_media_data_in now m p = (
    by_kind now m p (Option.map (λ e. e.id.value.kind) (find (has_mid m.mid) p.tracks_in)),
    Propagated.media p.id m,
  )

  -- `t.mid() == Some(mid)`
  at_mid : d.Mid → TrackOut d → Bool
  at_mid m t = elim (mid t) [ none ↦ false | some n ↦ d.mid_Eq.matches n m ]

  unfoldable pub handle_incoming_keyframe_request :
      KeyframeRequest d → Arcs d → Peer d → Propagated d
  unfolding at_mid
  handle_incoming_keyframe_request request h p = elim (find (at_mid request.mid) p.tracks_out) [
    | none ↦ Propagated.noop
    | some t ↦ elim (upgrade h t.track_in) [
      | none ↦ Propagated.noop
      | some i ↦ Propagated.keyframe_request p.id (record request { rid = none }) i.origin i.mid
    ]
  ]

  -- The subscription that carries the packet: its publisher lives, and is `origin`'s track `m`.
  carries : Arcs d → ℕ → d.Mid → TrackOut d → Bool
  carries h origin m t = elim (upgrade h t.track_in) [
    | none ↦ false
    | some i ↦ (i.origin == origin) && d.mid_Eq.matches i.mid m
  ]

  written : Peer d → Result String (Unit {0}) × d.Rtc → Peer d
  written p (ok _, rtc) = record p { rtc = rtc }
  written p (err _, rtc) = record p { rtc = d.disconnect rtc }

  with_level : MediaData d → d.Writer → d.Writer
  with_level m w = elim m.audio_level [
    | none ↦ w
    | some level ↦ d.audio_level w level (Option.get_or m.voice_activity true)
  ]

  unfoldable pub write_to : MediaData d → Peer d → d.Writer → Peer d
  unfolding written with_level
  write_to m p w = elim (d.match_params w m.params) [
    | none ↦ p
    | some pt ↦ written p (d.write (with_level m w) pt m.network_time m.time m.payload)
  ]

  unfoldable pub forward : Arcs d → ℕ → MediaData d → Peer d → Peer d
  unfolding carries write_to
  forward h origin m p = elim (find (carries h origin m.mid) p.tracks_out) [
    | none ↦ p
    | some t ↦ elim (mid t) [
      | none ↦ p
      | some n ↦ elim (d.writer p.rtc n) [ none ↦ p | some w ↦ write_to m p w ]
    ]
  ]

  -- A rejected request is only logged.
  unfoldable pub serve_keyframe_request : d.Mid → KeyframeRequestKind → Peer d → Peer d
  unfolding has_mid
  serve_keyframe_request m kind p =
      if not (any (has_mid m) p.tracks_in) then p else elim (d.writer p.rtc m) [
        | none ↦ p
        | some w ↦ record p { rtc = (d.request_keyframe w none kind).1 }
      ]
