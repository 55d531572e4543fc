-- ===== src/Peer/Negotiate.antt =====
-- src/sfu/negotiate.rs: the peer's side of SDP negotiation.
pub mod Rounds
pub mod Lines
pub mod Offers
pub mod Wires
use Prim.Native.String.{◌++◌ as ◌+++◌}
use ababilx_chat_sfu.Shared.{
  String, Bool, true, false, not, ◌||◌, Option, none, some, List, [], ◌∷◌, map, Result, ok, err,
  if◌then◌else◌, is_some, keep, pick,
}
use ababilx_chat_sfu.Media.{Deps, MediaKind, audio, video, send_only}
use ababilx_chat_sfu.Proto.{TrackMap, ServerMsg}
use ababilx_chat_sfu.Tracks.{
  Arcs, TrackIn, TrackOut, TrackOutState, to_open, negotiating, opened, to_stop, negotiating_stop,
  upgrade, mid, as_string,
}
use ababilx_chat_sfu.Peer.{Peer, Effect, send}

unfoldable pub kind_label : MediaKind → String
kind_label audio = "audio"
kind_label video = "video"

module _ {d : Deps} where
  -- The first loop of `negotiate_if_needed`: an open m-line whose publisher is gone is to stop.
  mark_state : Option (TrackIn d) → TrackOutState d → TrackOutState d
  mark_state none (opened m) = to_stop m
  mark_state _ s = s

  unfoldable pub mark_dead : Arcs d → TrackOut d → TrackOut d
  unfolding mark_state
  mark_dead h t = record t { state = mark_state (upgrade h t.track_in) t.state }

  -- The body of the second loop, which stages the m-line's change.
  stage_state : Option (TrackIn d) → TrackOutState d → d.SdpApi → TrackOutState d × d.SdpApi
  unfolding kind_label
  stage_state (some t) to_open change =
      let stream_id = as_string t.origin in
      let track_id = stream_id +++ "-" +++ kind_label t.kind in
      let (m, change') =
        d.add_media change t.kind send_only (some stream_id) (some track_id) none in
      (negotiating m, change')
  stage_state none to_open change = (to_open, change)
  stage_state _ (to_stop m) change = (negotiating_stop m, d.stop_media change m)
  stage_state _ s change = (s, change)

  unfoldable pub stage : Arcs d → List (TrackOut d) → d.SdpApi → List (TrackOut d) × d.SdpApi
  unfolding stage_state
  stage h [] change = ([], change)
  stage h (t ∷ ts) change =
      let (s, change') = stage_state (upgrade h t.track_in) t.state change in
      let (rest, change'') = stage h ts change' in (record t { state = s } ∷ rest, change'')

  is_stopping : TrackOutState d → Bool
  is_stopping (to_stop _) = true
  is_stopping (negotiating_stop _) = true
  is_stopping _ = false

  map_entry : Option d.Mid → Option (TrackIn d) → TrackOutState d → Option TrackMap
  unfolding is_stopping kind_label
  map_entry none _ s = none
  map_entry (some m) none s = none
  map_entry (some m) (some t) s =
      if is_stopping s
      then none
      else some (record {
        mid = d.mid_to_string m;
        peer_id = as_string t.origin;
        kind = kind_label t.kind;
      })

  unfoldable pub track_map : Arcs d → List (TrackOut d) → List TrackMap
  unfolding map_entry
  track_map h = pick (λ t. map_entry (mid t) (upgrade h t.track_in) t.state)

  -- What `change.apply()` gives decides whether an offer goes out.
  offer_out :
      Arcs d → Peer d → Option (d.SdpOffer × d.SdpPendingOffer) → Peer d × List (Effect d) × Bool
  offer_out h p none = (p, [], false)
  offer_out h p (some (o, pending)) = (
    record p { pending = some pending },
    send p (ServerMsg.offer (d.offer_to_sdp o) (track_map h p.tracks_out)),
    true,
  )

  -- The peer after the call, what it sent, and whether an offer went out.
  unfoldable pub negotiate_if_needed : Arcs d → Peer d → Peer d × List (Effect d) × Bool
  unfolding offer_out
  negotiate_if_needed h p =
      if is_some p.pending || not (d.is_alive p.rtc)
      then (p, [], false)
      else let (tracks, change) = stage h (map (mark_dead h) p.tracks_out) (d.sdp_api p.rtc) in
        if not (d.has_changes change)
        then (record p { tracks_out = tracks; rtc = d.release change }, [], false)
        else let (result, rtc) = d.apply change in
          offer_out h (record p { tracks_out = tracks; rtc = rtc }) result

  open_state : TrackOutState d → TrackOutState d
  open_state (negotiating m) = opened m
  open_state s = s

  is_negotiating_stop : TrackOutState d → Bool
  is_negotiating_stop (negotiating_stop _) = true
  is_negotiating_stop _ = false

  open_track : TrackOut d → TrackOut d
  unfolding open_state
  open_track t = record t { state = open_state t.state }

  -- The two passes over the tracks once str0m has taken the answer.
  unfoldable pub settle : List (TrackOut d) → List (TrackOut d)
  unfolding open_track is_negotiating_stop
  settle ts = keep (λ t. not (is_negotiating_stop t.state)) (map open_track ts)

  answered : Peer d → Result String (Unit {0}) × d.Rtc → Peer d × Result String (Unit {0})
  answered p (err e, rtc) = (record p { rtc = rtc }, err e)
  answered p (ok u, rtc) = (record p { rtc = rtc; tracks_out = settle p.tracks_out }, ok u)

  accept_pending :
      Peer d → Option d.SdpPendingOffer → d.SdpAnswer → Peer d × Result String (Unit {0})
  unfolding answered
  accept_pending p none a = (p, err "no_pending_offer")
  accept_pending p (some pending) a =
      answered (record p { pending = none }) (d.accept_answer (d.sdp_api p.rtc) pending a)

  unfoldable pub accept_answer : Peer d → d.SdpAnswer → Peer d × Result String (Unit {0})
  unfolding accept_pending
  accept_answer p a = accept_pending p p.pending a

  -- The first element is the answer's text.
  unfoldable pub accept_offer : Peer d → d.SdpOffer → Result String String × Peer d
  accept_offer p o =
      let (result, rtc) = d.accept_offer (d.sdp_api p.rtc) o in
      (elim result [ ok a ↦ ok (d.answer_to_sdp a) | err e ↦ err e ], record p { rtc = rtc })
