-- ===== src/Peer/Negotiate/Lines.antt =====
-- src/sfu/negotiate.rs, `track_map`: which m-line of an offer is whose.
use ababilx_chat_sfu.Shared.{
  ℕ, ◌≡◌, refl, String, Option, none, some, List, [], ◌∷◌, map, arith, pick,
}
use ababilx_chat_sfu.Media.{Deps, MediaKind, audio, video}
use ababilx_chat_sfu.Proto.{TrackMap}
use ababilx_chat_sfu.Tracks.{
  Arcs, TrackIn, TrackOut, TrackOutState, to_open, negotiating, opened, to_stop, negotiating_stop,
  upgrade, mid, as_string,
}
use ababilx_chat_sfu.Peer.Negotiate.{
  kind_label, mark_state, mark_dead, stage_state, stage, track_map, map_entry, is_stopping,
}

abbrev pub kind_name : MediaKind → String
kind_name audio = "audio"
kind_name video = "video"

pub kind_label-name : (k : MediaKind) → kind_label k ≡ kind_name k
unfolding kind_label
kind_label-name audio = refl
kind_label-name video = refl

module _ {d : Deps} where
  -- The m-line of a subscription that has media or is to have it.
  abbrev pub line_of : TrackOutState d → Option d.Mid
  line_of to_open = none
  line_of (negotiating m) = some m
  line_of (opened m) = some m
  line_of (to_stop m) = none
  line_of (negotiating_stop m) = none

  -- The m-line of the subscription, with the publisher and the kind of the track.
  abbrev line_entry : Option (TrackIn d) → Option d.Mid → Option TrackMap
  line_entry (some t) (some m) =
      some
        (record { mid = d.mid_to_string m; peer_id = as_string t.origin; kind = kind_name t.kind })
  line_entry (some t) none = none
  line_entry none _ = none

  -- A subscription that is open, by its track and its m-line, if the publisher lives.
  abbrev open_at : ℕ → Option (TrackIn d) → TrackOutState d → Option (ℕ × d.Mid)
  open_at w (some t) (opened m) = some (w, m)
  open_at w _ _ = none

  module _ (h : Arcs d) where
    abbrev pub entry_of : TrackOut d → Option TrackMap
    entry_of t = line_entry (upgrade h t.track_in) (line_of t.state)

    abbrev pub open_line : TrackOut d → Option (ℕ × d.Mid)
    open_line t = open_at t.track_in (upgrade h t.track_in) t.state

    map_entry-line :
        (o : Option (TrackIn d)) (t : TrackOut d)
        → map_entry (mid t) o t.state ≡ line_entry o (line_of t.state)
    unfolding map_entry mid is_stopping
    map_entry-line none t = ground arith
    map_entry-line (some i) t = ground (arith, kind_label-name i.kind)

    pub track_map-lines : (ts : List (TrackOut d)) → track_map h ts ≡ pick entry_of ts
    unfolding track_map
    track_map-lines [] = refl
    track_map-lines (t ∷ ts) =
        ground (arith, track_map-lines ts, map_entry-line (upgrade h t.track_in) t)

    -- Staging leaves the open subscriptions where they are.
    state-open_at :
        (w : ℕ) (o : Option (TrackIn d)) (s : TrackOutState d) (c : d.SdpApi)
        → open_at w o (stage_state o (mark_state o s) c).0 ≡ open_at w o s
    unfolding stage_state mark_state
    state-open_at w none to_open c = refl
    state-open_at w (some t) to_open c = refl
    state-open_at w none (negotiating m) c = refl
    state-open_at w (some t) (negotiating m) c = refl
    state-open_at w none (opened m) c = refl
    state-open_at w (some t) (opened m) c = refl
    state-open_at w none (to_stop m) c = refl
    state-open_at w (some t) (to_stop m) c = refl
    state-open_at w none (negotiating_stop m) c = refl
    state-open_at w (some t) (negotiating_stop m) c = refl

    pub stage-open_line :
        (ts : List (TrackOut d)) (c : d.SdpApi)
        → pick open_line (stage h (map (mark_dead h) ts) c).0 ≡ pick open_line ts
    unfolding stage mark_dead
    stage-open_line [] c = refl
    stage-open_line (t ∷ ts) c =
        let o = upgrade h t.track_in in
        let c' = (stage_state o (mark_state o t.state) c).1 in
        ground (arith, stage-open_line ts c', state-open_at t.track_in o t.state c)
