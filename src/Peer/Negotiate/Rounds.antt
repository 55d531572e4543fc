-- ===== src/Peer/Negotiate/Rounds.antt =====
-- src/sfu/negotiate.rs: when an offer goes out, and what an offer and its answer make of the tracks.
use ababilx_chat_sfu.Shared.{
  ◌≡◌, refl, ◌⊎◌, ◌∙◌, ap, Bool, true, false, not, ◌&&◌, ◌||◌, Option, none, some, List, [], ◌∷◌,
  map, arith, ok, if◌then◌else◌, inl, inr, is_some, any, All, keep,
}
use ababilx_chat_sfu.Media.{Deps, IsDocumented}
use ababilx_chat_sfu.Tracks.{
  Arcs, TrackIn, TrackOut, TrackOutState, to_open, negotiating, opened, to_stop, negotiating_stop,
  upgrade,
}
use ababilx_chat_sfu.Peer.{Peer}
use ababilx_chat_sfu.Peer.Negotiate.{
  mark_state, mark_dead, stage_state, stage, negotiate_if_needed, settle, open_state, open_track,
  is_negotiating_stop, accept_answer,
}

module _ {d : Deps} where
  -- What a track waits for: to open with a publisher, or to stop for want of one.
  abbrev pub state_needs : Option (TrackIn d) → TrackOutState d → Bool
  state_needs (some t) to_open = true
  state_needs none to_open = false
  state_needs (some t) (opened m) = false
  state_needs none (opened m) = true
  state_needs o (to_stop m) = true
  state_needs o (negotiating m) = false
  state_needs o (negotiating_stop m) = false

  abbrev pub needs : Arcs d → TrackOut d → Bool
  needs h t = state_needs (upgrade h t.track_in) t.state

  module _ (k : IsDocumented d) (h : Arcs d) where
    -- One more track's change.
    stage_state-has_changes :
        (o : Option (TrackIn d)) (s : TrackOutState d) (c : d.SdpApi)
        → d.has_changes (stage_state o (mark_state o s) c).1
          ≡ (if state_needs o s then true else d.has_changes c)
    unfolding stage_state mark_state
    stage_state-has_changes none to_open c = refl
    stage_state-has_changes (some t) to_open c = k.add_media_changes c _ _ _ _ _
    stage_state-has_changes none (opened m) c = k.stop_media_changes c m
    stage_state-has_changes (some t) (opened m) c = refl
    stage_state-has_changes none (to_stop m) c = k.stop_media_changes c m
    stage_state-has_changes (some t) (to_stop m) c = k.stop_media_changes c m
    stage_state-has_changes none (negotiating m) c = refl
    stage_state-has_changes (some t) (negotiating m) c = refl
    stage_state-has_changes none (negotiating_stop m) c = refl
    stage_state-has_changes (some t) (negotiating_stop m) c = refl

    stage-has_changes :
        (ts : List (TrackOut d)) (c : d.SdpApi)
        → d.has_changes (stage h (map (mark_dead h) ts) c).1 ≡ (d.has_changes c || any (needs h) ts)
    unfolding stage mark_dead
    stage-has_changes [] c = ground arith
    stage-has_changes (t ∷ ts) c =
        let o = upgrade h t.track_in in
        let c' = (stage_state o (mark_state o t.state) c).1 in
        ground (arith, stage-has_changes ts c', stage_state-has_changes o t.state c)

    -- An offer goes out exactly if none is pending, the peer is alive, and some subscription is to be
    -- opened with a live publisher or stopped.
    pub negotiates_iff_needed :
        (p : Peer d)
        → (negotiate_if_needed h p).2
          ≡ (not (is_some p.pending) && (d.is_alive p.rtc && any (needs h) p.tracks_out))
    unfolding negotiate_if_needed
    negotiates_iff_needed p =
        let c = (stage h (map (mark_dead h) p.tracks_out) (d.sdp_api p.rtc)).1 in
        ground (
          arith,
          stage-has_changes p.tracks_out (d.sdp_api p.rtc),
          k.sdp_api_clean p.rtc,
          k.apply_some c,
        )

  -- Between negotiations a track waits to open or is open.
  abbrev pub state_at_rest : TrackOutState d → Bool
  state_at_rest to_open = true
  state_at_rest (opened m) = true
  state_at_rest (negotiating m) = false
  state_at_rest (to_stop m) = false
  state_at_rest (negotiating_stop m) = false

  -- Nothing is left to do: open with a live publisher, or waiting for one that is gone.
  abbrev pub state_settled : Option (TrackIn d) → TrackOutState d → Bool
  state_settled (some t) (opened m) = true
  state_settled none to_open = true
  state_settled _ _ = false

  abbrev pub AtRest : TrackOut d → Type 0
  AtRest t = state_at_rest t.state ≡ true

  module _ (h : Arcs d) where
    abbrev pub Settled : TrackOut d → Type 0
    Settled t = state_settled (upgrade h t.track_in) t.state ≡ true

    abbrev pub live : TrackOut d → Bool
    live t = is_some (upgrade h t.track_in)

    -- A track through an offer and its answer: it goes, for want of a publisher, or is settled.
    round_state :
        (o : Option (TrackIn d)) (s : TrackOutState d) (c : d.SdpApi)
        → state_at_rest s ≡ true
        → let s' = (stage_state o (mark_state o s) c).0 in
          ((is_negotiating_stop (open_state s') ≡ true) × (is_some o ≡ false))
          ⊎ ((is_negotiating_stop (open_state s') ≡ false)
              × (state_settled o (open_state s') ≡ true))
    unfolding stage_state mark_state open_state is_negotiating_stop
    round_state none to_open c r = inr (refl, refl)
    round_state (some t) to_open c r = inr (refl, refl)
    round_state none (opened m) c r = inl (refl, refl)
    round_state (some t) (opened m) c r = inr (refl, refl)
    round_state o (negotiating m) c r = cc
    round_state o (to_stop m) c r = cc
    round_state o (negotiating_stop m) c r = cc

    abbrev after_round : List (TrackOut d) → d.SdpApi → List (TrackOut d)
    after_round ts c = settle (stage h (map (mark_dead h) ts) c).0

    round-Settled :
        (ts : List (TrackOut d)) (c : d.SdpApi) → All AtRest ts → All Settled (after_round ts c)
    unfolding stage settle mark_dead open_track
    round-Settled [] c r = tt
    round-Settled (t ∷ ts) c r =
        let o = upgrade h t.track_in in
        let c' = (stage_state o (mark_state o t.state) c).1 in
        elim (round_state o t.state c r.0) [
          | inl (gone, dead) ↦ rw gone (round-Settled ts c' r.1)
          | inr (kept, fine) ↦ rw kept (fine, round-Settled ts c' r.1)
        ]

    round-live :
        (ts : List (TrackOut d)) (c : d.SdpApi)
        → All AtRest ts
        → map (λ (t : TrackOut d). t.track_in) (keep live (after_round ts c))
          ≡ map (λ (t : TrackOut d). t.track_in) (keep live ts)
    unfolding stage settle mark_dead open_track
    round-live [] c r = refl
    round-live (t ∷ ts) c r =
        let o = upgrade h t.track_in in
        let c' = (stage_state o (mark_state o t.state) c).1 in
        ground (arith, round_state o t.state c r.0, round-live ts c' r.1)

    any-needs : (ts : List (TrackOut d)) → All Settled ts → any (needs h) ts ≡ false
    any-needs [] s = refl
    any-needs (t ∷ ts) s = ground (arith, any-needs ts s.1)

    pub tracks-negotiate_if_needed :
        (p : Peer d)
        → (negotiate_if_needed h p).2 ≡ true
        → (negotiate_if_needed h p).0.tracks_out
          ≡ (stage h (map (mark_dead h) p.tracks_out) (d.sdp_api p.rtc)).0
    unfolding negotiate_if_needed
    tracks-negotiate_if_needed p sent = ground arith

    tracks-accept_answer :
        (p : Peer d) (a : d.SdpAnswer)
        → (accept_answer p a).1 ≡ ok tt
        → ((accept_answer p a).0.tracks_out ≡ settle p.tracks_out)
          × ((accept_answer p a).0.pending ≡ none)
    unfolding accept_answer
    tracks-accept_answer p a taken = ground arith

    -- One offer and its answer bring the subscriptions in line. If the tracks were at rest, an offer
    -- went out and str0m takes its answer, then no offer is pending, every subscription is open with a
    -- live publisher or waits to open for one that is gone, those of live publishers are the same as
    -- before and in the same order, and nothing is left to negotiate.
    pub offer_round :
        (k : IsDocumented d) (p : Peer d) (a : d.SdpAnswer)
        → All AtRest p.tracks_out
        → (negotiate_if_needed h p).2 ≡ true
        → (accept_answer (negotiate_if_needed h p).0 a).1 ≡ ok tt
        → let q = (accept_answer (negotiate_if_needed h p).0 a).0 in
          (q.pending ≡ none)
          × All Settled q.tracks_out
          × (map (λ (t : TrackOut d). t.track_in) (keep live q.tracks_out)
              ≡ map (λ (t : TrackOut d). t.track_in) (keep live p.tracks_out))
          × ((negotiate_if_needed h q).2 ≡ false)
    offer_round k p a rest sent taken =
        let q = (accept_answer (negotiate_if_needed h p).0 a).0 in
        let (answered_tracks, cleared) = tracks-accept_answer (negotiate_if_needed h p).0 a taken in
        let c = d.sdp_api p.rtc in
        let same : q.tracks_out ≡ after_round p.tracks_out c =
          answered_tracks ∙ ap settle (tracks-negotiate_if_needed p sent) in
        let settled : All Settled q.tracks_out = rw same (round-Settled p.tracks_out c rest) in
        (
          cleared,
          settled,
          rw same (round-live p.tracks_out c rest),
          rw (negotiates_iff_needed k h q, any-needs q.tracks_out settled) (ground arith),
        )
