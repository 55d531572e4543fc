-- ===== src/Peer/Negotiate/Offers.antt =====
-- src/sfu/negotiate.rs: what an offer tells the browser, and what a rejected answer leaves behind.
use ababilx_chat_sfu.Shared.{
  ◌≡◌, refl, ◌∙◌, ap, String, Bool, true, false, Option, none, some, List, [], ◌∷◌, map, arith, err,
  inl, inr, Option-cases, any, All, pick,
}
use ababilx_chat_sfu.Media.{Deps, IsDocumented}
use ababilx_chat_sfu.Proto.{TrackMap, ServerMsg}
use ababilx_chat_sfu.Tracks.{
  Arcs, TrackIn, TrackOut, TrackOutState, to_open, negotiating, opened, to_stop, negotiating_stop,
  upgrade, as_string,
}
use ababilx_chat_sfu.Peer.{Peer, message, send}
use ababilx_chat_sfu.Peer.Negotiate.{
  mark_state, mark_dead, stage_state, stage, negotiate_if_needed, accept_answer, track_map,
}
use ababilx_chat_sfu.Peer.Negotiate.Lines.{
  kind_name, entry_of, open_line, track_map-lines, stage-open_line,
}
use ababilx_chat_sfu.Peer.Negotiate.Rounds.{
  state_at_rest, AtRest, needs, negotiates_iff_needed, tracks-negotiate_if_needed,
}

abbrev pub attribution : TrackMap → String × String
attribution m = (m.peer_id, m.kind)

module _ {d : Deps} where
  abbrev pub publisher_of : TrackIn d → String × String
  publisher_of t = (as_string t.origin, kind_name t.kind)

  -- The states that an offer leaves.
  abbrev state_offered : Option (TrackIn d) → TrackOutState d → Bool
  state_offered (some t) (negotiating m) = true
  state_offered (some t) (opened m) = true
  state_offered none to_open = true
  state_offered none (negotiating_stop m) = true
  state_offered _ _ = false

  module _ (h : Arcs d) where
    state-offered :
        (o : Option (TrackIn d)) (s : TrackOutState d) (c : d.SdpApi)
        → state_at_rest s ≡ true
        → state_offered o (stage_state o (mark_state o s) c).0 ≡ true
    unfolding stage_state mark_state
    state-offered none to_open c r = refl
    state-offered (some t) to_open c r = refl
    state-offered none (opened m) c r = refl
    state-offered (some t) (opened m) c r = refl
    state-offered o (negotiating m) c r = cc
    state-offered o (to_stop m) c r = cc
    state-offered o (negotiating_stop m) c r = cc

    abbrev Offered : TrackOut d → Type 0
    Offered t = state_offered (upgrade h t.track_in) t.state ≡ true

    stage-Offered :
        (ts : List (TrackOut d)) (c : d.SdpApi)
        → All AtRest ts
        → All Offered (stage h (map (mark_dead h) ts) c).0
    unfolding stage mark_dead
    stage-Offered [] c r = tt
    stage-Offered (t ∷ ts) c r =
        let o = upgrade h t.track_in in
        let c' = (stage_state o (mark_state o t.state) c).1 in
        (state-offered o t.state c r.0, stage-Offered ts c' r.1)

    stage-track_in :
        (ts : List (TrackOut d)) (c : d.SdpApi)
        → pick (λ (t : TrackOut d). upgrade h t.track_in) (stage h (map (mark_dead h) ts) c).0
          ≡ pick (λ (t : TrackOut d). upgrade h t.track_in) ts
    unfolding stage mark_dead
    stage-track_in [] c = refl
    stage-track_in (t ∷ ts) c =
        let o = upgrade h t.track_in in
        let c' = (stage_state o (mark_state o t.state) c).1 in ground (arith, stage-track_in ts c')

    attributed_lines :
        (ts : List (TrackOut d))
        → All Offered ts
        → map attribution (pick (entry_of h) ts)
          ≡ map publisher_of (pick (λ (t : TrackOut d). upgrade h t.track_in) ts)
    attributed_lines [] s = refl
    attributed_lines (t ∷ ts) s = ground (arith, attributed_lines ts s.1)

    attributed :
        (ts : List (TrackOut d))
        → All Offered ts
        → map attribution (track_map h ts)
          ≡ map publisher_of (pick (λ (t : TrackOut d). upgrade h t.track_in) ts)
    attributed ts s = ap (map attribution) (track_map-lines h ts) ∙ attributed_lines ts s

    effects-negotiate_if_needed :
        (p : Peer d)
        → (negotiate_if_needed h p).2 ≡ true
        → (sdp : String) × ((negotiate_if_needed h p).1
            ≡ message p.out
                (ServerMsg.offer sdp (track_map h (negotiate_if_needed h p).0.tracks_out))
              ∷ [])
    unfolding negotiate_if_needed send
    effects-negotiate_if_needed p sent =
        let c = (stage h (map (mark_dead h) p.tracks_out) (d.sdp_api p.rtc)).1 in
        elim (Option-cases (d.apply c).0) [
          | inl nothing ↦ absurd (ground (arith, nothing))
          | inr ((o, pending), some_offer) ↦ (d.offer_to_sdp o, ground (arith, some_offer))
        ]

    no_needs : (ts : List (TrackOut d)) → All Offered ts → any (needs h) ts ≡ false
    no_needs [] s = refl
    no_needs (t ∷ ts) s = ground (arith, no_needs ts s.1)

    -- An offer that goes out from tracks at rest is one frame to the peer. It names the m-line that each
    -- subscription to a live publisher now has, with the publisher and the kind of that track, and no
    -- other m-line: every subscription whose publisher lives has one, in their order, and one that was
    -- open keeps the m-line that it had.
    pub offer_attributes :
        (p : Peer d)
        → All AtRest p.tracks_out
        → (negotiate_if_needed h p).2 ≡ true
        → let ts = (negotiate_if_needed h p).0.tracks_out in
          (sdp : String) × (tracks : List TrackMap) × ((negotiate_if_needed h p).1
            ≡ message p.out (ServerMsg.offer sdp tracks) ∷ [])
          × (tracks ≡ pick (entry_of h) ts)
          × (map attribution tracks
              ≡ map publisher_of (pick (λ (t : TrackOut d). upgrade h t.track_in) p.tracks_out))
          × (pick (open_line h) ts ≡ pick (open_line h) p.tracks_out)
    offer_attributes p rest sent =
        let (sdp, told) = effects-negotiate_if_needed p sent in
        let ts = (negotiate_if_needed h p).0.tracks_out in
        let c = d.sdp_api p.rtc in
        let same : ts ≡ (stage h (map (mark_dead h) p.tracks_out) c).0 =
          tracks-negotiate_if_needed h p sent in
        (
          sdp,
          track_map h ts,
          told,
          track_map-lines h ts,
          rw same (
              attributed _ (stage-Offered p.tracks_out c rest)
              ∙ ap (map publisher_of) (stage-track_in p.tracks_out c)),
          rw same (stage-open_line h p.tracks_out c),
        )

    tracks-rejected :
        (p : Peer d) (a : d.SdpAnswer) (x : String)
        → (accept_answer p a).1 ≡ err x
        → ((accept_answer p a).0.tracks_out ≡ p.tracks_out) × ((accept_answer p a).0.pending ≡ none)
    unfolding accept_answer
    tracks-rejected p a x refused = ground arith

    -- If str0m rejects the answer to an offer that went out from tracks at rest, no offer is pending
    -- any more, the tracks stay as the offer left them, and no other offer follows for them.
    pub rejected_answer_strands :
        (k : IsDocumented d) (p : Peer d) (a : d.SdpAnswer) (x : String)
        → All AtRest p.tracks_out
        → (negotiate_if_needed h p).2 ≡ true
        → (accept_answer (negotiate_if_needed h p).0 a).1 ≡ err x
        → let q = (accept_answer (negotiate_if_needed h p).0 a).0 in
          (q.pending ≡ none)
          × (q.tracks_out ≡ (negotiate_if_needed h p).0.tracks_out)
          × ((negotiate_if_needed h q).2 ≡ false)
    rejected_answer_strands k p a x rest sent refused =
        let q = (accept_answer (negotiate_if_needed h p).0 a).0 in
        let (kept, cleared) = tracks-rejected (negotiate_if_needed h p).0 a x refused in
        let c = d.sdp_api p.rtc in
        let same : q.tracks_out ≡ (stage h (map (mark_dead h) p.tracks_out) c).0 =
          kept ∙ tracks-negotiate_if_needed h p sent in
        (
          cleared,
          kept,
          rw (negotiates_iff_needed k h q, same, no_needs _ (stage-Offered p.tracks_out c rest))
              (ground arith),
        )
