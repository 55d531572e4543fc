-- ===== src/Peer/Negotiate/Wires.antt =====
-- src/sfu/negotiate.rs: negotiation neither adds nor takes a subscription to a live publication.
use ababilx_chat_sfu.Shared.{
  ◌≢◌, ◌⊎◌, ℕ, ◌<◌, ◌≡◌, refl, ◌∙◌, ap, Bool, true, false, ◌&&◌, Option, none, some, List, [], ◌∷◌,
  map, nat_Eq, is_some, All, count, arith, Bool-cases, inl, inr,
}
use ababilx_chat_sfu.Media.{Deps}
use ababilx_chat_sfu.Tracks.{
  Arcs, TrackIn, TrackOut, TrackInEntry, TrackOutState, to_open, negotiating, opened, to_stop,
  negotiating_stop, upgrade, downgrade,
}
use ababilx_chat_sfu.Peer.{Peer}
use ababilx_chat_sfu.Peer.Negotiate.{
  is_negotiating_stop, open_state, open_track, settle, accept_answer, mark_state, mark_dead,
  stage_state, stage, negotiate_if_needed,
}
use ababilx_chat_sfu.Room.{published}
use ababilx_chat_sfu.Wiring.{cut_off, state_stops, IsTuned}
use ababilx_chat_sfu.Wiring.Same.{SameWires, same_tracks, IsTuned-SameWires}

module _ {d : Deps} where
  wanted-stage :
      (h : Arcs d) (ts : List (TrackOut d)) (c : d.SdpApi)
      → map (λ (t : TrackOut d). t.track_in) (stage h (map (mark_dead h) ts) c).0
        ≡ map (λ (t : TrackOut d). t.track_in) ts
  unfolding stage mark_dead
  wanted-stage h [] c = refl
  wanted-stage h (t ∷ ts) c =
      let o = upgrade h t.track_in in
      ap (λ l. t.track_in ∷ l) (wanted-stage h ts (stage_state o (mark_state o t.state) c).1)

  staged_uncut :
      (o : Option (TrackIn d)) (s : TrackOutState d) (c : d.SdpApi)
      → (state_stops s && is_some o) ≡ false
      → (state_stops (stage_state o (mark_state o s) c).0 && is_some o) ≡ false
  unfolding stage_state mark_state
  staged_uncut none to_open c u = refl
  staged_uncut (some t) to_open c u = refl
  staged_uncut none (opened m) c u = refl
  staged_uncut (some t) (opened m) c u = refl
  staged_uncut none (to_stop m) c u = refl
  staged_uncut (some t) (to_stop m) c u = cc
  staged_uncut none (negotiating m) c u = refl
  staged_uncut (some t) (negotiating m) c u = refl
  staged_uncut none (negotiating_stop m) c u = refl
  staged_uncut (some t) (negotiating_stop m) c u = cc

  uncut-stage :
      (h : Arcs d) (ts : List (TrackOut d)) (c : d.SdpApi)
      → All (λ (t : TrackOut d). cut_off h t ≡ false) ts
      → All (λ (t : TrackOut d). cut_off h t ≡ false) (stage h (map (mark_dead h) ts) c).0
  unfolding stage mark_dead
  uncut-stage h [] c u = tt
  uncut-stage h (t ∷ ts) c u =
      let o = upgrade h t.track_in in
      (
        staged_uncut o t.state c u.0,
        uncut-stage h ts (stage_state o (mark_state o t.state) c).1 u.1,
      )

  tracks-negotiate_if_needed :
      (h : Arcs d) (p : Peer d)
      → let q = (negotiate_if_needed h p).0 in
        (q.id ≡ p.id)
        × (q.tracks_in ≡ p.tracks_in)
        × ((q.tracks_out ≡ p.tracks_out)
            ⊎ (q.tracks_out ≡ (stage h (map (mark_dead h) p.tracks_out) (d.sdp_api p.rtc)).0))
  unfolding negotiate_if_needed
  tracks-negotiate_if_needed h p = ground arith

  pub negotiate_if_needed-SameWires :
      (h : Arcs d) (p : Peer d) → SameWires h p (negotiate_if_needed h p).0
  unfolding published
  negotiate_if_needed-SameWires h p =
      let (i, s, o) = tracks-negotiate_if_needed h p in
      elim o [
        | inl same ↦ same_tracks h p _ i (ap (map (λ (e : TrackInEntry d). downgrade e.id)) s) same
        | inr staged ↦ record {
          same_id = i;
          same_published = ap (map (λ (e : TrackInEntry d). downgrade e.id)) s;
          same_wanted =
              ap (map (λ (t : TrackOut d). t.track_in)) staged
              ∙ wanted-stage h p.tracks_out (d.sdp_api p.rtc);
          still_uncut = λ u. rw staged (uncut-stage h p.tracks_out (d.sdp_api p.rtc) u);
        }
      ]

  -- A subscription through the answer: it goes or stays, and goes only if its publication is dead.
  settled_state :
      (o : Option (TrackIn d)) (s : TrackOutState d)
      → (state_stops s && is_some o) ≡ false
      → ((is_negotiating_stop (open_state s) ≡ true) × (is_some o ≡ false))
        ⊎ ((is_negotiating_stop (open_state s) ≡ false)
            × ((state_stops (open_state s) && is_some o) ≡ false))
  unfolding is_negotiating_stop open_state
  settled_state o to_open u = inr (refl, refl)
  settled_state o (negotiating m) u = inr (refl, refl)
  settled_state o (opened m) u = inr (refl, refl)
  settled_state o (to_stop m) u = inr (refl, u)
  settled_state o (negotiating_stop m) u = inl (refl, u)

  module _ (h : Arcs d) where
    count-settle :
        (a : ℕ) (live : TrackIn d) (ts : List (TrackOut d))
        → upgrade h a ≡ some live
        → All (λ (t : TrackOut d). cut_off h t ≡ false) ts
        → count a (map (λ (t : TrackOut d). t.track_in) (settle ts))
          ≡ count a (map (λ (t : TrackOut d). t.track_in) ts)
    unfolding settle open_track
    count-settle a live [] there u = refl
    count-settle a live (t ∷ ts) there u = elim (settled_state (upgrade h t.track_in) t.state u.0) [
      | inl (gone, dead) ↦
          let other : t.track_in ≢ a = λ e. ground (arith, there, dead, ap (upgrade h) e) in
          rw gone (ground (arith, other, count-settle a live ts there u.1))
      | inr (kept, fine) ↦ rw kept (omega (arith, count-settle a live ts there u.1))
    ]

    uncut-settle :
        (ts : List (TrackOut d))
        → All (λ (t : TrackOut d). cut_off h t ≡ false) ts
        → All (λ (t : TrackOut d). cut_off h t ≡ false) (settle ts)
    unfolding settle open_track
    uncut-settle [] u = tt
    uncut-settle (t ∷ ts) u = elim (settled_state (upgrade h t.track_in) t.state u.0) [
      | inl (gone, dead) ↦ rw gone (uncut-settle ts u.1)
      | inr (kept, fine) ↦ rw kept (fine, uncut-settle ts u.1)
    ]

    below-settle :
        (n : ℕ) (ts : List (TrackOut d))
        → All (λ (w : ℕ). w < n) (map (λ (t : TrackOut d). t.track_in) ts)
        → All (λ (w : ℕ). w < n) (map (λ (t : TrackOut d). t.track_in) (settle ts))
    unfolding settle open_track
    below-settle n [] b = tt
    below-settle n (t ∷ ts) b = elim (Bool-cases (is_negotiating_stop (open_state t.state))) [
      | inl gone ↦ rw gone (below-settle n ts b.1)
      | inr kept ↦ rw kept (b.0, below-settle n ts b.1)
    ]

    accept_answer-cases :
        (p : Peer d) (a : d.SdpAnswer)
        → let q = (accept_answer p a).0 in
          (q.id ≡ p.id)
          × (q.user_id ≡ p.user_id)
          × (q.tracks_in ≡ p.tracks_in)
          × ((q.tracks_out ≡ p.tracks_out) ⊎ (q.tracks_out ≡ settle p.tracks_out))
    unfolding accept_answer
    accept_answer-cases p a = ground arith

    pub IsTuned-accept_answer :
        (a : d.SdpAnswer) (present : ℕ → Bool) (p : Peer d)
        → IsTuned h present [] p
        → IsTuned h present [] (accept_answer p a).0
    unfolding published
    IsTuned-accept_answer a present p t =
        let (i, _, s, o) = accept_answer-cases p a in
        let same_published = ap (map (λ (e : TrackInEntry d). downgrade e.id)) s in
        elim o [
          | inl same ↦ IsTuned-SameWires (same_tracks h p _ i same_published same) t
          | inr settled ↦ record {
            owns = λ x. rw (same_published, i) (t.owns x);
            hears = λ x live there.
                rw (settled, i)
                  (rw (count-settle x live p.tracks_out there t.uncut) (t.hears x live there));
            below = rw settled (below-settle h.next p.tracks_out t.below);
            uncut = rw settled (uncut-settle p.tracks_out t.uncut);
          }
        ]
