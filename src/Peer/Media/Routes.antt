-- ===== src/Peer/Media/Routes.antt =====
-- src/sfu/peer_media.rs, `forward` and `handle_incoming_keyframe_request`: which subscription of a peer
-- carries the packets of a live track, and where a keyframe request on its m-line goes.
use ababilx_chat_sfu.Shared.{
  ℕ, ◌<◌, ◌≡◌, ◌≢◌, refl, ◌∙◌, sym, ap, Bool, none, some, List, [], ◌∷◌, map, ◌==◌, nat_Eq, All,
  find, find_of_all, count, arith, Bool-cases, Option-cases, inl, inr,
}
use ababilx_chat_sfu.Media.{Deps, MediaData, KeyframeRequest}
use ababilx_chat_sfu.Tracks.{Arcs, TrackIn, TrackOut, Propagated, upgrade, mid}
use ababilx_chat_sfu.Peer.{Peer}
use ababilx_chat_sfu.Peer.Media.{
  carries, at_mid, write_to, forward, handle_incoming_keyframe_request,
}
use ababilx_chat_sfu.Wiring.{wanted}

module _ {d : Deps} where
  -- No other live track has the publisher and the m-line of the track `t` at `a`.
  abbrev pub IsOnly : Arcs d → ℕ → TrackIn d → Type 0
  IsOnly h a t =
      (b : ℕ) (s : TrackIn d) → upgrade h b ≡ some s → s.origin ≡ t.origin → s.mid ≡ t.mid → b ≡ a

  -- No two subscriptions have the same m-line.
  abbrev pub LinesApart : List (TrackOut d) → Type 0
  LinesApart [] = Unit
  LinesApart (s ∷ ts) =
      All (λ (t : TrackOut d). (n : d.Mid) → mid s ≡ some n → mid t ≢ some n) ts × LinesApart ts

  found_of_count :
      (a : ℕ) (ts : List (TrackOut d))
      → 0 < count a (map (λ (t : TrackOut d). t.track_in) ts)
      → (s : TrackOut d) × (s.track_in ≡ a) × (find (λ t. t.track_in == a) ts ≡ some s)
  found_of_count a [] more = absurd (omega (arith, more))
  found_of_count a (t ∷ ts) more = elim (Bool-cases (t.track_in == a)) [
    | inl this ↦ (t, ground (arith, this), ground (arith, this))
    | inr other ↦
        let (s, at_a, found) = found_of_count a ts (ground (arith, more, other)) in
        (s, at_a, ground (arith, found, other))
  ]

  find-same :
      (f g : TrackOut d → Bool) (ts : List (TrackOut d))
      → ((t : TrackOut d) → f t ≡ g t)
      → find f ts ≡ find g ts
  find-same f g [] same = refl
  find-same f g (t ∷ ts) same = ground (arith, same t, find-same f g ts same)

  find-at_mid :
      (test : TrackOut d → Bool) (n : d.Mid) (ts : List (TrackOut d)) (s : TrackOut d)
      → LinesApart ts
      → find test ts ≡ some s
      → mid s ≡ some n
      → find (at_mid n) ts ≡ some s
  unfolding at_mid
  find-at_mid test n [] s apart found line = absurd (ground (arith, found))
  find-at_mid test n (t ∷ ts) s apart found line = elim (Bool-cases (test t)) [
    | inl this ↦
        let same : t ≡ s = ground (arith, found, this) in
        let line_t : mid t ≡ some n = ap mid same ∙ line in
        ground (arith, line_t, same, d.mid_Eq.matches_iff n n)
    | inr other ↦
        let found_in : find test ts ≡ some s = ground (arith, found, other) in
        let rest = find-at_mid test n ts s apart.1 found_in line in
        elim (Option-cases (mid t)) [
          | inl no_line ↦ ground (arith, no_line, rest)
          | inr (k, line_t) ↦ elim (Bool-cases (d.mid_Eq.matches k n)) [
            | inl same ↦ absurd (
                find_of_all (λ u. (l : d.Mid) → mid t ≡ some l → mid u ≢ some l) test ts s apart.0
                  found_in n (line_t ∙ ap some ((d.mid_Eq.matches_iff k n).0 same)) line)
            | inr differ ↦ ground (arith, line_t, differ, rest)
          ]
        ]
  ]

  module _ (h : Arcs d) (a : ℕ) (t : TrackIn d) (live : upgrade h a ≡ some t)
      (only : IsOnly h a t) where
    carries_iff :
        (m : d.Mid) (s : TrackOut d) → m ≡ t.mid → carries h t.origin m s ≡ (s.track_in == a)
    unfolding carries
    carries_iff m s same = elim (Option-cases (upgrade h s.track_in)) [
      | inl dead ↦ elim (Bool-cases (s.track_in == a)) [
        | inl this ↦
            absurd (
              ground (arith, dead, live, ap (upgrade h) ((nat_Eq.matches_iff s.track_in a).0 this)))
        | inr other ↦ ground (arith, dead, other)
      ]
      | inr (i, there) ↦ elim (Bool-cases (s.track_in == a)) [
        | inl this ↦
            let is_t : some i ≡ some t =
              sym there ∙ ap (upgrade h) ((nat_Eq.matches_iff s.track_in a).0 this) ∙ live in
            ground (
              arith,
              there,
              this,
              is_t,
              same,
              nat_Eq.matches_iff i.origin t.origin,
              d.mid_Eq.matches_iff i.mid m,
            )
        | inr other ↦ ground (
          arith,
          there,
          other,
          same,
          nat_Eq.matches_iff i.origin t.origin,
          d.mid_Eq.matches_iff i.mid m,
          nat_Eq.matches_iff s.track_in a,
          only s.track_in i there,
        )
      ]
    ]

  -- The subscription `s` of `p` is the way of the track `t` at `a`, and of the requests for it.
  pub record IsRoute (h : Arcs d) (a : ℕ) (t : TrackIn d) (p : Peer d) (s : TrackOut d)
      : Type 0 where
    pub to_track : s.track_in ≡ a
    pub no_line : (m : MediaData d) → m.mid ≡ t.mid → mid s ≡ none → forward h t.origin m p ≡ p
    pub no_writer :
        (m : MediaData d) (n : d.Mid)
        → m.mid ≡ t.mid
        → mid s ≡ some n
        → d.writer p.rtc n ≡ none
        → forward h t.origin m p ≡ p
    pub carried :
        (m : MediaData d) (n : d.Mid) (w : d.Writer)
        → m.mid ≡ t.mid
        → mid s ≡ some n
        → d.writer p.rtc n ≡ some w
        → forward h t.origin m p ≡ write_to m p w
    pub back :
        (request : KeyframeRequest d)
        → mid s ≡ some request.mid
        → handle_incoming_keyframe_request request h p
          ≡ Propagated.keyframe_request p.id (record request { rid = none }) t.origin t.mid

  module _ (h : Arcs d) (a : ℕ) (t : TrackIn d) (live : upgrade h a ≡ some t) (only : IsOnly h a t)
      (p : Peer d) (apart : LinesApart p.tracks_out) where
    find-carries :
        (m : d.Mid) (s : TrackOut d)
        → m ≡ t.mid
        → find (λ u. u.track_in == a) p.tracks_out ≡ some s
        → find (carries h t.origin m) p.tracks_out ≡ some s
    find-carries m s same found =
        find-same (carries h t.origin m) (λ u. u.track_in == a) p.tracks_out
          (λ u. carries_iff h a t live only m u same)
        ∙ found

    -- A peer that is subscribed to a live track has a route for it.
    pub IsRoute-subscribed : 0 < count a (wanted p) → (s : TrackOut d) × IsRoute h a t p s
    unfolding forward handle_incoming_keyframe_request
    IsRoute-subscribed more =
        let (s, at_a, found) = found_of_count a p.tracks_out more in
        (
          s,
          record {
            to_track = at_a;
            no_line = λ m same line. ground (arith, find-carries m.mid s same found, line);
            no_writer = λ m n same line writer.
                ground (arith, find-carries m.mid s same found, line, writer);
            carried = λ m n w same line writer.
                ground (arith, find-carries m.mid s same found, line, writer);
            back = λ request line.
                let there : upgrade h s.track_in ≡ some t = ap (upgrade h) at_a ∙ live in
                ground (
                  arith,
                  find-at_mid (λ u. u.track_in == a) request.mid p.tracks_out s apart found line,
                  there,
                );
          },
        )
