-- ===== src/Wiring/Same.antt =====
-- What leaves the wiring of a peer as it is.
use ababilx_chat_sfu.Shared.{ℕ, ◌≡◌, ◌∙◌, ap, Bool, false, List, map, nat_Eq, All}
use ababilx_chat_sfu.Media.{Deps}
use ababilx_chat_sfu.Tracks.{Arcs, TrackOut, Propagated}
use ababilx_chat_sfu.Peer.{Peer}
use ababilx_chat_sfu.Room.{published}
use ababilx_chat_sfu.Wiring.{wanted, cut_off, IsTuned}

module _ {d : Deps} where
  -- `q` is `p` with the same publications and subscriptions.
  pub record SameWires (h : Arcs d) (p q : Peer d) : Type 0 where
    pub same_id : q.id ≡ p.id
    pub same_published : published q ≡ published p
    pub same_wanted : wanted q ≡ wanted p
    pub still_uncut :
        All (λ (t : TrackOut d). cut_off h t ≡ false) p.tracks_out
        → All (λ (t : TrackOut d). cut_off h t ≡ false) q.tracks_out

  pub SameWires-trans :
      {h : Arcs d} {p q r : Peer d} → SameWires h p q → SameWires h q r → SameWires h p r
  SameWires-trans s t = record {
    same_id = t.same_id ∙ s.same_id;
    same_published = t.same_published ∙ s.same_published;
    same_wanted = t.same_wanted ∙ s.same_wanted;
    still_uncut = λ u. t.still_uncut (s.still_uncut u);
  }

  pub IsTuned-SameWires :
      {h : Arcs d} {present : ℕ → Bool} {queue : List (Propagated d)} {p q : Peer d}
      → SameWires h p q
      → IsTuned h present queue p
      → IsTuned h present queue q
  IsTuned-SameWires s t = record {
    owns = λ a. rw (s.same_published, s.same_id) (t.owns a);
    hears = λ a x there. rw (s.same_wanted, s.same_id) (t.hears a x there);
    below = rw s.same_wanted t.below;
    uncut = s.still_uncut t.uncut;
  }

  -- What leaves the subscriptions as they are.
  pub same_tracks :
      (h : Arcs d) (p q : Peer d)
      → q.id ≡ p.id
      → published q ≡ published p
      → q.tracks_out ≡ p.tracks_out
      → SameWires h p q
  same_tracks h p q i s o = record {
    same_id = i;
    same_published = s;
    same_wanted = ap (map (λ (t : TrackOut d). t.track_in)) o;
    still_uncut = λ u. rw o u;
  }
