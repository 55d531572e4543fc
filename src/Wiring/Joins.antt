-- ===== src/Wiring/Joins.antt =====
-- src/sfu/room.rs, `subscribe_to_existing`: the wiring of a room that a new peer enters.
use mathlib.Core.List.{append_assoc, append-nil, map-append}
use ababilx_chat_sfu.Shared.{
  ℕ, ◌+◌, ◌<◌, ◌≡◌, ◌≢◌, refl, ◌∙◌, sym, ap, subst, Bool, true, false, not, Option, none, some,
  List, [], ◌∷◌, ◌++◌, map, ◌==◌, nat_Eq, All, All-map, All-append, All-count, count, count-append,
  bit, arith, if◌then◌else◌, keep, gather, update_first, Option-cases, inl, inr,
}
use ababilx_chat_sfu.Media.{Deps}
use ababilx_chat_sfu.Tracks.{Arcs, TrackIn, TrackOut, upgrade}
use ababilx_chat_sfu.Peer.{Peer}
use ababilx_chat_sfu.Hall.{Seat, seated, Distinct}
use ababilx_chat_sfu.Hall.Vacate.{seated-none, ids_ne}
use ababilx_chat_sfu.Hall.Sit.{seated-append-one}
use ababilx_chat_sfu.Room.{
  Room, has_id, published, subscribe, subscribe_all, existing, subscribe_to_existing,
}
use ababilx_chat_sfu.Engine.Seats.{seat_of, seats_of}
use ababilx_chat_sfu.Engine.Join.Retire.{seats-append-one}
use ababilx_chat_sfu.Engine.Io.Spreads.{Apart, OriginsBelow}
use ababilx_chat_sfu.Wiring.{IsTuned, IsFresh, wanted, of_origin, cut_off}
use ababilx_chat_sfu.Wiring.Rooms.{here, IsWired, All-seated, Apart-present}

module _ {d : Deps} where
  -- A live track whose publisher is among the seats.
  abbrev held : List Seat → Option (TrackIn d) → Bool
  held seats none = false
  held seats (some t) = seated t.origin seats

  held-cons :
      (s : Seat) (seats : List Seat) (o : Option (TrackIn d))
      → All (λ (t : Seat). (t.0 ≢ s.0) × (t.1 ≢ s.1)) seats
      → bit (of_origin s.0 o) + bit (held seats o) ≡ bit (held (s ∷ seats) o)
  held-cons s seats none apart = refl
  held-cons s seats (some t) apart =
      ground (arith, seated-none s.0 seats (ids_ne s seats apart), nat_Eq.matches_iff t.origin s.0)

  -- The peers of a room publish each live track of a publisher there once.
  count-gather :
      (h : Arcs d) (present : ℕ → Bool) (a : ℕ) (ps : List (Peer d))
      → Distinct (map seat_of ps)
      → All (IsTuned h present []) ps
      → count a (gather published ps) ≡ bit (held (map seat_of ps) (upgrade h a))
  count-gather h present a [] distinct ts = ground arith
  count-gather h present a (p ∷ ps) distinct ts =
      count-append a (published p) (gather published ps)
      ∙ omega (
        arith,
        ts.0.owns a,
        count-gather h present a ps distinct.1 ts.1,
        held-cons (seat_of p) (map seat_of ps) (upgrade h a) distinct.0,
      )

  below-gather :
      (h : Arcs d) (present : ℕ → Bool) (ps : List (Peer d))
      → IsFresh h
      → Distinct (map seat_of ps)
      → All (IsTuned h present []) ps
      → All (λ (w : ℕ). w < h.next) (gather published ps)
  below-gather h present ps fresh distinct ts =
      All-count (λ w. w < h.next) (gather published ps)
        (λ a more. elim (Option-cases (upgrade h a)) [
          | inl no_track ↦
              absurd (ground (arith, more, no_track, count-gather h present a ps distinct ts))
          | inr (t, there) ↦ fresh a t there
        ])

  -- A peer with new subscriptions.
  record Subscribes (h : Arcs d) (ws : List ℕ) (p q : Peer d) : Type 0 where
    same_id : q.id ≡ p.id
    same_seat : seat_of q ≡ seat_of p
    same_published : published q ≡ published p
    more_wanted : wanted q ≡ wanted p ++ ws
    still_uncut :
        All (λ (t : TrackOut d). cut_off h t ≡ false) p.tracks_out
        → All (λ (t : TrackOut d). cut_off h t ≡ false) q.tracks_out

  wanted-subscribe : (w : ℕ) (p : Peer d) → wanted (subscribe w p) ≡ wanted p ++ w ∷ []
  unfolding subscribe
  wanted-subscribe w p = map-append _ p.tracks_out _

  same_subscribe :
      (h : Arcs d) (w : ℕ) (p : Peer d)
      → ((subscribe w p).id ≡ p.id)
        × (seat_of (subscribe w p) ≡ seat_of p)
        × (published (subscribe w p) ≡ published p)
        × (All (λ (t : TrackOut d). cut_off h t ≡ false) p.tracks_out
            → All (λ (t : TrackOut d). cut_off h t ≡ false) (subscribe w p).tracks_out)
  unfolding subscribe published
  same_subscribe h w p = (refl, refl, refl, λ u. All-append _ p.tracks_out _ u (refl, tt))

  Subscribes-subscribe_all :
      (h : Arcs d) (ws : List ℕ) (p : Peer d) → Subscribes h ws p (subscribe_all ws p)
  unfolding subscribe_all
  Subscribes-subscribe_all h [] p = record {
    same_id = refl;
    same_seat = refl;
    same_published = refl;
    more_wanted = sym (append-nil (wanted p));
    still_uncut = λ u. u;
  }
  Subscribes-subscribe_all h (w ∷ ws) p =
      let x = Subscribes-subscribe_all h ws (subscribe w p) in
      record {
        same_id = x.same_id ∙ (same_subscribe h w p).0;
        same_seat = x.same_seat ∙ (same_subscribe h w p).1;
        same_published = x.same_published ∙ (same_subscribe h w p).2;
        more_wanted =
            x.more_wanted
            ∙ ap (λ l. l ++ ws) (wanted-subscribe w p)
            ∙ append_assoc (wanted p) (w ∷ []) ws;
        still_uncut = λ u. x.still_uncut ((same_subscribe h w p).3 u);
      }

  update_first-last :
      (n : ℕ) (f : Peer d → Peer d) (ps : List (Peer d)) (p : Peer d)
      → Apart n ps
      → p.id ≡ n
      → update_first (has_id n) f (ps ++ p ∷ []) ≡ ps ++ f p ∷ []
  update_first-last n f [] p apart i = ground (arith, i, nat_Eq.matches_iff p.id n)
  update_first-last n f (q ∷ ps) p apart i =
      ground (arith, apart.0, nat_Eq.matches_iff q.id n, update_first-last n f ps p apart.1 i)

  existing-last :
      (n : ℕ) (ps : List (Peer d)) (p : Peer d)
      → Apart n ps
      → p.id ≡ n
      → gather published (keep (λ q. not (has_id n q)) (ps ++ p ∷ [])) ≡ gather published ps
  existing-last n [] p apart i = ground (arith, i, nat_Eq.matches_iff p.id n)
  existing-last n (q ∷ ps) p apart i =
      ground (arith, apart.0, nat_Eq.matches_iff q.id n, existing-last n ps p apart.1 i)

  -- A peer of which the room's members are the same as far as live tracks go.
  IsTuned-present :
      (h : Arcs d) (present still : ℕ → Bool) (p : Peer d)
      → ((a : ℕ) (t : TrackIn d) → upgrade h a ≡ some t → still t.origin ≡ present t.origin)
      → IsTuned h present [] p
      → IsTuned h still [] p
  IsTuned-present h present still p same t = record {
    owns = t.owns;
    hears = λ a x there. ground (arith, t.hears a x there, same a x there);
    below = t.below;
    uncut = t.uncut;
  }

  module _ (h : Arcs d) (n : ℕ) (r : Room d) (p : Peer d) (fresh : IsFresh h)
      (origins : OriginsBelow n h) (distinct : Distinct (seats_of r)) (absent : here r n ≡ false)
      (w : IsWired h r) (i : p.id ≡ n) (no_in : p.tracks_in ≡ []) (no_out : p.tracks_out ≡ []) where
    apart : Apart n r.peers
    apart = Apart-present n (here r) r.peers absent (All-seated r.peers)

    ws : List ℕ
    ws = gather published r.peers

    peers-joined :
        (subscribe_to_existing n (record r { peers = r.peers ++ p ∷ [] })).peers
        ≡ r.peers ++ subscribe_all ws p ∷ []
    unfolding subscribe_to_existing existing ws
    peers-joined =
        rw (existing-last n r.peers p apart i)
          (update_first-last n (subscribe_all ws) r.peers p apart i)

    still : ℕ → Bool
    still j = if p.id == j then true else here r j

    here-joined : (j : ℕ) → seated j (map seat_of (r.peers ++ subscribe_all ws p ∷ [])) ≡ still j
    unfolding still
    here-joined j =
        ap (seated j) (seats-append-one r.peers (subscribe_all ws p))
        ∙ seated-append-one j (seats_of r) (seat_of (subscribe_all ws p))
        ∙ ap (λ k. if k == j then true else here r j) (Subscribes-subscribe_all h ws p).same_id

    still-present :
        (a : ℕ) (t : TrackIn d) → upgrade h a ≡ some t → still t.origin ≡ here r t.origin
    unfolding still
    still-present a t there = ground (arith, i, origins a t there, nat_Eq.matches_iff p.id t.origin)

    IsTuned-newcomer : IsTuned h still [] (subscribe_all ws p)
    unfolding ws published
    IsTuned-newcomer =
        let s = Subscribes-subscribe_all h ws p in
        let heard : wanted (subscribe_all ws p) ≡ ws =
          s.more_wanted ∙ ap (λ l. map (λ (t : TrackOut d). t.track_in) l ++ ws) no_out in
        record {
          owns = λ a. elim (Option-cases (upgrade h a)) [
            | inl no_track ↦ ground (arith, no_track, s.same_published, no_in)
            | inr (t, there) ↦ ground (
              arith,
              there,
              s.same_published,
              s.same_id,
              no_in,
              i,
              origins a t there,
              nat_Eq.matches_iff t.origin p.id,
            )
          ];
          hears = λ a t there.
              rw (heard, s.same_id)
                (ground (
                  arith,
                  there,
                  count-gather h (here r) a r.peers distinct w,
                  still-present a t there,
                  i,
                  origins a t there,
                  nat_Eq.matches_iff t.origin p.id,
                ));
          below = rw heard (below-gather h (here r) r.peers fresh distinct w);
          uncut = s.still_uncut (rw no_out tt);
        }

    -- A peer without tracks, of a new id, enters a wired room.
    pub IsWired-joined :
        IsWired h (subscribe_to_existing n (record r { peers = r.peers ++ p ∷ [] }))
    IsWired-joined =
        let all : All (IsTuned h still []) (r.peers ++ subscribe_all ws p ∷ []) =
          All-append _ r.peers (subscribe_all ws p ∷ [])
            (All-map _ _ r.peers (λ q t. IsTuned-present h (here r) still q still-present t) w)
            (IsTuned-newcomer, tt) in
        subst (λ ps. All (IsTuned h (λ j. seated j (map seat_of ps)) []) ps) (sym peers-joined)
          (All-map _ _ _
            (λ q t.
              IsTuned-present h still
                (λ j. seated j (map seat_of (r.peers ++ subscribe_all ws p ∷ []))) q
                (λ a x there. here-joined x.origin) t)
            all)
