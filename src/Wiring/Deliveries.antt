-- ===== src/Wiring/Deliveries.antt =====
-- src/sfu/room.rs, `propagate`: what is on its way reaches every peer of the room but its source.
use ababilx_chat_sfu.Shared.{
  ℕ, ◌+◌, ◌<◌, ◌≡◌, refl, sym, subst, Bool, false, none, some, List, [], ◌∷◌, ◌++◌, map, ◌==◌,
  nat_Eq, All, All-map, All-append, count, bit, arith, Option-cases, Bool-cases, inl, inr,
}
use ababilx_chat_sfu.Media.{Deps}
use ababilx_chat_sfu.Tracks.{
  Arcs, TrackOut, to_open, Propagated, noop, timeout, track_open, media, keyframe_request, source,
}
use ababilx_chat_sfu.Peer.{Peer}
use ababilx_chat_sfu.Peer.Media.Wires.{forward-same, serve_keyframe_request-same}
use ababilx_chat_sfu.Room.{Room, subscribe, deliver_from, propagate, published}
use ababilx_chat_sfu.Engine.Io.{propagate_all}
use ababilx_chat_sfu.Wiring.{QueueBelow, IsTuned}
use ababilx_chat_sfu.Wiring.Same.{IsTuned-SameWires}
use ababilx_chat_sfu.Engine.Io.Drains.{IsTuned-pending}

module _ {d : Deps} where
  count-wanted-append :
      (a : ℕ) (ts : List (TrackOut d)) (t : TrackOut d)
      → count a (map (λ (x : TrackOut d). x.track_in) (ts ++ t ∷ []))
        ≡ count a (map (λ (x : TrackOut d). x.track_in) ts) + bit (t.track_in == a)
  count-wanted-append a [] t = omega arith
  count-wanted-append a (x ∷ ts) t = omega (arith, count-wanted-append a ts t)

  below-append :
      (n : ℕ) (ts : List (TrackOut d)) (t : TrackOut d)
      → All (λ (w : ℕ). w < n) (map (λ (x : TrackOut d). x.track_in) ts)
      → t.track_in < n
      → All (λ (w : ℕ). w < n) (map (λ (x : TrackOut d). x.track_in) (ts ++ t ∷ []))
  below-append n [] t h k = (k, tt)
  below-append n (x ∷ ts) t h k = (h.0, below-append n ts t h.1 k)

  module _ (h : Arcs d) (present : ℕ → Bool) where
    -- A subscription that was on its way has arrived.
    IsTuned-subscribe :
        (origin w : ℕ) (q : List (Propagated d)) (p : Peer d)
        → w < h.next
        → (p.id == origin) ≡ false
        → IsTuned h present (track_open origin w ∷ q) p
        → IsTuned h present q (subscribe w p)
    unfolding subscribe published
    IsTuned-subscribe origin w q p l other t =
        let out : TrackOut d = record { track_in = w; state = to_open } in
        record {
          owns = t.owns;
          hears = λ a s there.
              rw (count-wanted-append a p.tracks_out out)
                (ground (arith, t.hears a s there, other));
          below = below-append h.next p.tracks_out out t.below l;
          uncut = All-append _ p.tracks_out (out ∷ []) t.uncut (refl, tt);
        }

    IsTuned-deliver_from :
        (x : Propagated d) (origin : ℕ) (q : List (Propagated d)) (p : Peer d)
        → source x ≡ some origin
        → QueueBelow h.next (x ∷ [])
        → IsTuned h present (x ∷ q) p
        → IsTuned h present q (deliver_from h x origin p)
    unfolding deliver_from source
    IsTuned-deliver_from noop origin q p e l t = cc
    IsTuned-deliver_from (timeout at) origin q p e l t = cc
    IsTuned-deliver_from (track_open id w) origin q p e l t = elim (Bool-cases (p.id == origin)) [
      | inl own ↦ rw own (IsTuned-pending (λ a. ground (arith, own, e)) t)
      | inr other ↦ rw other (IsTuned-subscribe id w q p l.0 (ground (arith, other, e)) t)
    ]
    IsTuned-deliver_from (media id m) origin q p e l t =
        let t' : IsTuned h present q p = IsTuned-pending (λ a. omega arith) t in
        elim (Bool-cases (p.id == origin)) [
          | inl own ↦ rw own t'
          | inr other ↦ rw other (IsTuned-SameWires (forward-same h id m p) t')
        ]
    IsTuned-deliver_from (keyframe_request id r publisher m) origin q p e l t =
        let t' : IsTuned h present q p = IsTuned-pending (λ a. omega arith) t in
        elim (Bool-cases (p.id == origin)) [
          | inl own ↦ rw own t'
          | inr other ↦ elim (Bool-cases (publisher == p.id)) [
            | inl asked ↦
                rw (other, asked) (IsTuned-SameWires (serve_keyframe_request-same h m r.kind p) t')
            | inr not_asked ↦ rw (other, not_asked) t'
          ]
        ]

    IsTuned-sourceless :
        (x : Propagated d) (q : List (Propagated d)) (p : Peer d)
        → source x ≡ none
        → IsTuned h present (x ∷ q) p
        → IsTuned h present q p
    unfolding source
    IsTuned-sourceless noop q p e t = IsTuned-pending (λ a. omega arith) t
    IsTuned-sourceless (timeout at) q p e t = IsTuned-pending (λ a. omega arith) t
    IsTuned-sourceless (track_open id w) q p e t = cc
    IsTuned-sourceless (media id m) q p e t = cc
    IsTuned-sourceless (keyframe_request id r publisher m) q p e t = cc

    IsTuned-map-deliver_from :
        (x : Propagated d) (origin : ℕ) (q : List (Propagated d)) (ps : List (Peer d))
        → source x ≡ some origin
        → QueueBelow h.next (x ∷ [])
        → All (IsTuned h present (x ∷ q)) ps
        → All (IsTuned h present q) (map (deliver_from h x origin) ps)
    IsTuned-map-deliver_from x origin q [] e l ts = tt
    IsTuned-map-deliver_from x origin q (p ∷ ps) e l ts = (
      IsTuned-deliver_from x origin q p e l ts.0,
      IsTuned-map-deliver_from x origin q ps e l ts.1,
    )

    propagate-none : (x : Propagated d) (r : Room d) → source x ≡ none → propagate h x r ≡ r
    unfolding propagate
    propagate-none x r e = rw (e, propagate) refl

    propagate-some :
        (x : Propagated d) (r : Room d) (origin : ℕ)
        → source x ≡ some origin
        → propagate h x r ≡ record r { peers = map (deliver_from h x origin) r.peers }
    unfolding propagate
    propagate-some x r origin e = rw (e, propagate) refl

    IsTuned-propagate :
        (x : Propagated d) (q : List (Propagated d)) (r : Room d)
        → QueueBelow h.next (x ∷ [])
        → All (IsTuned h present (x ∷ q)) r.peers
        → All (IsTuned h present q) (propagate h x r).peers
    IsTuned-propagate x q r l ts = elim (Option-cases (source x)) [
      | inl nowhere ↦
          subst (λ s. All (IsTuned h present q) s.peers) (sym (propagate-none x r nowhere))
            (All-map _ _ r.peers (λ p t. IsTuned-sourceless x q p nowhere t) ts)
      | inr (origin, from) ↦
          subst (λ s. All (IsTuned h present q) s.peers) (sym (propagate-some x r origin from))
            (IsTuned-map-deliver_from x origin q r.peers from l ts)
    ]

    -- When all of the queue is propagated, every peer has what was on its way.
    pub IsTuned-propagate_all :
        (q : List (Propagated d)) (r : Room d)
        → QueueBelow h.next q
        → All (IsTuned h present q) r.peers
        → All (IsTuned h present []) (propagate_all h q r).peers
    unfolding propagate_all
    IsTuned-propagate_all [] r l ts = ts
    IsTuned-propagate_all (x ∷ q) r l ts =
        IsTuned-propagate_all q (propagate h x r) l.1 (IsTuned-propagate x q r (l.0, tt) ts)
