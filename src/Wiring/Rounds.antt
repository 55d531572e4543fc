-- ===== src/Wiring/Rounds.antt =====
-- src/sfu/peer.rs, `poll_output`, and all that it may call: what it does to the wiring.
use ababilx_chat_sfu.Shared.{
  ℕ, ◌+◌, ◌≡◌, refl, ◌∙◌, subst, Bool, none, List, [], ◌∷◌, ◌++◌, map, ◌==◌, nat_Eq, All-map, count,
  bit, arith, Bool-cases, inl, inr, Result, ok, err, String, count_above,
}
use ababilx_chat_sfu.Media.{
  Deps, Driver, Input, Output, transmit, timeout, event, ice_connection_state_change, media_added,
  media_data, keyframe_request, other_event, MediaAdded, IceConnectionState, connected,
}
use ababilx_chat_sfu.Tracks.{Arcs, TrackIn, TrackInEntry, alloc, Propagated, downgrade}
use ababilx_chat_sfu.Peer.{Peer, Effect}
use ababilx_chat_sfu.Peer.Negotiate.{negotiate_if_needed}
use ababilx_chat_sfu.Peer.Media.Wires.{handle_media_data_in-same, incoming_keyframe_request-cases}
use ababilx_chat_sfu.Peer.Negotiate.Wires.{negotiate_if_needed-SameWires}
use ababilx_chat_sfu.Peer.Media.{handle_media_added, handle_media_data_in}
use ababilx_chat_sfu.Peer.Poll.{
  Polled, handle_input, handle_ice_state, handle_event, handle_output, produced, poll_output,
}
use ababilx_chat_sfu.Room.{published}
use ababilx_chat_sfu.Wiring.{wanted, pending, QueueBelow, IsTuned, IsFresh}
use ababilx_chat_sfu.Wiring.Heaps.{
  Grows, Grows-refl, Grows-alloc, pending-append, pending_above, upgrade-alloc, unused, uncut-Grows,
}
use ababilx_chat_sfu.Wiring.Same.{SameWires, same_tracks, IsTuned-SameWires}

module _ {d : Deps} where
  handle_ice_state-same :
      (h : Arcs d) (now : ℕ) (s : IceConnectionState) (p : Peer d)
      → SameWires h p (handle_ice_state now s p)
  unfolding handle_ice_state published
  handle_ice_state-same h now connected p = same_tracks h p _ refl refl refl
  handle_ice_state-same h now _ p = same_tracks h p _ refl refl refl

  pub handle_input-same :
      (h : Arcs d) (v : Driver d) (input : Input d) (p : Peer d)
      → SameWires h p (handle_input v input p)
  unfolding handle_input published
  handle_input-same h v input p = same_tracks h p _ (ground arith) (ground arith) (ground arith)

  -- What is propagated opens no subscription.
  abbrev Quiet : Propagated d → Type 0
  Quiet x = (j a : ℕ) → pending j a (x ∷ []) ≡ 0

  -- What one output does to the peer, the heap and the queue.
  pub record Tunes (h : Arcs d) (present : ℕ → Bool) (queue : List (Propagated d)) (id : ℕ)
      (out : Polled d) : Type 0 where
    pub grows : Grows id h (out.propagated ∷ []) out.arcs
    pub kept_id : out.peer.id ≡ id
    pub tuned : IsTuned out.arcs present (queue ++ out.propagated ∷ []) out.peer

  count-published-append :
      (a : ℕ) (es : List (TrackInEntry d)) (e : TrackInEntry d)
      → count a (map (λ (x : TrackInEntry d). downgrade x.id) (es ++ e ∷ []))
        ≡ count a (map (λ (x : TrackInEntry d). downgrade x.id) es) + bit (e.id.address == a)
  count-published-append a [] e = omega arith
  count-published-append a (x ∷ es) e = omega (arith, count-published-append a es e)

  module _ (h : Arcs d) (f : IsFresh h) (present : ℕ → Bool) (queue : List (Propagated d))
      (b : QueueBelow h.next queue) where
    Grows-Quiet :
        (id : ℕ) (x : Propagated d) → Quiet x → QueueBelow h.next (x ∷ []) → Grows id h (x ∷ []) h
    Grows-Quiet id x q l =
        let g = Grows-refl id h f in
        record {
          fresh = f;
          further = g.further;
          same = g.same;
          by_id = g.by_id;
          announced = λ j a. q j a ∙ g.announced j a;
          news_below = l;
        }

    Tunes-Quiet :
        (p : Peer d) (out : Polled d)
        → out.arcs ≡ h
        → Quiet out.propagated
        → QueueBelow h.next (out.propagated ∷ [])
        → SameWires h p out.peer
        → IsTuned h present queue p
        → Tunes h present queue p.id out
    Tunes-Quiet p out e q l s t =
        let t' = IsTuned-SameWires s t in
        record {
          grows = rw e (Grows-Quiet p.id out.propagated q l);
          kept_id = s.same_id;
          tuned = rw e (record {
            owns = t'.owns;
            hears = λ a x there. rw (pending-append, q) (omega (arith, t'.hears a x there));
            below = t'.below;
            uncut = t'.uncut;
          });
        }

    -- A publication: the heap, the peer's tracks and the queue grow together.
    Tunes-media_added :
        (p : Peer d) (added : MediaAdded d)
        → IsTuned h present queue p
        → let out = handle_media_added added h p in
          Tunes h present queue p.id
            (record { peer = out.0; arcs = out.1; effects = []; propagated = out.2 })
    unfolding handle_media_added alloc published
    Tunes-media_added p added t =
        let track : TrackIn d = record { origin = p.id; mid = added.mid; kind = added.kind } in
        record {
          grows = Grows-alloc track h f;
          kept_id = refl;
          tuned = record {
            owns = λ a.
                count-published-append a p.tracks_in (record {
                  id = record { address = h.next; value = track };
                  last_keyframe_request = none;
                })
                ∙ ground (arith, t.owns a, upgrade-alloc track h a, unused h a f);
            hears = λ a s there. rw pending-append (
                ground (
                  arith,
                  there,
                  upgrade-alloc track h a,
                  t.hears a s,
                  pending_above p.id a h.next queue b,
                  count_above a h.next (wanted p) t.below,
                ));
            below = All-map _ _ (wanted p) (λ w l. omega (arith, l)) t.below;
            uncut = uncut-Grows (Grows-alloc track h f) f p.tracks_out t.below t.uncut;
          };
        }

    Tunes-handle_output :
        (now : ℕ) (o : Output d) (p : Peer d)
        → IsTuned h present queue p
        → Tunes h present queue p.id (handle_output now o h p)
    unfolding handle_output handle_event handle_media_data_in
    Tunes-handle_output now (transmit x) p t =
        Tunes-Quiet p _ refl (λ j a. refl) (tt, tt) (same_tracks h p p refl refl refl) t
    Tunes-handle_output now (timeout at) p t =
        Tunes-Quiet p _ refl (λ j a. refl) (tt, tt) (same_tracks h p p refl refl refl) t
    Tunes-handle_output now (event (ice_connection_state_change s)) p t =
        Tunes-Quiet p _ refl (λ j a. refl) (tt, tt) (handle_ice_state-same h now s p) t
    Tunes-handle_output now (event (media_added a)) p t = Tunes-media_added p a t
    Tunes-handle_output now (event (media_data m)) p t =
        Tunes-Quiet p _ refl (λ j a. refl) (tt, tt) (handle_media_data_in-same h now m p) t
    Tunes-handle_output now (event (keyframe_request r)) p t =
        elim (incoming_keyframe_request-cases r h p) [
          | inl nothing ↦
              Tunes-Quiet p _ refl (λ j a. rw nothing refl) (rw nothing (tt, tt))
                (same_tracks h p p refl refl refl) t
          | inr (o, q, publisher, m, e) ↦
              Tunes-Quiet p _ refl (λ j a. rw e refl) (rw e (tt, tt))
                (same_tracks h p p refl refl refl) t
        ]
    Tunes-handle_output now (event other_event) p t =
        Tunes-Quiet p _ refl (λ j a. refl) (tt, tt) (same_tracks h p p refl refl refl) t

    Tunes-produced :
        (now : ℕ) (p : Peer d) (r : Result String (Output d) × d.Rtc)
        → IsTuned h present queue p
        → Tunes h present queue p.id (produced now h p r)
    unfolding produced published
    Tunes-produced now p (ok o, rtc) t =
        let same = same_tracks h p (record p { rtc = rtc }) refl refl refl in
        Tunes-handle_output now o (record p { rtc = rtc }) (IsTuned-SameWires same t)
    Tunes-produced now p (err x, rtc) t =
        Tunes-Quiet p _ refl (λ j a. refl) (tt, tt)
          (same_tracks h p (record p { rtc = d.disconnect rtc }) refl refl refl) t

    Tunes-effects :
        (i j : ℕ)
        → i ≡ j
        → (out : Polled d) (fx : List (Effect d)) → Tunes h present queue i out
        → Tunes h present queue j (record out { effects = fx })
    Tunes-effects i j e out fx u =
        subst (λ k. Tunes h present queue k (record out { effects = fx })) e
          (record { grows = u.grows; kept_id = u.kept_id; tuned = u.tuned })

    pub Tunes-poll_output :
        (v : Driver d) (now : ℕ) (p : Peer d)
        → IsTuned h present queue p
        → Tunes h present queue p.id (poll_output v now h p)
    unfolding poll_output
    Tunes-poll_output v now p t = elim (Bool-cases (d.is_alive p.rtc)) [
      | inr dead ↦
          rw dead (Tunes-Quiet p _ refl (λ j a. refl) (tt, tt) (same_tracks h p p refl refl refl) t)
      | inl alive ↦
          let s = negotiate_if_needed-SameWires h p in
          let q = (negotiate_if_needed h p).0 in
          let u = Tunes-produced now q (v.poll_output q.rtc) (IsTuned-SameWires s t) in
          elim (Bool-cases (negotiate_if_needed h p).2) [
            | inl sent ↦ rw (alive, sent) (Tunes-Quiet p _ refl (λ j a. refl) (tt, tt) s t)
            | inr unsent ↦ rw (alive, unsent) (Tunes-effects q.id p.id s.same_id _ _ u)
          ]
    ]
