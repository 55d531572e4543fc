-- ===== src/Engine/Io/Drains.antt =====
-- src/sfu/engine_io.rs, `poll_rooms`: draining a peer, and then a room, keeps the wiring.
use ababilx_chat_sfu.Shared.{
  ℕ, zero, suc, ◌≡◌, refl, ◌∙◌, sym, subst, Bool, some, List, [], ◌∷◌, ◌++◌, nat_Eq, arith,
  Option-cases, Bool-cases, inl, inr,
}
use ababilx_chat_sfu.Media.{Deps, Driver}
use ababilx_chat_sfu.Tracks.{Arcs, Propagated, noop, timeout, track_open, media, keyframe_request}
use ababilx_chat_sfu.Peer.{Peer}
use ababilx_chat_sfu.Peer.Poll.{Polled, poll_output}
use ababilx_chat_sfu.Engine.Io.{Drained, wake_of, poll_peer, after_round, last_round}
use ababilx_chat_sfu.Wiring.{pending, QueueBelow, IsTuned, IsFresh}
use ababilx_chat_sfu.Wiring.Heaps.{
  Grows, Grows-refl, Grows-trans, pending-append, QueueBelow-append, QueueBelow-le,
}
use ababilx_chat_sfu.Wiring.Rounds.{Tunes, Tunes-poll_output}

module _ {d : Deps} where
  pub IsTuned-pending :
      {h : Arcs d} {present : ℕ → Bool} {q r : List (Propagated d)} {p : Peer d}
      → ((a : ℕ) → pending p.id a r ≡ pending p.id a q)
      → IsTuned h present q p
      → IsTuned h present r p
  IsTuned-pending e t = record {
    owns = t.owns;
    hears = λ a x there. omega (arith, e a, t.hears a x there);
    below = t.below;
    uncut = t.uncut;
  }

  -- What draining a peer gives.
  pub record Drains (h : Arcs d) (present : ℕ → Bool) (queue : List (Propagated d)) (id : ℕ)
      (x : Drained d (Peer d)) : Type 0 where
    pub grows : Grows id h x.queue x.arcs
    pub kept_id : x.value.id ≡ id
    pub tuned : IsTuned x.arcs present (queue ++ x.queue) x.value

  wakes : (x : Propagated d) (at : ℕ) → wake_of x ≡ some at → x ≡ timeout at
  wakes noop at e = cc
  wakes (timeout a) at e = cc
  wakes (track_open o w) at e = cc
  wakes (media o m) at e = cc
  wakes (keyframe_request o r q m) at e = cc

  Drains-still :
      (h : Arcs d) (present : ℕ → Bool) (queue : List (Propagated d)) (p : Peer d) (wake : ℕ)
      → IsFresh h
      → IsTuned h present queue p
      → Drains h present queue p.id
          (record { value = p; arcs = h; effects = []; queue = []; wake = wake })
  Drains-still h present queue p wake f t = record {
    grows = Grows-refl p.id h f;
    kept_id = refl;
    tuned = IsTuned-pending (λ a. pending-append p.id a queue [] ∙ omega arith) t;
  }

  Drains-last_round :
      (v : Driver d) (h : Arcs d) (present : ℕ → Bool) (queue : List (Propagated d)) (id : ℕ)
      (out : Polled d) (wake at : ℕ)
      → out.propagated ≡ timeout at
      → Tunes h present queue id out
      → Drains h present queue id (last_round v out wake at)
  unfolding last_round
  Drains-last_round v h present queue id out wake at e t =
      let silent : (j a : ℕ) → pending j a (out.propagated ∷ []) ≡ 0 = λ j a. rw e refl in
      record {
        grows = record {
          fresh = t.grows.fresh;
          further = t.grows.further;
          same = t.grows.same;
          by_id = t.grows.by_id;
          announced = λ j a. sym (silent j a) ∙ t.grows.announced j a;
          news_below = tt;
        };
        kept_id = t.kept_id;
        tuned = IsTuned-pending (λ a. rw (pending-append, pending-append, silent) refl) t.tuned;
      }

  Drains-after_round :
      (h : Arcs d) (present : ℕ → Bool) (queue : List (Propagated d)) (id : ℕ) (out : Polled d)
      (rest : Drained d (Peer d))
      → Tunes h present queue id out
      → Drains out.arcs present (queue ++ out.propagated ∷ []) out.peer.id rest
      → Drains h present queue id (record rest {
        effects = out.effects ++ rest.effects;
        queue = out.propagated ∷ rest.queue;
      })
  Drains-after_round h present queue id out rest t x = record {
    grows =
        Grows-trans t.grows (subst (λ i. Grows i out.arcs rest.queue rest.arcs) t.kept_id x.grows);
    kept_id = x.kept_id ∙ t.kept_id;
    tuned =
        IsTuned-pending
          (λ a. omega (
            arith,
            pending-append rest.value.id a queue (out.propagated ∷ rest.queue),
            pending-append rest.value.id a (queue ++ out.propagated ∷ []) rest.queue,
            pending-append rest.value.id a queue (out.propagated ∷ []),
          ))
          x.tuned;
  }

  module _ (v : Driver d) (present : ℕ → Bool) where
    pub Drains-poll_peer :
        (fuel now wake : ℕ) (h : Arcs d) (queue : List (Propagated d)) (p : Peer d)
        (x : Drained d (Peer d))
        → IsFresh h
        → QueueBelow h.next queue
        → IsTuned h present queue p
        → poll_peer v fuel now wake h p ≡ some x
        → Drains h present queue p.id x
    unfolding poll_peer after_round
    Drains-poll_peer zero now wake h queue p x f b t e = cc
    Drains-poll_peer (suc fuel) now wake h queue p x f b t e =
        let out = poll_output v now h p in
        let u = Tunes-poll_output h f present queue b v now p t in
        elim (Bool-cases (d.is_alive p.rtc)) [
          | inr dead ↦
              subst (Drains h present queue p.id) (ground (arith, e, dead))
                (Drains-still h present queue p wake f t)
          | inl alive ↦ elim (Option-cases (wake_of out.propagated)) [
            | inr (at, asks) ↦
                subst (Drains h present queue p.id) (ground (arith, e, alive, asks)) (
                  Drains-last_round v h present queue p.id out wake at
                    (wakes out.propagated at asks) u)
            | inl goes_on ↦ elim (Option-cases (poll_peer v fuel now wake out.arcs out.peer)) [
              | inl stuck ↦ absurd (ground (arith, e, alive, goes_on, stuck))
              | inr (rest, done) ↦
                  subst (Drains h present queue p.id) (ground (arith, e, alive, goes_on, done)) (
                    Drains-after_round h present queue p.id out rest u (
                      Drains-poll_peer fuel now wake out.arcs (queue ++ out.propagated ∷ [])
                        out.peer rest u.grows.fresh
                        (QueueBelow-append out.arcs.next queue (out.propagated ∷ [])
                          (QueueBelow-le h.next out.arcs.next queue u.grows.further b)
                          u.grows.news_below)
                        u.tuned done))
            ]
          ]
        ]
