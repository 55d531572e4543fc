-- ===== src/Engine/Io/Spreads.antt =====
-- src/sfu/engine_io.rs, `poll_rooms`: draining the peers of a room one after the other.
use mathlib.Core.List.{append-nil, append_assoc}
use ababilx_chat_sfu.Shared.{
  ℕ, ◌<◌, ◌≡◌, ◌≢◌, refl, ◌∙◌, sym, ap₂, subst, Bool, true, false, some, List, [], ◌∷◌, ◌++◌, map,
  All, All-map, All-and, arith, Option-cases, Bool-cases, inl, inr, ltb,
}
use ababilx_chat_sfu.Media.{Deps, Driver}
use ababilx_chat_sfu.Tracks.{Arcs, TrackIn, Propagated, upgrade}
use ababilx_chat_sfu.Peer.{Peer}
use ababilx_chat_sfu.Engine.Io.{Drained, poll_peer, after_peer, poll_peers}
use ababilx_chat_sfu.Engine.Io.Drains.{IsTuned-pending, Drains, Drains-poll_peer}
use ababilx_chat_sfu.Wiring.{QueueBelow, IsTuned, IsFresh}
use ababilx_chat_sfu.Wiring.Heaps.{
  Grows, pending-append, QueueBelow-append, QueueBelow-le, IsTuned-Grows, IsTuned-elsewhere,
}

module _ {d : Deps} where
  -- Every publisher's id lies below `n`.
  abbrev pub OriginsBelow : ℕ → Arcs d → Type 0
  OriginsBelow n h = (a : ℕ) (t : TrackIn d) → upgrade h a ≡ some t → t.origin < n

  OriginsBelow-Grows :
      {id : ℕ} {h g : Arcs d} {news : List (Propagated d)} (n : ℕ)
      → Grows id h news g
      → id < n
      → OriginsBelow n h
      → OriginsBelow n g
  OriginsBelow-Grows {id} {h} n x l o a t there = elim (Bool-cases (ltb a h.next)) [
    | inl old ↦ o a t (sym (x.same a (ground (arith, old))) ∙ there)
    | inr new ↦ omega (arith, l, x.by_id a t (ground (arith, new)) there)
  ]

  abbrev pub Apart : ℕ → List (Peer d) → Type 0
  Apart id = All (λ (p : Peer d). id ≢ p.id)

  -- No two peers share an id.
  abbrev pub AllApart : List (Peer d) → Type 0
  AllApart [] = Unit
  AllApart (p ∷ ps) = All (λ (q : Peer d). q.id ≢ p.id) ps × AllApart ps

  -- What draining the peers `ps` of a room means for them, for the others of the room, for the peers
  -- elsewhere, and for the heap.
  pub record Spreads (h : Arcs d) (present : ℕ → Bool) (queue : List (Propagated d))
      (ps : List (Peer d)) (x : Drained d (List (Peer d))) : Type 0 where
    pub fresh : IsFresh x.arcs
    pub queued : QueueBelow x.arcs.next (queue ++ x.queue)
    pub same_ids : map (λ (p : Peer d). p.id) x.value ≡ map (λ (p : Peer d). p.id) ps
    pub tuned : All (IsTuned x.arcs present (queue ++ x.queue)) x.value
    pub others :
        (q : Peer d)
        → Apart q.id ps
        → IsTuned h present queue q
        → IsTuned x.arcs present (queue ++ x.queue) q
    pub elsewhere :
        (there : ℕ → Bool) (q : Peer d)
        → Apart q.id ps
        → All (λ (p : Peer d). there p.id ≡ false) ps
        → IsTuned h there [] q
        → IsTuned x.arcs there [] q
    pub origins :
        (n : ℕ) → All (λ (p : Peer d). p.id < n) ps → OriginsBelow n h → OriginsBelow n x.arcs

  requeue :
      {h : Arcs d} {present : ℕ → Bool} (q r s : List (Propagated d)) (p : Peer d)
      → IsTuned h present ((q ++ r) ++ s) p
      → IsTuned h present (q ++ (r ++ s)) p
  requeue q r s p = IsTuned-pending (λ a. omega (
    arith,
    pending-append p.id a q (r ++ s),
    pending-append p.id a r s,
    pending-append p.id a (q ++ r) s,
    pending-append p.id a q r,
  ))

  Spreads-after_peer :
      (h : Arcs d) (present : ℕ → Bool) (queue : List (Propagated d)) (p : Peer d)
      (ps : List (Peer d)) (y : Drained d (Peer d)) (z : Drained d (List (Peer d)))
      → IsFresh h
      → QueueBelow h.next queue
      → present p.id ≡ true
      → All (λ (q : Peer d). q.id ≢ p.id) ps
      → Drains h present queue p.id y
      → Spreads y.arcs present (queue ++ y.queue) ps z
      → Spreads h present queue (p ∷ ps) (record z {
        value = y.value ∷ z.value;
        effects = y.effects ++ z.effects;
        queue = y.queue ++ z.queue;
      })
  Spreads-after_peer h present queue p ps y z f b here apart s t =
      let regroup = requeue {h = z.arcs} {present = present} queue y.queue z.queue in
      record {
        fresh = t.fresh;
        queued = subst (QueueBelow z.arcs.next) (append_assoc queue y.queue z.queue) t.queued;
        same_ids = ap₂ (λ i l. i ∷ l) s.kept_id t.same_ids;
        tuned = (
          regroup y.value
              (t.others y.value (All-map _ _ ps (λ q n e. n (sym e ∙ s.kept_id)) apart) s.tuned),
          All-map _ _ z.value regroup t.tuned,
        );
        others = λ q far u.
            regroup q (t.others q far.1 (IsTuned-Grows s.grows f present queue q b far.0 here u));
        elsewhere = λ there q far absent u.
            t.elsewhere there q far.1 absent.1
              (IsTuned-elsewhere s.grows f there q far.0 absent.0 u);
        origins = λ n l o. t.origins n l.1 (OriginsBelow-Grows n s.grows l.0 o);
      }

  module _ (v : Driver d) (present : ℕ → Bool) where
    pub Spreads-poll_peers :
        (fuel now wake : ℕ) (h : Arcs d) (queue : List (Propagated d)) (ps : List (Peer d))
        (x : Drained d (List (Peer d)))
        → IsFresh h
        → QueueBelow h.next queue
        → All (λ (p : Peer d). present p.id ≡ true) ps
        → AllApart ps
        → All (IsTuned h present queue) ps
        → poll_peers v fuel now wake h ps ≡ some x
        → Spreads h present queue ps x
    unfolding poll_peers after_peer
    Spreads-poll_peers fuel now wake h queue [] x f b here apart ts e =
        let none_left : Drained d (List (Peer d)) = record {
          value = [];
          arcs = h;
          effects = [];
          queue = [];
          wake = wake;
        } in
        let same : none_left ≡ x = ground (arith, e) in
        subst (Spreads h present queue []) same (record {
          fresh = f;
          queued = rw append-nil b;
          same_ids = refl;
          tuned = tt;
          others = λ q far u. rw append-nil u;
          elsewhere = λ there q far absent u. u;
          origins = λ n l o. o;
        })
    Spreads-poll_peers fuel now wake h queue (p ∷ ps) x f b here apart ts e =
        elim (Option-cases (poll_peer v fuel now wake h p)) [
          | inl stuck ↦ absurd (ground (arith, e, stuck))
          | inr (y, found) ↦ elim (Option-cases (poll_peers v fuel now y.wake y.arcs ps)) [
            | inl stuck ↦ absurd (ground (arith, e, found, stuck))
            | inr (z, rest) ↦
                let s = Drains-poll_peer v present fuel now wake h queue p y f b ts.0 found in
                let t =
                  Spreads-poll_peers fuel now y.wake y.arcs (queue ++ y.queue) ps z s.grows.fresh
                    (QueueBelow-append y.arcs.next queue y.queue
                      (QueueBelow-le h.next y.arcs.next queue s.grows.further b) s.grows.news_below)
                    here.1 apart.1
                    (All-and _ _ _ ps
                      (λ q n u. IsTuned-Grows s.grows f present queue q b n here.0 u) apart.0 ts.1)
                    rest in
                subst (Spreads h present queue (p ∷ ps)) (ground (arith, e, found, rest))
                  (Spreads-after_peer h present queue p ps y z f b here.0 apart.0 s t)
          ]
        ]
