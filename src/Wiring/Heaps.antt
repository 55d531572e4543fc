-- ===== src/Wiring/Heaps.antt =====
-- What allocations and drops of tracks mean for the wiring of a peer that they are not about.
use ababilx_chat_sfu.Shared.{
  ℕ, ◌+◌, ◌<◌, ◌≤◌, ◌≡◌, ◌≢◌, refl, ◌∙◌, sym, Bool, true, false, not, ◌&&◌, none, some, List, [],
  ◌∷◌, ◌++◌, map, ◌==◌, nat_Eq, ltb, leb, is_some, All, All-map, bit, arith, if◌then◌else◌,
  lookup-insert, lookup-remove, any, count_above, Bool-cases, Option-cases, inl, inr,
}
use ababilx_chat_sfu.Media.{Deps}
use ababilx_chat_sfu.Tracks.{
  Arcs, TrackIn, TrackOut, TrackInEntry, upgrade, alloc, drop_arc, drop_entries, Propagated, noop,
  timeout, track_open, media, keyframe_request,
}
use ababilx_chat_sfu.Peer.{Peer}
use ababilx_chat_sfu.Wiring.{wanted, cut_off, pending, QueueBelow, IsTuned, IsFresh}

module _ {d : Deps} where
  pub upgrade-alloc :
      (t : TrackIn d) (h : Arcs d) (a : ℕ)
      → upgrade (alloc t h).1 a ≡ (if h.next == a then some t else upgrade h a)
  unfolding alloc upgrade
  upgrade-alloc t h a = lookup-insert h.next a t h.live

  pub upgrade-drop_entries :
      (es : List (TrackInEntry d)) (h : Arcs d) (a : ℕ)
      → upgrade (drop_entries es h) a
        ≡ (if any (λ (e : TrackInEntry d). e.id.address == a) es then none else upgrade h a)
  unfolding drop_entries drop_arc upgrade
  upgrade-drop_entries [] h a = refl
  upgrade-drop_entries (e ∷ es) h a =
      ground
        (arith, upgrade-drop_entries es (drop_arc e.id h) a, lookup-remove e.id.address a h.live)

  pub IsFresh-alloc : (t : TrackIn d) (h : Arcs d) → IsFresh h → IsFresh (alloc t h).1
  unfolding alloc
  IsFresh-alloc t h f a s there = ground (arith, there, upgrade-alloc t h a, f a s)

  pub pending-append :
      (j a : ℕ) (xs ys : List (Propagated d))
      → pending j a (xs ++ ys) ≡ pending j a xs + pending j a ys
  pending-append j a [] ys = omega arith
  pending-append j a (x ∷ xs) ys = omega (arith, pending-append j a xs ys)

  pub pending_above :
      (j a n : ℕ) (xs : List (Propagated d)) → QueueBelow n xs → n ≤ a → pending j a xs ≡ 0
  pending_above j a n [] h k = refl
  pending_above j a n (noop ∷ xs) h k = omega (arith, pending_above j a n xs h.1 k)
  pending_above j a n (timeout at ∷ xs) h k = omega (arith, pending_above j a n xs h.1 k)
  pending_above j a n (media o m ∷ xs) h k = omega (arith, pending_above j a n xs h.1 k)
  pending_above j a n (keyframe_request o r q m ∷ xs) h k =
      omega (arith, pending_above j a n xs h.1 k)
  pending_above j a n (track_open source w ∷ xs) h k =
      ground (arith, h.0, pending_above j a n xs h.1 k)

  pub QueueBelow-append :
      (n : ℕ) (xs ys : List (Propagated d))
      → QueueBelow n xs
      → QueueBelow n ys
      → QueueBelow n (xs ++ ys)
  QueueBelow-append n [] ys h k = k
  QueueBelow-append n (x ∷ xs) ys h k = (h.0, QueueBelow-append n xs ys h.1 k)

  pub QueueBelow-le :
      (m n : ℕ) (xs : List (Propagated d)) → m ≤ n → QueueBelow m xs → QueueBelow n xs
  QueueBelow-le m n [] l h = tt
  QueueBelow-le m n (noop ∷ xs) l h = (tt, QueueBelow-le m n xs l h.1)
  QueueBelow-le m n (timeout at ∷ xs) l h = (tt, QueueBelow-le m n xs l h.1)
  QueueBelow-le m n (media o r ∷ xs) l h = (tt, QueueBelow-le m n xs l h.1)
  QueueBelow-le m n (keyframe_request o r q k ∷ xs) l h = (tt, QueueBelow-le m n xs l h.1)
  QueueBelow-le m n (track_open source w ∷ xs) l h =
      (omega (arith, l, h.0), QueueBelow-le m n xs l h.1)

  -- `g` is `h` with more tracks, all of the publisher `id`, and `news` announces each of them once.
  pub record Grows (id : ℕ) (h : Arcs d) (news : List (Propagated d)) (g : Arcs d) : Type 0 where
    pub fresh : IsFresh g
    pub further : h.next ≤ g.next
    pub same : (a : ℕ) → a < h.next → upgrade g a ≡ upgrade h a
    pub by_id : (a : ℕ) (t : TrackIn d) → h.next ≤ a → upgrade g a ≡ some t → t.origin ≡ id
    pub announced :
        (j a : ℕ)
        → pending j a news ≡ bit (not (j == id) && (leb h.next a && is_some (upgrade g a)))
    pub news_below : QueueBelow g.next news

  pub unused : (h : Arcs d) (a : ℕ) → IsFresh h → h.next ≤ a → upgrade h a ≡ none
  unused h a f l = elim (Option-cases (upgrade h a)) [
    | inl e ↦ e
    | inr (t, e) ↦ absurd (omega (arith, l, f a t e))
  ]

  pub Grows-refl : (id : ℕ) (h : Arcs d) → IsFresh h → Grows id h [] h
  Grows-refl id h f = record {
    fresh = f;
    further = omega arith;
    same = λ a l. refl;
    by_id = λ a t l there. absurd (omega (arith, l, f a t there));
    announced = λ j a. ground (arith, unused h a f);
    news_below = tt;
  }

  pub Grows-trans :
      {id : ℕ} {h g k : Arcs d} {xs ys : List (Propagated d)}
      → Grows id h xs g
      → Grows id g ys k
      → Grows id h (xs ++ ys) k
  Grows-trans {id} {h} {g} {k} {xs} {ys} x y = record {
    fresh = y.fresh;
    further = omega (arith, x.further, y.further);
    same = λ a l. y.same a (omega (arith, x.further)) ∙ x.same a l;
    by_id = λ a t l there. elim (Bool-cases (ltb a g.next)) [
      | inl old ↦ x.by_id a t l (sym (y.same a (ground (arith, old))) ∙ there)
      | inr new ↦ y.by_id a t (ground (arith, new)) there
    ];
    announced = λ j a.
        rw pending-append (
          ground
            (arith, x.announced j a, y.announced j a, x.further, y.same a, unused g a x.fresh));
    news_below =
        QueueBelow-append k.next xs ys (QueueBelow-le g.next k.next xs y.further x.news_below)
          y.news_below;
  }

  pub Grows-alloc :
      (t : TrackIn d) (h : Arcs d)
      → IsFresh h
      → Grows t.origin h (track_open t.origin h.next ∷ []) (alloc t h).1
  unfolding alloc
  Grows-alloc t h f = record {
    fresh = IsFresh-alloc t h f;
    further = omega arith;
    same = λ a l. ground (arith, upgrade-alloc t h a);
    by_id = λ a s l there. ground (arith, there, upgrade-alloc t h a, f a s);
    announced = λ j a. ground (arith, upgrade-alloc t h a, unused h a f);
    news_below = (omega arith, tt);
  }

  module _ {id : ℕ} {h g : Arcs d} {news : List (Propagated d)} (x : Grows id h news g)
      (f : IsFresh h) where
    pub uncut-Grows :
        (ts : List (TrackOut d))
        → All (λ (w : ℕ). w < h.next) (map (λ (t : TrackOut d). t.track_in) ts)
        → All (λ (t : TrackOut d). cut_off h t ≡ false) ts
        → All (λ (t : TrackOut d). cut_off g t ≡ false) ts
    uncut-Grows [] b u = tt
    uncut-Grows (t ∷ ts) b u = (ground (arith, u.0, x.same t.track_in b.0), uncut-Grows ts b.1 u.1)

    -- A peer that is not the publisher, with the part of the news that its room gets.
    IsTuned-news :
        (present : ℕ → Bool) (queue more : List (Propagated d)) (p : Peer d)
        → QueueBelow h.next queue
        → p.id ≢ id
        → ((a : ℕ)
            → pending p.id a more ≡ bit (present id && (leb h.next a && is_some (upgrade g a))))
        → IsTuned h present queue p
        → IsTuned g present (queue ++ more) p
    IsTuned-news present queue more p q other heard t = record {
      owns = λ a. elim (Bool-cases (ltb a h.next)) [
        | inl old ↦ rw (x.same a (ground (arith, old))) (t.owns a)
        | inr new ↦ elim (Option-cases (upgrade g a)) [
          | inl no_track ↦ ground (arith, no_track, t.owns a, unused h a f)
          | inr (s, there) ↦
              ground (arith, there, t.owns a, unused h a f, x.by_id a s (ground (arith, new)) there)
        ]
      ];
      hears = λ a s there. rw pending-append (elim (Bool-cases (ltb a h.next)) [
        | inl old ↦
            ground (arith, heard a, t.hears a s (sym (x.same a (ground (arith, old))) ∙ there))
        | inr new ↦ ground (
          arith,
          heard a,
          there,
          pending_above p.id a h.next queue q,
          count_above a h.next (wanted p) t.below,
          x.by_id a s (ground (arith, new)) there,
        )
      ]);
      below = All-map _ _ (wanted p) (λ w l. omega (arith, l, x.further)) t.below;
      uncut = uncut-Grows p.tracks_out t.below t.uncut;
    }

    -- A peer in the publisher's room, with the news in the room's queue.
    pub IsTuned-Grows :
        (present : ℕ → Bool) (queue : List (Propagated d)) (p : Peer d)
        → QueueBelow h.next queue
        → p.id ≢ id
        → present id ≡ true
        → IsTuned h present queue p
        → IsTuned g present (queue ++ news) p
    IsTuned-Grows present queue p q other here t =
        IsTuned-news present queue news p q other (λ a. ground (arith, x.announced p.id a, here)) t

    -- A peer in another room.
    pub IsTuned-elsewhere :
        (present : ℕ → Bool) (p : Peer d)
        → p.id ≢ id
        → present id ≡ false
        → IsTuned h present [] p
        → IsTuned g present [] p
    IsTuned-elsewhere present p other absent t =
        IsTuned-news present [] [] p tt other (λ a. ground (arith, absent)) t
