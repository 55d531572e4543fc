-- ===== src/Wiring/Drops.antt =====
-- What the drop of a peer, with its tracks, means for the wiring of the others.
use ababilx_chat_sfu.Shared.{
  ℕ, ◌<◌, ◌≡◌, ◌≢◌, refl, Bool, true, false, none, List, [], ◌∷◌, map, ◌==◌, nat_Eq, All, count,
  bit, arith, if◌then◌else◌, any, Option-cases, inl, inr,
}
use ababilx_chat_sfu.Media.{Deps}
use ababilx_chat_sfu.Tracks.{
  Arcs, TrackOut, TrackInEntry, upgrade, drop_arc, drop_entries, Propagated,
}
use ababilx_chat_sfu.Peer.{Peer}
use ababilx_chat_sfu.Room.{published}
use ababilx_chat_sfu.Wiring.{wanted, of_origin, cut_off, IsTuned, IsFresh}
use ababilx_chat_sfu.Wiring.Heaps.{upgrade-drop_entries}

module _ {d : Deps} where
  -- `g` is `h` without the tracks of the publisher `id`.
  pub record Shrinks (id : ℕ) (h g : Arcs d) : Type 0 where
    pub same_next : g.next ≡ h.next
    pub gone : (a : ℕ) → upgrade g a ≡ (if of_origin id (upgrade h a) then none else upgrade h a)

  pub IsFresh-Shrinks : {id : ℕ} {h g : Arcs d} → Shrinks id h g → IsFresh h → IsFresh g
  IsFresh-Shrinks x f a t there = ground (arith, there, x.gone a, f a t, x.same_next)

  next-drop_entries : (es : List (TrackInEntry d)) (h : Arcs d) → (drop_entries es h).next ≡ h.next
  unfolding drop_entries drop_arc
  next-drop_entries [] h = refl
  next-drop_entries (e ∷ es) h = next-drop_entries es (drop_arc e.id h)

  any-count :
      (a : ℕ) (es : List (TrackInEntry d)) (b : Bool)
      → count a (map (λ (e : TrackInEntry d). e.id.address) es) ≡ bit b
      → any (λ (e : TrackInEntry d). e.id.address == a) es ≡ b
  any-count a [] true h = absurd (omega (arith, h))
  any-count a [] false h = refl
  any-count a (e ∷ es) b h = ground (arith, h, any-count a es b)

  pub Shrinks-drop_entries :
      (h : Arcs d) (present : ℕ → Bool) (queue : List (Propagated d)) (p : Peer d)
      → IsTuned h present queue p
      → Shrinks p.id h (drop_entries p.tracks_in h)
  unfolding published
  Shrinks-drop_entries h present queue p t = record {
    same_next = next-drop_entries p.tracks_in h;
    gone =
        λ a. rw (upgrade-drop_entries p.tracks_in h a, any-count a p.tracks_in _ (t.owns a)) refl;
  }

  module _ {id : ℕ} {h g : Arcs d} (x : Shrinks id h g) where
    uncut-Shrinks :
        (ts : List (TrackOut d))
        → All (λ (t : TrackOut d). cut_off h t ≡ false) ts
        → All (λ (t : TrackOut d). cut_off g t ≡ false) ts
    uncut-Shrinks [] u = tt
    uncut-Shrinks (t ∷ ts) u = (ground (arith, u.0, x.gone t.track_in), uncut-Shrinks ts u.1)

    below-Shrinks : (ws : List ℕ) → All (λ (w : ℕ). w < h.next) ws → All (λ (w : ℕ). w < g.next) ws
    below-Shrinks [] b = tt
    below-Shrinks (w ∷ ws) b = (omega (arith, b.0, x.same_next), below-Shrinks ws b.1)

    -- A peer that stays, whose room is the same but for the one that goes.
    pub IsTuned-Shrinks :
        (present still : ℕ → Bool) (p : Peer d)
        → p.id ≢ id
        → ((j : ℕ) → j ≢ id → still j ≡ present j)
        → IsTuned h present [] p
        → IsTuned g still [] p
    IsTuned-Shrinks present still p other stay t = record {
      owns = λ a. elim (Option-cases (upgrade h a)) [
        | inl no_track ↦ ground (arith, no_track, t.owns a, x.gone a)
        | inr (s, there) ↦ ground (arith, there, t.owns a, x.gone a)
      ];
      hears = λ a s there. elim (Option-cases (upgrade h a)) [
        | inl no_track ↦ ground (arith, no_track, there, x.gone a)
        | inr (r, live) ↦ ground (arith, live, there, x.gone a, t.hears a r live, stay r.origin)
      ];
      below = below-Shrinks (wanted p) t.below;
      uncut = uncut-Shrinks p.tracks_out t.uncut;
    }
