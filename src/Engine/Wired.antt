-- ===== src/Engine/Wired.antt =====
-- The wiring of the whole engine: every room is wired up in itself, over one heap of tracks.
pub mod Polls
pub mod Leaves
pub mod Clears
pub mod Joins
pub mod Turns
pub mod Routes
use mathlib.Core.Option
use ababilx_chat_sfu.Shared.{
  ℕ, ◌+◌, ◌<◌, ◌≡◌, ◌≢◌, refl, ◌∙◌, sym, ap, subst, String, Bool, true, false, Option, none, some,
  List, [], ◌∷◌, ◌++◌, map, All, All-map, All-and, arith, Option-cases, Bool-cases, inl, inr,
  lookup, lookup-insert, lookup-map_values, map_values, insert, string_Eq, update_first, ◌==◌,
  if◌then◌else◌,
}
use ababilx_chat_sfu.Shared.Keys.{
  Unique, keys_of, Unique-insert, Unique-same_keys, keys-map_values, All-lookup, lookup_of_all,
}
use ababilx_chat_sfu.Media.{Deps}
use ababilx_chat_sfu.Tracks.{Arcs}
use ababilx_chat_sfu.Peer.{Peer, Effect}
use ababilx_chat_sfu.Room.{Room}
use ababilx_chat_sfu.Hall.{seated, Distinct}
use ababilx_chat_sfu.Report.{ReportEvent}
use ababilx_chat_sfu.Engine.{Engine, emit, report_event}
use ababilx_chat_sfu.Engine.Seats.{seat_of, seats_of, seats_in, IsValid, seats-update_first}
use ababilx_chat_sfu.Engine.Io.Seats.{seats-map}
use ababilx_chat_sfu.Engine.Io.Spreads.{OriginsBelow}
use ababilx_chat_sfu.Wiring.{IsTuned, IsFresh}
use ababilx_chat_sfu.Wiring.Rooms.{here, IsWired}

module _ {d : Deps} where
  -- No room's name stands twice, the heap's addresses are used once and its publishers have had an id,
  -- and every room is wired.
  pub record IsMeshed (e : Engine d) : Type 0 where
    pub unique : Unique e.rooms
    pub fresh : IsFresh e.arcs
    pub origins : OriginsBelow e.next_peer e.arcs
    pub wired : (m : String) (r : Room d) → lookup m e.rooms ≡ some r → IsWired e.arcs r

  -- `f` has the heap of `e`, and each of its rooms comes from one of `e` that was as well wired.
  pub record Rewires (e f : Engine d) : Type 0 where
    pub same_arcs : f.arcs ≡ e.arcs
    pub same_next : f.next_peer ≡ e.next_peer
    pub still_unique : Unique e.rooms → Unique f.rooms
    pub from :
        (m : String) (s : Room d)
        → lookup m f.rooms ≡ some s
        → (r : Room d) × (lookup m e.rooms ≡ some r) × (IsWired e.arcs r → IsWired e.arcs s)

  pub IsMeshed-Rewires : {e f : Engine d} → Rewires e f → IsMeshed e → IsMeshed f
  IsMeshed-Rewires {e} {f} x w = record {
    unique = x.still_unique w.unique;
    fresh = subst IsFresh (sym x.same_arcs) w.fresh;
    origins =
        subst (λ n. OriginsBelow n f.arcs) (sym x.same_next)
          (subst (OriginsBelow e.next_peer) (sym x.same_arcs) w.origins);
    wired = λ m s there.
        let (r, old, keeps) = x.from m s there in
        subst (λ h. IsWired h s) (sym x.same_arcs) (keeps (w.wired m r old));
  }

  pub Rewires-refl : (e : Engine d) → Rewires e e
  Rewires-refl e = record {
    same_arcs = refl;
    same_next = refl;
    still_unique = λ u. u;
    from = λ m s there. (s, there, λ w. w);
  }

  pub Rewires-trans : {e f g : Engine d} → Rewires e f → Rewires f g → Rewires e g
  Rewires-trans {e} x y = record {
    same_arcs = y.same_arcs ∙ x.same_arcs;
    same_next = y.same_next ∙ x.same_next;
    still_unique = λ u. y.still_unique (x.still_unique u);
    from = λ m s there.
        let (r, middle, later) = y.from m s there in
        let (q, old, first) = x.from m r middle in
        (q, old, λ w. subst (λ h. IsWired h r → IsWired h s) x.same_arcs later (first w));
  }

  pub Rewires-emit : (fx : List (Effect d)) (e : Engine d) → Rewires e (emit fx e)
  unfolding emit
  Rewires-emit fx e = record {
    same_arcs = refl;
    same_next = refl;
    still_unique = λ u. u;
    from = λ m s there. (s, there, λ w. w);
  }

  pub Rewires-report_event :
      (extend : ReportEvent → ReportEvent) (event room : String) (e : Engine d)
      → Rewires e (report_event extend event room e)
  unfolding report_event
  Rewires-report_event extend event room e = record {
    same_arcs = refl;
    same_next = refl;
    still_unique = λ u. u;
    from = λ m s there. (s, there, λ w. w);
  }

  module _ (h : Arcs d) (f : Peer d → Peer d) (same : (p : Peer d) → seat_of (f p) ≡ seat_of p)
      (keeps : (present : ℕ → Bool) (p : Peer d)
        → IsTuned h present [] p
        → IsTuned h present [] (f p)) where
    IsTuned-map :
        (present : ℕ → Bool) (ps : List (Peer d))
        → All (IsTuned h present []) ps
        → All (IsTuned h present []) (map f ps)
    IsTuned-map present [] ts = tt
    IsTuned-map present (p ∷ ps) ts = (keeps present p ts.0, IsTuned-map present ps ts.1)

    IsTuned-update_first :
        (test : Peer d → Bool) (present : ℕ → Bool) (ps : List (Peer d))
        → All (IsTuned h present []) ps
        → All (IsTuned h present []) (update_first test f ps)
    IsTuned-update_first test present [] ts = tt
    IsTuned-update_first test present (p ∷ ps) ts = elim (Bool-cases (test p)) [
      | inl this ↦ rw this (keeps present p ts.0, ts.1)
      | inr other ↦ rw other (ts.0, IsTuned-update_first test present ps ts.1)
    ]

    -- Every peer of a room is changed, or the first that passes a test.
    pub IsWired-map : (r : Room d) → IsWired h r → IsWired h (record r { peers = map f r.peers })
    IsWired-map r w =
        subst (λ seats. All (IsTuned h (λ j. seated j seats) []) (map f r.peers))
          (sym (seats-map f r.peers same)) (IsTuned-map (here r) r.peers w)

    pub IsWired-update_first :
        (test : Peer d → Bool) (r : Room d)
        → IsWired h r
        → IsWired h (record r { peers = update_first test f r.peers })
    IsWired-update_first test r w =
        subst (λ seats. All (IsTuned h (λ j. seated j seats) []) (update_first test f r.peers))
          (sym (seats-update_first test f r.peers same))
          (IsTuned-update_first test (here r) r.peers w)

  -- One room is put in another's place.
  pub Rewires-insert :
      (name : String) (r s : Room d) (e : Engine d)
      → lookup name e.rooms ≡ some r
      → (IsWired e.arcs r → IsWired e.arcs s)
      → Rewires e (record e { rooms = insert name s e.rooms })
  Rewires-insert name r s e there keeps = record {
    same_arcs = refl;
    same_next = refl;
    still_unique = λ u. Unique-insert name s e.rooms u;
    from = λ m q found. elim (Bool-cases (name == m)) [
      | inl this ↦
          let same : name ≡ m = (string_Eq.matches_iff name m).0 this in
          let put : s ≡ q = ground (arith, found, this, lookup-insert name m s e.rooms) in
          (
            r,
            subst (λ n. lookup n e.rooms ≡ some r) same there,
            λ w. subst (IsWired e.arcs) put (keeps w),
          )
      | inr other ↦ (q, ground (arith, found, other, lookup-insert name m s e.rooms), λ w. w)
    ];
  }

  -- All rooms are changed.
  pub Rewires-map_values :
      (f : Room d → Room d) (e : Engine d)
      → ((r : Room d) → IsWired e.arcs r → IsWired e.arcs (f r))
      → Rewires e (record e { rooms = map_values f e.rooms })
  Rewires-map_values f e keeps = record {
    same_arcs = refl;
    same_next = refl;
    still_unique =
        λ u. Unique-same_keys e.rooms (map_values f e.rooms) (keys-map_values f e.rooms) u;
    from = λ m q found. elim (Option-cases (lookup m e.rooms)) [
      | inl none_there ↦ absurd (ground (arith, found, none_there, lookup-map_values f m e.rooms))
      | inr (r, there) ↦
          let same : f r ≡ q = ground (arith, found, there, lookup-map_values f m e.rooms) in
          (r, there, λ w. subst (IsWired e.arcs) same (keeps r w))
    ];
  }
