-- ===== src/Engine/Wired/Clears.antt =====
-- src/sfu/join.rs, `handle_join`: the wiring while the stale peers of a joining user go.
use ababilx_chat_sfu.Shared.{
  ℕ, ◌≡◌, ◌∙◌, sym, ap, subst, String, true, false, none, some, List, [], ◌∷◌, arith, if◌then◌else◌,
  ◌==◌, Option-cases, inl, inr, lookup, string_Eq, nat_Eq,
}
use ababilx_chat_sfu.Media.{Deps}
use ababilx_chat_sfu.Tracks.{drop_entries}
use ababilx_chat_sfu.Peer.{Peer}
use ababilx_chat_sfu.Room.{Room, peer_of, removed, subscribe_to_existing}
use ababilx_chat_sfu.Room
use ababilx_chat_sfu.Hall.{seated, Distinct}
use ababilx_chat_sfu.Hall.Vacate.{Distinct-vacate}
use ababilx_chat_sfu.Engine.Seats.{seats_of, seats-remove_first}
use ababilx_chat_sfu.Engine.Join.{Seating, retire_one, retire}
use ababilx_chat_sfu.Engine.Io.Spreads.{OriginsBelow}
use ababilx_chat_sfu.Engine.Wired.Leaves.{OriginsBelow-Shrinks}
use ababilx_chat_sfu.Wiring.{IsFresh}
use ababilx_chat_sfu.Wiring.Drops.{Shrinks, IsFresh-Shrinks}
use ababilx_chat_sfu.Wiring.Rooms.{here, Foreign, IsWired}
use ababilx_chat_sfu.Wiring.Leaves.{
  here-removed, here-peer_of, IsWired-elsewhere, IsWired-removed, Shrinks-peer_of,
}

module _ {d : Deps} where
  -- While the stale peers go: the room that is cleared and the other rooms are wired.
  pub record IsClearing (n : ℕ) (name : String) (rooms : List (String × Room d)) (s : Seating d)
      : Type 0 where
    pub fresh : IsFresh s.arcs
    pub origins : OriginsBelow n s.arcs
    pub distinct : Distinct (seats_of s.room)
    pub absent : here s.room n ≡ false
    pub wired : IsWired s.arcs s.room
    pub others :
        (m : String) (q : Room d)
        → (name == m) ≡ false
        → lookup m rooms ≡ some q
        → Foreign s.room q × IsWired s.arcs q

  module _ (n : ℕ) (name : String) (rooms : List (String × Room d)) where
    same-retire_one :
        (old : ℕ) (s : Seating d)
        → peer_of old s.room ≡ none
        → ((retire_one old s).room ≡ s.room) × ((retire_one old s).arcs ≡ s.arcs)
    unfolding retire_one Room.remove
    same-retire_one old s out = ground (arith, out)

    found-retire_one :
        (old : ℕ) (s : Seating d) (p : Peer d)
        → peer_of old s.room ≡ some p
        → ((retire_one old s).room ≡ removed old s.room)
          × ((retire_one old s).arcs ≡ drop_entries p.tracks_in s.arcs)
    unfolding retire_one Room.remove
    found-retire_one old s p found = ground (arith, found)

    IsClearing-same :
        (s t : Seating d)
        → t.room ≡ s.room
        → t.arcs ≡ s.arcs
        → IsClearing n name rooms s
        → IsClearing n name rooms t
    IsClearing-same s t room arcs c = record {
      fresh = subst IsFresh (sym arcs) c.fresh;
      origins = subst (OriginsBelow n) (sym arcs) c.origins;
      distinct = subst (λ r. Distinct (seats_of r)) (sym room) c.distinct;
      absent = subst (λ r. here r n ≡ false) (sym room) c.absent;
      wired =
          subst (λ r. IsWired t.arcs r) (sym room)
            (subst (λ h. IsWired h s.room) (sym arcs) c.wired);
      others = λ m q other there.
          let (foreign, old) = c.others m q other there in
          (subst (λ r. Foreign r q) (sym room) foreign, subst (λ h. IsWired h q) (sym arcs) old);
    }

    IsClearing-gone :
        (id : ℕ) (s t : Seating d)
        → t.room ≡ removed id s.room
        → here s.room id ≡ true
        → Shrinks id s.arcs t.arcs
        → IsClearing n name rooms s
        → IsClearing n name rooms t
    unfolding removed
    IsClearing-gone id s t room in_room x c =
        let seats : seats_of t.room ≡ seats_of (removed id s.room) = ap seats_of room in
        let mine : (j : ℕ) → here t.room j ≡ (if id == j then false else here s.room j) =
          λ j. ap (seated j) seats ∙ here-removed id s.room j c.distinct in
        record {
          fresh = IsFresh-Shrinks x c.fresh;
          origins = OriginsBelow-Shrinks n x c.origins;
          distinct =
              subst Distinct (sym (seats ∙ seats-remove_first id s.room.peers))
                (Distinct-vacate id (seats_of s.room) c.distinct);
          absent = mine n ∙ ground (arith, c.absent);
          wired = subst (IsWired t.arcs) (sym room) (IsWired-removed x s.room c.distinct c.wired);
          others = λ m q other there.
              let (foreign, old) = c.others m q other there in
              (
                λ j sits. foreign j (ground (arith, mine j, sits)),
                IsWired-elsewhere x q (foreign id in_room) old,
              );
        }

    IsClearing-retire_one :
        (old : ℕ) (s : Seating d)
        → IsClearing n name rooms s
        → IsClearing n name rooms (retire_one old s)
    IsClearing-retire_one old s c = elim (Option-cases (peer_of old s.room)) [
      | inl out ↦
          let (room, arcs) = same-retire_one old s out in
          IsClearing-same s (retire_one old s) room arcs c
      | inr (p, found) ↦
          let (room, arcs) = found-retire_one old s p found in
          IsClearing-gone old s (retire_one old s) room (here-peer_of old s.room p found)
            (subst (Shrinks old s.arcs) (sym arcs)
              (Shrinks-peer_of old s.room p s.arcs c.wired found))
            c
    ]

    pub IsClearing-retire :
        (ids : List ℕ) (s : Seating d)
        → IsClearing n name rooms s
        → IsClearing n name rooms (retire ids s)
    unfolding retire
    IsClearing-retire [] s c = c
    IsClearing-retire (old ∷ ids) s c =
        IsClearing-retire ids (retire_one old s) (IsClearing-retire_one old s c)
