-- ===== src/Wiring/Leaves.antt =====
-- src/sfu/room.rs, `remove`: the wiring of the room that a peer leaves, and of the others.
use ababilx_chat_sfu.Shared.{
  ℕ, ◌≡◌, ◌≢◌, refl, ◌∙◌, sym, Bool, true, false, some, List, [], ◌==◌, nat_Eq, All, All-and,
  All-remove_first, find_of_all, arith, if◌then◌else◌, subst,
}
use ababilx_chat_sfu.Media.{Deps}
use ababilx_chat_sfu.Tracks.{Arcs, drop_entries}
use ababilx_chat_sfu.Peer.{Peer}
use ababilx_chat_sfu.Hall.{Distinct}
use ababilx_chat_sfu.Hall.Vacate.{seated-vacate}
use ababilx_chat_sfu.Room.{Room, has_id, peer_of, removed}
use ababilx_chat_sfu.Engine.Seats.{seats_of, seats-remove_first, find-id}
use ababilx_chat_sfu.Engine.Io.Spreads.{Apart}
use ababilx_chat_sfu.Wiring.{IsTuned}
use ababilx_chat_sfu.Wiring.Drops.{Shrinks, Shrinks-drop_entries, IsTuned-Shrinks}
use ababilx_chat_sfu.Wiring.Rooms.{here, IsWired, All-seated, Apart-present}

module _ {d : Deps} where
  pub here-removed :
      (id : ℕ) (r : Room d) (j : ℕ)
      → Distinct (seats_of r)
      → here (removed id r) j ≡ (if id == j then false else here r j)
  unfolding removed
  here-removed id r j distinct = rw seats-remove_first (seated-vacate id j (seats_of r) distinct)

  module _ {id : ℕ} {h g : Arcs d} (x : Shrinks id h g) where
    IsTuned-stays :
        (present still : ℕ → Bool) (ps : List (Peer d))
        → ((j : ℕ) → j ≢ id → still j ≡ present j)
        → Apart id ps
        → All (IsTuned h present []) ps
        → All (IsTuned g still []) ps
    IsTuned-stays present still ps stay apart ts =
        All-and _ _ _ ps (λ p a t. IsTuned-Shrinks x present still p (λ e. a (sym e)) stay t) apart
          ts

    -- A room in which the peer is not.
    pub IsWired-elsewhere : (r : Room d) → here r id ≡ false → IsWired h r → IsWired g r
    IsWired-elsewhere r away w =
        IsTuned-stays (here r) (here r) r.peers (λ j n. refl)
          (Apart-present id (here r) r.peers away (All-seated r.peers)) w

    -- The room that it leaves.
    pub IsWired-removed :
        (r : Room d) → Distinct (seats_of r) → IsWired h r → IsWired g (removed id r)
    unfolding removed
    IsWired-removed r distinct w =
        IsTuned-stays (here r) (here (removed id r)) (removed id r).peers
          (λ j n. here-removed id r j distinct ∙ ground (arith, n))
          (Apart-present id (here (removed id r)) (removed id r).peers
            (here-removed id r id distinct ∙ ground (arith, nat_Eq.matches_iff id id))
            (All-seated (removed id r).peers))
          (All-remove_first (IsTuned h (here r) []) (has_id id) r.peers w)

  -- A peer of a wired room publishes what it takes with it.
  pub Shrinks-peer_of :
      (id : ℕ) (r : Room d) (p : Peer d) (h : Arcs d)
      → IsWired h r
      → peer_of id r ≡ some p
      → Shrinks id h (drop_entries p.tracks_in h)
  unfolding peer_of
  Shrinks-peer_of id r p h w found =
      subst (λ i. Shrinks i h (drop_entries p.tracks_in h)) (find-id id r.peers p found)
        (Shrinks-drop_entries h (here r) [] p
          (find_of_all (IsTuned h (here r) []) (has_id id) r.peers p w found))

  pub here-peer_of : (id : ℕ) (r : Room d) (p : Peer d) → peer_of id r ≡ some p → here r id ≡ true
  unfolding peer_of
  here-peer_of id r p found =
      subst (λ i. here r i ≡ true) (find-id id r.peers p found)
        (find_of_all (λ (q : Peer d). here r q.id ≡ true) (has_id id) r.peers p (All-seated r.peers)
          found)
