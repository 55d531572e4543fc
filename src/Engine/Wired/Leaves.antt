-- ===== src/Engine/Wired/Leaves.antt =====
-- src/sfu/join.rs, `drop_peer` and `reap`: a peer that goes leaves the engine wired.
use ababilx_chat_sfu.Shared.{
  ℕ, ◌≡◌, ◌⊎◌, refl, sym, subst, String, true, false, none, some, List, [], ◌∷◌, arith, ◌==◌,
  Option-cases, Bool-cases, inl, inr, lookup, insert, remove, lookup-insert, lookup-remove,
  string_Eq, nat_Eq,
}
use ababilx_chat_sfu.Shared.Keys.{Unique, Unique-insert, Unique-remove}
use ababilx_chat_sfu.Media.{Deps}
use ababilx_chat_sfu.Tracks.{Arcs, drop_entries}
use ababilx_chat_sfu.Peer.{Peer}
use ababilx_chat_sfu.Room.{Room, peer_of, removed}
use ababilx_chat_sfu.Room
use ababilx_chat_sfu.Hall.{seated, Distinct}
use ababilx_chat_sfu.Engine.{Engine, emit, report_event}
use ababilx_chat_sfu.Engine.Seats.{seats_of, seats_in, IsValid}
use ababilx_chat_sfu.Engine.Join.{
  report_left, close_if_empty, drop_from, drop_peer, drop_all, dead_peers, reap,
}
use ababilx_chat_sfu.Engine.Join.Leave.{drop_peer-IsValid}
use ababilx_chat_sfu.Engine.Io.Spreads.{OriginsBelow}
use ababilx_chat_sfu.Engine.Wired.{IsMeshed}
use ababilx_chat_sfu.Wiring.Drops.{Shrinks, IsFresh-Shrinks}
use ababilx_chat_sfu.Wiring.Rooms.{here, IsWired}
use ababilx_chat_sfu.Wiring.Leaves.{IsWired-elsewhere, IsWired-removed, Shrinks-peer_of}

module _ {d : Deps} where
  pub OriginsBelow-Shrinks :
      {id : ℕ} {h g : Arcs d} (n : ℕ) → Shrinks id h g → OriginsBelow n h → OriginsBelow n g
  OriginsBelow-Shrinks n x o a t there = ground (arith, there, x.gone a, o a t)

  module _ (id : ℕ) (name : String) (r : Room d) (e : Engine d) where
    pub missing-drop_from : peer_of id r ≡ none → drop_from id name r e ≡ e
    unfolding drop_from Room.remove
    missing-drop_from out = rw (out, drop_from, Room.remove) refl

    arcs-drop_from :
        (p : Peer d)
        → peer_of id r ≡ some p
        → ((drop_from id name r e).arcs ≡ drop_entries p.tracks_in e.arcs)
          × ((drop_from id name r e).next_peer ≡ e.next_peer)
    unfolding drop_from Room.remove report_left close_if_empty emit report_event
    arcs-drop_from p found = ground (arith, found)

    Unique-drop_from : Unique e.rooms → Unique (drop_from id name r e).rooms
    unfolding drop_from Room.remove report_left close_if_empty emit report_event
    Unique-drop_from u =
        let put = Unique-insert name (removed id r) e.rooms u in
        let taken = Unique-remove name (insert name (removed id r) e.rooms) put in
        ground (arith, u, put, taken)

    rooms-drop_from :
        (p : Peer d) (m : String) (q : Room d)
        → peer_of id r ≡ some p
        → lookup m (drop_from id name r e).rooms ≡ some q
        → (q ≡ removed id r) ⊎ (((name == m) ≡ false) × (lookup m e.rooms ≡ some q))
    unfolding drop_from Room.remove report_left close_if_empty emit report_event
    rooms-drop_from p m q found there = ground (
      arith,
      found,
      there,
      lookup-insert name m (removed id r) e.rooms,
      lookup-remove name m (insert name (removed id r) e.rooms),
    )

    IsMeshed-drop_from :
        lookup name e.rooms ≡ some r
        → Distinct (seats_of r)
        → ((m : String) (q : Room d)
            → (name == m) ≡ false
            → lookup m e.rooms ≡ some q
            → here q id ≡ false)
        → IsMeshed e
        → IsMeshed (drop_from id name r e)
    IsMeshed-drop_from there distinct only w = elim (Option-cases (peer_of id r)) [
      | inl out ↦ subst IsMeshed (sym (missing-drop_from out)) w
      | inr (p, found) ↦
          let (arcs, next) = arcs-drop_from p found in
          let f = drop_from id name r e in
          let x : Shrinks id e.arcs f.arcs =
            subst (Shrinks id e.arcs) (sym arcs)
              (Shrinks-peer_of id r p e.arcs (w.wired name r there) found) in
          record {
            unique = Unique-drop_from w.unique;
            fresh = IsFresh-Shrinks x w.fresh;
            origins =
                subst (λ n. OriginsBelow n f.arcs) (sym next)
                  (OriginsBelow-Shrinks e.next_peer x w.origins);
            wired = λ m q found_there. elim (rooms-drop_from p m q found found_there) [
              | inl left ↦
                  subst (IsWired f.arcs) (sym left)
                    (IsWired-removed x r distinct (w.wired name r there))
              | inr (other, old) ↦ IsWired-elsewhere x q (only m q other old) (w.wired m q old)
            ];
          }
    ]

  pub IsMeshed-drop_peer :
      (id : ℕ) (e : Engine d) → IsValid e → IsMeshed e → IsMeshed (drop_peer id e)
  unfolding drop_peer
  IsMeshed-drop_peer id e v w = elim (Option-cases (lookup id e.peer_rooms)) [
    | inl homeless ↦ rw (homeless, drop_peer) w
    | inr (name, home) ↦
        let e' : Engine d = record e { peer_rooms = remove id e.peer_rooms } in
        let w' : IsMeshed e' = record {
          unique = w.unique;
          fresh = w.fresh;
          origins = w.origins;
          wired = w.wired;
        } in
        elim (Option-cases (lookup name e.rooms)) [
          | inl gone ↦ rw (home, gone, drop_peer) w'
          | inr (r, there) ↦
              rw (home, there, drop_peer)
                (IsMeshed-drop_from id name r e' there
                  (subst (λ o. Distinct (seats_in o)) there (v.consistent.distinct name))
                  (λ m q other old. elim (Bool-cases (here q id)) [
                    | inl in_q ↦ absurd (
                        ground (
                          arith,
                          other,
                          home,
                          string_Eq.matches_iff name m,
                          v.consistent.listed m id
                              (subst (λ o. seated id (seats_in o) ≡ true) (sym old) in_q),
                        ))
                    | inr out ↦ out
                  ])
                  w')
        ]
  ]

  IsMeshed-drop_all :
      (ids : List ℕ) (e : Engine d) → IsValid e → IsMeshed e → IsMeshed (drop_all ids e)
  unfolding drop_all
  IsMeshed-drop_all [] e v w = w
  IsMeshed-drop_all (id ∷ ids) e v w =
      IsMeshed-drop_all ids (drop_peer id e) (drop_peer-IsValid id e v)
        (IsMeshed-drop_peer id e v w)

  pub IsMeshed-reap : (now : ℕ) (e : Engine d) → IsValid e → IsMeshed e → IsMeshed (reap now e)
  unfolding reap
  IsMeshed-reap now e v w = IsMeshed-drop_all (dead_peers now e) e v w
