-- ===== src/Engine/Voices/Moves.antt =====
-- src/sfu/join.rs and src/sfu/engine_io.rs, `tick_speaking`: the lists of speakers when peers come and
-- go, and when they are made anew.
use mathlib.Core.Option
use ababilx_chat_sfu.Shared.{
  ℕ, ◌-◌, ◌≡◌, refl, ap, sym, subst, ◌∙◌, String, some, List, [], ◌∷◌, arith, ltb, ◌==◌, string_Eq,
  nat_Eq, Option-cases, Bool-cases, inl, inr, lookup, insert, remove, lookup-insert, lookup-remove,
  lookup-cons,
}
use ababilx_chat_sfu.Media.{Deps}
use ababilx_chat_sfu.Tracks.{drop_entries}
use ababilx_chat_sfu.Peer.{Peer}
use ababilx_chat_sfu.Room.{Room, removed, peer_of, is_empty, sync_speaking, subscribe_to_existing}
use ababilx_chat_sfu.Room
use ababilx_chat_sfu.Engine.{Engine, emit, report_event}
use ababilx_chat_sfu.Engine.Seats.{seats_of}
use ababilx_chat_sfu.Engine.Ticks.{speaking_tick, sync_rooms, tick_speaking}
use ababilx_chat_sfu.Engine.Join.{
  drop_from, drop_peer, drop_all, dead_peers, reap, report_left, close_if_empty,
}
use ababilx_chat_sfu.Engine.Wired.Leaves.{missing-drop_from}
use ababilx_chat_sfu.Engine.Voices.{Fits, Fits-sync_speaking, Fits-remove, IsVoiced}

module _ {d : Deps} where
  abbrev pub IsFit : Room d → Type 0
  IsFit r = Fits (seats_of r) r.speaking

  pub IsVoiced-rooms : {e f : Engine d} → f.rooms ≡ e.rooms → IsVoiced e → IsVoiced f
  IsVoiced-rooms same v = record {
    heard = λ m r there. v.heard m r (ap (lookup m) (sym same) ∙ there);
  }

  pub IsVoiced-insert :
      {e f : Engine d} (name : String) (s : Room d)
      → f.rooms ≡ insert name s e.rooms
      → IsFit s
      → IsVoiced e
      → IsVoiced f
  IsVoiced-insert {e} {f} name s same fit v = record {
    heard = λ m r there.
        let at = ap (lookup m) (sym same) ∙ there in
        elim (Bool-cases (name == m)) [
          | inl this ↦
              let found : s ≡ r = ground (arith, at, this, lookup-insert name m s e.rooms) in
              subst IsFit found fit
          | inr other ↦ v.heard m r (ground (arith, at, other, lookup-insert name m s e.rooms))
        ];
  }

  IsVoiced-remove :
      {e f : Engine d} (name : String) → f.rooms ≡ remove name e.rooms → IsVoiced e → IsVoiced f
  IsVoiced-remove {e} {f} name same v = record {
    heard = λ m r there.
        v.heard m r
          (ground (arith, ap (lookup m) (sym same) ∙ there, lookup-remove name m e.rooms));
  }

  IsVoiced-close_if_empty :
      (name : String) (r : Room d) (e : Engine d) → IsVoiced e → IsVoiced (close_if_empty name r e)
  unfolding close_if_empty report_event
  IsVoiced-close_if_empty name r e v = elim (Bool-cases (is_empty r)) [
    | inl y ↦ rw (y, close_if_empty) (IsVoiced-remove name refl v)
    | inr n ↦ rw (n, close_if_empty) v
  ]

  rooms-report_left :
      (name : String) (p : Peer d) (e : Engine d) → (report_left name p e).rooms ≡ e.rooms
  unfolding report_left report_event
  rooms-report_left name p e = ground arith

  IsVoiced-drop_from :
      (id : ℕ) (name : String) (r : Room d) (e : Engine d)
      → lookup name e.rooms ≡ some r
      → IsVoiced e
      → IsVoiced (drop_from id name r e)
  unfolding drop_from Room.remove emit
  IsVoiced-drop_from id name r e there v = elim (Option-cases (peer_of id r)) [
    | inl out ↦ rw (missing-drop_from id name r e out) v
    | inr (p, found) ↦
        let left = (Room.remove id r).1 in
        rw (found, drop_from)
          (IsVoiced-close_if_empty name left
            (report_left name p (
              emit (Room.remove id r).2 (record e {
                rooms = insert name left e.rooms;
                arcs = drop_entries p.tracks_in e.arcs;
              })))
            (IsVoiced-insert name left (rooms-report_left name p _)
              (Fits-remove id r (v.heard name r there)) v))
  ]

  pub IsVoiced-drop_peer : (id : ℕ) (e : Engine d) → IsVoiced e → IsVoiced (drop_peer id e)
  unfolding drop_peer
  IsVoiced-drop_peer id e v = elim (Option-cases (lookup id e.peer_rooms)) [
    | inl homeless ↦ rw (homeless, drop_peer) v
    | inr (name, home) ↦
        let e' : Engine d = record e { peer_rooms = remove id e.peer_rooms } in
        let moved : IsVoiced e' = IsVoiced-rooms refl v in
        elim (Option-cases (lookup name e.rooms)) [
          | inl gone ↦ rw (home, gone, drop_peer) moved
          | inr (r, there) ↦
              rw (home, there, drop_peer) (IsVoiced-drop_from id name r e' there moved)
        ]
  ]

  IsVoiced-drop_all : (ids : List ℕ) (e : Engine d) → IsVoiced e → IsVoiced (drop_all ids e)
  unfolding drop_all
  IsVoiced-drop_all [] e v = v
  IsVoiced-drop_all (id ∷ ids) e v =
      IsVoiced-drop_all ids (drop_peer id e) (IsVoiced-drop_peer id e v)

  pub IsVoiced-reap : (now : ℕ) (e : Engine d) → IsVoiced e → IsVoiced (reap now e)
  unfolding reap
  IsVoiced-reap now e v = IsVoiced-drop_all (dead_peers now e) e v

  pub lookup-sync_rooms :
      (now : ℕ) (rooms : List (String × Room d)) (m : String)
      → lookup m (sync_rooms now rooms).0
        ≡ Option.map (λ r. (sync_speaking now r).0) (lookup m rooms)
  unfolding sync_rooms lookup
  lookup-sync_rooms now [] m = refl
  lookup-sync_rooms now ((name, r) ∷ rest) m = ground (
    arith,
    lookup-cons m name r rest,
    lookup-cons m name (sync_speaking now r).0 (sync_rooms now rest).0,
    lookup-sync_rooms now rest m,
  )

  IsVoiced-synced :
      (e : Engine d) {f : Engine d} (now : ℕ) → f.rooms ≡ (sync_rooms now e.rooms).0 → IsVoiced f
  IsVoiced-synced e {f} now same = record {
    heard = λ m s there.
        let at = sym (lookup-sync_rooms now e.rooms m) ∙ ap (lookup m) (sym same) ∙ there in
        elim (Option-cases (lookup m e.rooms)) [
          | inl n ↦ absurd (ground (arith, at, n))
          | inr (r, found) ↦
              let made : (sync_speaking now r).0 ≡ s = ground (arith, at, found) in
              subst IsFit made (Fits-sync_speaking now r)
        ];
  }

  pub IsVoiced-tick_speaking :
      (now : ℕ) (e : Engine d) → IsVoiced e → IsVoiced (tick_speaking now e)
  unfolding tick_speaking emit
  IsVoiced-tick_speaking now e v = elim (Bool-cases (ltb (now - e.last_speaking) speaking_tick)) [
    | inl early ↦ rw (early, tick_speaking) v
    | inr due ↦ rw (due, tick_speaking) (IsVoiced-synced e now refl)
  ]
