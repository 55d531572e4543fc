-- ===== src/Engine/Join/Departures.antt =====
-- src/sfu/join.rs: what the host application is told when a peer goes.
use mathlib.Core.List.{append-nil, append_assoc}
use ababilx_chat_sfu.Shared.{
  ℕ, suc, ◌≡◌, sym, ◌∙◌, ap, String, none, some, List, [], ◌∷◌, ◌++◌, arith, if◌then◌else◌, ◌==◌,
  nat_Eq, string_Eq, Bool-cases, inl, inr, lookup, length, find, remove_first,
}
use ababilx_chat_sfu.Media.{Deps}
use ababilx_chat_sfu.Report
use ababilx_chat_sfu.Proto.{ServerMsg}
use ababilx_chat_sfu.Tracks.{as_string}
use ababilx_chat_sfu.Peer.{Peer}
use ababilx_chat_sfu.Room.{Room, has_id, peer_of, is_empty, removed, broadcast}
use ababilx_chat_sfu.Room
use ababilx_chat_sfu.Engine.{Engine}
use ababilx_chat_sfu.Engine.Told.{Notice, about, told, told-emit, told-broadcast, told-report_event}
use ababilx_chat_sfu.Engine.Join.{report_left, close_if_empty, drop_from, drop_peer}

abbrev pub closed : String → Notice
closed room = record { event = "room_finished"; room = room; participant = none; track = none }

module _ {d : Deps} where
  length-remove_first :
      (id : ℕ) (ps : List (Peer d)) (p : Peer d)
      → find (has_id id) ps ≡ some p
      → suc (length (remove_first (has_id id) ps)) ≡ length ps
  length-remove_first id [] p h = cc
  length-remove_first id (q ∷ ps) p h = ground (arith, length-remove_first id ps p)

  empties :
      (id : ℕ) (r : Room d) (p : Peer d)
      → peer_of id r ≡ some p
      → is_empty (removed id r) ≡ (length r.peers == 1)
  unfolding peer_of is_empty removed
  empties id r p h = ground (arith, length-remove_first id r.peers p h)

  told-report_left :
      (name : String) (p : Peer d) (e : Engine d)
      → told (report_left name p e).log
        ≡ told e.log ++ (if p.reported then about "participant_left" name p.user_id ∷ [] else [])
  unfolding report_left Report.new Report.identity
  told-report_left name p e = elim (Bool-cases p.reported) [
    | inl y ↦
        rw (y, report_left)
          (told-report_event (λ r. Report.identity r p.user_id) "participant_left" name e)
    | inr n ↦ rw (n, report_left) (sym (append-nil (told e.log)))
  ]

  told-close_if_empty :
      (name : String) (r : Room d) (e : Engine d)
      → told (close_if_empty name r e).log
        ≡ told e.log ++ (if is_empty r then closed name ∷ [] else [])
  unfolding close_if_empty Report.new
  told-close_if_empty name r e = elim (Bool-cases (is_empty r)) [
    | inl y ↦ rw (y, close_if_empty) (told-report_event (λ x. x) "room_finished" name _)
    | inr n ↦ rw (n, close_if_empty) (sym (append-nil (told e.log)))
  ]

  remove-found :
      (id : ℕ) (r : Room d) (p : Peer d)
      → peer_of id r ≡ some p
      → Room.remove id r
        ≡ (some p, removed id r, broadcast (removed id r) (ServerMsg.peer_left (as_string id)))
  unfolding Room.remove
  remove-found id r p h = rw (h, Room.remove)

  told-remove :
      (id : ℕ) (r : Room d) (p : Peer d) → peer_of id r ≡ some p → told (Room.remove id r).2 ≡ []
  told-remove id r p h =
      ap (λ x. told x.2) (remove-found id r p h)
      ∙ told-broadcast (removed id r) (ServerMsg.peer_left (as_string id))

  pub told-drop_from :
      (id : ℕ) (name : String) (r : Room d) (p : Peer d) (e : Engine d)
      → peer_of id r ≡ some p
      → told (drop_from id name r e).log
        ≡ told e.log
          ++ ((if p.reported then about "participant_left" name p.user_id ∷ [] else [])
              ++ (if length r.peers == 1 then closed name ∷ [] else []))
  unfolding drop_from
  told-drop_from id name r p e h =
      rw (ap (λ x. x.0) (remove-found id r p h), drop_from)
        (told-close_if_empty name (Room.remove id r).1 _
          ∙ rw
              (
                told-report_left name p _,
                told-emit _ _ (told-remove id r p h),
                ap (λ x. is_empty x.1) (remove-found id r p h),
                empties id r p h,
              )
              (append_assoc (told e.log) _ _))

  -- When a peer goes, by its own wish or swept up, the host is told that its user left exactly if its
  -- arrival was reported, and then that the room finished exactly if it was the room's only peer.
  pub told-drop_peer :
      (id : ℕ) (e : Engine d) (name : String) (r : Room d) (p : Peer d)
      → lookup id e.peer_rooms ≡ some name
      → lookup name e.rooms ≡ some r
      → peer_of id r ≡ some p
      → told (drop_peer id e).log
        ≡ told e.log
          ++ ((if p.reported then about "participant_left" name p.user_id ∷ [] else [])
              ++ (if length r.peers == 1 then closed name ∷ [] else []))
  unfolding drop_peer
  told-drop_peer id e name r p home there found =
      rw (home, there, drop_peer) (told-drop_from id name r p _ found)
