-- ===== src/Engine/Dispatch/Screens.antt =====
-- src/sfu/dispatch.rs, `set_state`: when the host application is told of a screen share.
use mathlib.Core.List.{append-nil}
use mathlib.Core.Bool.{xor}
use ababilx_chat_sfu.Shared.{
  ℕ, ◌≡◌, refl, sym, ◌∙◌, String, Bool, none, some, [], ◌∷◌, ◌++◌, if◌then◌else◌, Bool-cases, inl,
  inr, subst, find, update_first, nat_Eq, string_Eq, List, arith, insert, lookup-insert, true,
  false,
}
use ababilx_chat_sfu.Media.{Deps}
use ababilx_chat_sfu.Report
use ababilx_chat_sfu.Report.{screen_share_source}
use ababilx_chat_sfu.Proto.{ServerMsg}
use ababilx_chat_sfu.Tracks.{as_string}
use ababilx_chat_sfu.Peer.{Peer, Effect}
use ababilx_chat_sfu.Room.{Room, has_id, peer_of, broadcast}
use ababilx_chat_sfu.Engine.Seats.{find-id}
use ababilx_chat_sfu.Engine.{Engine, room_of, emit, report_event}
use ababilx_chat_sfu.Engine.Dispatch.Keeps.{room_of-lookup}
use ababilx_chat_sfu.Engine.Told.{Notice, about, told, told-emit, told-broadcast, told-report_event}
use ababilx_chat_sfu.Engine.Dispatch.{report_screen, set_flags, with_peer, set_state_of, set_state}

abbrev pub shared_screen : (room user : String) → Bool → Notice
shared_screen room user active =
    record (about (if active then "track_published" else "track_unpublished") room user) {
      track = some (record { source = screen_share_source });
    }

module _ {d : Deps} where
  pub told-report_screen :
      (name : String) (p : Peer d) (active : Bool) (e : Engine d)
      → told (report_screen name p (some active) e).log
        ≡ told e.log
          ++ (if xor p.screen active then shared_screen name p.user_id active ∷ [] else [])
  unfolding report_screen Report.screen_share Report.identity Report.new
  told-report_screen name p active e = elim (Bool-cases (xor p.screen active)) [
    | inl turns ↦
        rw (turns, report_screen)
          (told-report_event (λ r. Report.screen_share (Report.identity r p.user_id)) _ name e)
    | inr stays ↦ rw (stays, report_screen) (sym (append-nil (told e.log)))
  ]

  told_once :
      (id : ℕ) (active : Bool) (e : Engine d) (name : String) (r : Room d) (p : Peer d)
      → room_of id e ≡ some (name, r)
      → peer_of id r ≡ some p
      → told (set_state id none (some active) e).log
        ≡ told e.log
          ++ (if xor p.screen active then shared_screen name p.user_id active ∷ [] else [])
  unfolding set_state set_state_of with_peer
  told_once id active e name r p home found =
      let q = set_flags none (some active) p in
      let news = broadcast r (ServerMsg.peer_state (as_string p.id) q.muted q.screen) in
      rw (home, found, set_state)
        (told-report_screen name p active _
          ∙ rw
              (told-emit news (with_peer p.id name r (set_flags none (some active)) e)
                (told-broadcast r _))
              refl)

  -- The peer after the call, which is where it was.
  found_again :
      (id : ℕ) (f : Peer d → Peer d) (ps : List (Peer d)) (p : Peer d)
      → ((q : Peer d) → (f q).id ≡ q.id)
      → find (has_id id) ps ≡ some p
      → find (has_id id) (update_first (has_id p.id) f ps) ≡ some (f p)
  found_again id f [] p same found = cc
  found_again id f (q ∷ ps) p same found = elim (Bool-cases (has_id id q)) [
    | inl this ↦
        let first : q ≡ p = ground (arith, found, this) in
        subst (λ x. find (has_id id) (update_first (has_id x.id) f (q ∷ ps)) ≡ some (f x)) first
          (ground (arith, this, same q, nat_Eq.matches_iff q.id q.id))
    | inr other ↦
        let rest = find-id id ps p (ground (arith, found, other)) in
        ground
          (arith, other, found, rest, found_again id f ps p same (ground (arith, found, other)))
  ]

  room-report_screen :
      (id : ℕ) (name : String) (p : Peer d) (active : Bool) (e : Engine d)
      → room_of id (report_screen name p (some active) e) ≡ room_of id e
  unfolding report_screen report_event room_of
  room-report_screen id name p active e = elim (Bool-cases (xor p.screen active)) [
    | inl turns ↦ rw (turns, report_screen) refl
    | inr stays ↦ rw (stays, report_screen) refl
  ]

  room-with_peer :
      (id : ℕ) (name : String) (r s : Room d) (e : Engine d) (log : List (Effect d))
      → room_of id e ≡ some (name, r)
      → room_of id (record e { rooms = insert name s e.rooms; log = log }) ≡ some (name, s)
  unfolding room_of
  room-with_peer id name r s e log home =
      let (there, at) = room_of-lookup id e name r home in
      ground (arith, at, lookup-insert name name s e.rooms, string_Eq.matches_iff name name)

  stored :
      (id : ℕ) (active : Bool) (e : Engine d) (name : String) (r : Room d) (p : Peer d)
      → room_of id e ≡ some (name, r)
      → peer_of id r ≡ some p
      → let f = set_state id none (some active) e in
        (s : Room d) × (room_of id f ≡ some (name, s))
        × (peer_of id s ≡ some (set_flags none (some active) p))
  unfolding set_state set_state_of with_peer peer_of emit
  stored id active e name r p home found =
      let set = set_flags none (some active) in
      let s : Room d = record r { peers = update_first (has_id p.id) set r.peers } in
      (
        s,
        rw (home, found, set_state)
            (room-report_screen id name p active _ ∙ room-with_peer id name r s e _ home),
        found_again id set r.peers p (λ q. unfold set_flags in refl) found,
      )

  -- A peer that says whether it shares its screen makes the host application hear of its user's screen
  -- in its room exactly if that changes what the peer said before. When the peer says it again straight
  -- away, the host application is told nothing.
  pub told-set_state :
      (id : ℕ) (active : Bool) (e : Engine d) (name : String) (r : Room d) (p : Peer d)
      → room_of id e ≡ some (name, r)
      → peer_of id r ≡ some p
      → let f = set_state id none (some active) e in
        (told f.log
          ≡ told e.log
            ++ (if xor p.screen active then shared_screen name p.user_id active ∷ [] else []))
        × (told (set_state id none (some active) f).log ≡ told f.log)
  unfolding xor set_flags
  told-set_state id active e name r p home found =
      let f = set_state id none (some active) e in
      let (s, home', found') = stored id active e name r p home found in
      (
        told_once id active e name r p home found,
        told_once id active f name s (set_flags none (some active) p) home' found'
            ∙ nothing_new active (told f.log),
      )
    where
      nothing_new :
          (b : Bool) (ns : List Notice)
          → ns ++ (if xor b b then shared_screen name p.user_id b ∷ [] else []) ≡ ns
      nothing_new true ns = append-nil ns
      nothing_new false ns = append-nil ns
