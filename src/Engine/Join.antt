-- ===== src/Engine/Join.antt =====
-- src/sfu/join.rs: how a peer joins, leaves, and is swept up. `now` is the instant of the call.
pub mod Leave
pub mod Retire
pub mod Arrive
pub mod Enter
pub mod Departures
pub mod Replaced
pub mod Replies
pub mod Sweep
use ababilx_chat_sfu.Shared.{
  ℕ, ◌+◌, ◌%◌, ◌^◌, String, Bool, true, false, not, Option, none, some, List, [], ◌∷◌, ◌++◌, map,
  Result, ok, err, leb, if◌then◌else◌, ◌==◌, nat_Eq, string_Eq, length, keep, gather, lookup,
  insert, remove,
}
use ababilx_chat_sfu.Media.{Deps}
use ababilx_chat_sfu.Auth.{JoinClaims}
use ababilx_chat_sfu.Proto.{ServerMsg}
use ababilx_chat_sfu.Report
use ababilx_chat_sfu.Tracks.{Arcs, as_string, drop_entries}
use ababilx_chat_sfu.Peer
use ababilx_chat_sfu.Peer.{Peer, Effect, message, assigned, send, info, is_abandoned}
use ababilx_chat_sfu.Peer.Negotiate.{accept_offer}
use ababilx_chat_sfu.Room
use ababilx_chat_sfu.Room.{Room, broadcast, roster, subscribe_to_existing, is_empty}
use ababilx_chat_sfu.Engine.{Engine, JoinRequest, emit, report_event}

-- A `u64` that is incremented.
abbrev pub u64_mod : ℕ
u64_mod = 2 ^ 64

-- What the removal of the stale peers works on.
pub record Seating (d : Deps) : Type 0 where
  pub room : Room d
  pub peer_rooms : List (ℕ × String)
  pub arcs : Arcs d
  pub effects : List (Effect d)

-- A candidate that cannot be built or is rejected is only logged.
announce : (d : Deps) → d.Address → d.Rtc → d.Rtc
announce d address rtc = elim (d.candidate_host address "udp") [
  | ok c ↦ (d.add_local_candidate rtc c).1
  | err _ ↦ rtc
]

module _ {d : Deps} where
  unfoldable pub is_full : Engine d → String → Bool
  is_full e name = elim (lookup name e.rooms) [
    | none ↦ false
    | some r ↦ leb e.config.max_room_peers (length r.peers)
  ]

  refusal : JoinRequest → (code text : String) → List (Effect d)
  refusal q code text = message q.out (ServerMsg.error code text) ∷ assigned q.assigned none ∷ []

  unfoldable pub admit_peer : ℕ → JoinRequest → Engine d → Peer d
  unfolding announce
  admit_peer now q e =
      Peer.new e.next_peer (announce d e.advertised (d.build e.config.ice_lite now)) q.claims.sub
        q.claims.name q.claims.avatar_url q.out

  -- The peers of the room that belong to the joining user.
  unfoldable pub stale : String → Room d → List ℕ
  stale user r = map (λ (p : Peer d). p.id) (keep (λ p. p.user_id == user) r.peers)

  unfoldable pub retire_one : ℕ → Seating d → Seating d
  retire_one old s =
      let (gone, r, fx) = Room.remove old s.room in
      elim gone [
        | none ↦ record s { peer_rooms = remove old s.peer_rooms }
        | some p ↦ record {
          room = r;
          peer_rooms = remove old s.peer_rooms;
          arcs = drop_entries p.tracks_in s.arcs;
          effects =
              s.effects ++ fx ++ send p (ServerMsg.error "replaced" "Joined from another tab.");
        }
      ]

  unfoldable pub retire : List ℕ → Seating d → Seating d
  retire [] s = s
  retire (old ∷ rest) s = retire rest (retire_one old s)

  unfoldable pub room_or_new : JoinRequest → Engine d → Room d
  room_or_new q e = elim (lookup q.claims.room e.rooms) [
    | none ↦ Room.new q.claims.call_id
    | some r ↦ r
  ]

  -- The room once the stale peers are gone.
  unfoldable pub vacated : JoinRequest → Engine d → Seating d
  vacated q e =
      let r = room_or_new q e in
      retire (stale q.claims.sub r)
        (record { room = r; peer_rooms = e.peer_rooms; arcs = e.arcs; effects = [] })

  -- The room with the new peer in it.
  unfoldable pub seated_room : JoinRequest → Peer d → Engine d → Room d
  seated_room q p e =
      let r = (vacated q e).room in
      subscribe_to_existing p.id (record r { peers = r.peers ++ p ∷ [] })

  -- The part of `handle_join` behind the answer to the peer's offer.
  unfoldable pub seat : JoinRequest → Peer d → (sdp : String) → Engine d → Engine d
  seat q p sdp e =
      let s = vacated q e in
      let joined =
        send p (ServerMsg.joined (as_string p.id) q.claims.call_id sdp (roster s.room)) in
      let told = broadcast s.room (ServerMsg.peer_joined (info p)) in
      emit (s.effects ++ joined ++ told ++ assigned q.assigned (some p.id) ∷ []) (record e {
        rooms = insert q.claims.room (seated_room q p e) e.rooms;
        peer_rooms = insert p.id q.claims.room s.peer_rooms;
        arcs = s.arcs;
      })

  unfoldable pub answered_join : JoinRequest → Engine d → Result String String × Peer d → Engine d
  unfolding refusal
  answered_join q e (ok sdp, p) = seat q p sdp e
  answered_join q e (err _, p) =
      emit
        (send p (ServerMsg.error "bad_offer" "Session description refused.")
          ++ assigned q.assigned none ∷ [])
        e

  unfoldable pub handle_join : ℕ → JoinRequest → Engine d → Engine d
  unfolding refusal
  handle_join now q e =
      if is_full e q.claims.room
      then emit (refusal q "room_full" "This call is full.") e
      else elim (d.offer_from_sdp q.sdp) [
        | err _ ↦ emit (refusal q "bad_offer" "Malformed session description.") e
        | ok o ↦
            answered_join q (record e { next_peer = (e.next_peer + 1) % u64_mod })
              (accept_offer (admit_peer now q e) o)
      ]

  unfoldable pub report_left : String → Peer d → Engine d → Engine d
  report_left name p e =
      if p.reported
      then report_event (λ r. Report.identity r p.user_id) "participant_left" name e
      else e

  unfoldable pub close_if_empty : String → Room d → Engine d → Engine d
  close_if_empty name r e =
      if is_empty r
      then report_event (λ x. x) "room_finished" name (record e { rooms = remove name e.rooms })
      else e

  -- The peer is dropped with its tracks, so what `disconnect` does to its `Rtc` is not seen again.
  unfoldable pub drop_from : ℕ → String → Room d → Engine d → Engine d
  drop_from id name room e =
      let (gone, r, fx) = Room.remove id room in
      elim gone [
        | none ↦ e
        | some p ↦ close_if_empty name r (
            report_left name p (
              emit fx (record e {
                rooms = insert name r e.rooms;
                arcs = drop_entries p.tracks_in e.arcs;
              })))
      ]

  unfoldable pub drop_peer : ℕ → Engine d → Engine d
  drop_peer id e = elim (lookup id e.peer_rooms) [
    | none ↦ e
    | some name ↦
        let e' = record e { peer_rooms = remove id e.peer_rooms } in
        elim (lookup name e.rooms) [ none ↦ e' | some room ↦ drop_from id name room e' ]
  ]

  -- The transport has closed, or ICE has been away for too long.
  unfoldable pub is_dead : ℕ → Peer d → Bool
  is_dead now p = if not (d.is_alive p.rtc) then true else is_abandoned p now

  unfoldable pub dead_peers : ℕ → Engine d → List ℕ
  unfolding is_dead
  dead_peers now e =
      map (λ (p : Peer d). p.id)
        (keep (is_dead now) (gather (λ (entry : String × Room d). entry.1.peers) e.rooms))

  unfoldable pub drop_all : List ℕ → Engine d → Engine d
  drop_all [] e = e
  drop_all (id ∷ ids) e = drop_all ids (drop_peer id e)

  unfoldable pub reap : ℕ → Engine d → Engine d
  reap now e = drop_all (dead_peers now e) e
