-- ===== src/Engine/Ticks.antt =====
-- src/sfu/engine_io.rs: what each turn of the media loop does besides commands and packets.
pub mod Keeps
pub mod Arrivals
pub mod Wires
use ababilx_chat_sfu.Shared.{
  ℕ, ◌-◌, String, Bool, true, false, not, ◌&&◌, List, [], ◌∷◌, ◌++◌, map, ltb, if◌then◌else◌, keep,
  gather, map_values, string_Eq,
}
use ababilx_chat_sfu.Media.{Deps, millis}
use ababilx_chat_sfu.Report
use ababilx_chat_sfu.Peer.{Peer, Effect}
use ababilx_chat_sfu.Room.{Room, sync_speaking}
use ababilx_chat_sfu.Engine.{Engine, emit, report_event}

abbrev pub speaking_tick : ℕ
speaking_tick = millis 200

module _ {d : Deps} where
  -- `peer.connected && !peer.reported`
  unfoldable pub has_arrived : Peer d → Bool
  has_arrived p = p.connected && not p.reported

  unfoldable pub mark_peer : Peer d → Peer d
  unfolding has_arrived
  mark_peer p = if has_arrived p then record p { reported = true } else p

  unfoldable pub mark_room : Room d → Room d
  mark_room r = record r { peers = map mark_peer r.peers }

  unfoldable pub arrivals_in : String × Room d → List (String × String)
  unfolding has_arrived
  arrivals_in (name, r) = map (λ (p : Peer d). (name, p.user_id)) (keep has_arrived r.peers)

  unfoldable pub arrivals : Engine d → List (String × String)
  unfolding arrivals_in
  arrivals e = gather arrivals_in e.rooms

  unfoldable pub report_joined : List (String × String) → Engine d → Engine d
  report_joined [] e = e
  report_joined ((name, user) ∷ rest) e =
      report_joined rest (report_event (λ r. Report.identity r user) "participant_joined" name e)

  unfoldable pub report_connections : Engine d → Engine d
  report_connections e =
      report_joined (arrivals e) (record e { rooms = map_values mark_room e.rooms })

  -- Every room in turn, with what it broadcasts.
  unfoldable pub sync_rooms : ℕ → List (String × Room d) → List (String × Room d) × List (Effect d)
  sync_rooms now [] = ([], [])
  sync_rooms now ((name, r) ∷ rest) =
      let (r', fx) = sync_speaking now r in
      let (rest', fx') = sync_rooms now rest in ((name, r') ∷ rest', fx ++ fx')

  unfoldable pub tick_speaking : ℕ → Engine d → Engine d
  tick_speaking now e =
      if ltb (now - e.last_speaking) speaking_tick
      then e
      else let (rooms, fx) = sync_rooms now e.rooms in
        emit fx (record e { last_speaking = now; rooms = rooms })
