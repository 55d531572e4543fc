-- ===== src/Engine.antt =====
-- src/sfu/engine.rs, src/sfu/command.rs: the state of the media loop and the commands that it takes.
-- `log` holds what the loop has sent, oldest first; `uuids` counts the UUIDs that it has drawn.
pub mod Join
pub mod Dispatch
pub mod Ticks
pub mod Io
pub mod Turn
pub mod Run
pub mod Told
pub mod Seats
pub mod Cards
pub mod Wired
pub mod Accounts
pub mod Voices
use ababilx_chat_sfu.Shared.{
  ℕ, suc, String, Bool, Option, none, some, List, [], ◌∷◌, ◌++◌, lookup, nat_Eq, string_Eq,
}
use ababilx_chat_sfu.Media.{Deps}
use ababilx_chat_sfu.Auth.{JoinClaims}
use ababilx_chat_sfu.Config.{Config, advertised_udp}
use ababilx_chat_sfu.Report
use ababilx_chat_sfu.Report.{ReportEvent}
use ababilx_chat_sfu.Tracks.{Arcs}
use ababilx_chat_sfu.Peer.{Effect, report}
use ababilx_chat_sfu.Room.{Room}

-- `out` is the channel of the socket, `assigned` the reply channel.
pub record JoinRequest : Type 0 where
  pub claims : JoinClaims
  pub sdp : String
  pub out : ℕ
  pub assigned : ℕ

pub data Command : Type 0 where
  join : JoinRequest → Command
  answer : (peer : ℕ) (sdp : String) → Command
  mute : (peer : ℕ) (muted : Bool) → Command
  screen : (peer : ℕ) (active : Bool) → Command
  leave : (peer : ℕ) → Command
  shutdown : Command

pub record Engine (d : Deps) : Type 0 where
  pub config : Config d
  pub advertised : d.Address
  pub rooms : List (String × Room d)
  pub peer_rooms : List (ℕ × String)
  pub next_peer : ℕ
  pub last_speaking : ℕ
  pub arcs : Arcs d
  pub uuids : ℕ
  pub log : List (Effect d)

module _ {d : Deps} where
  -- The engine that `spawn` starts, on a socket bound to `bound`.
  unfoldable pub spawn : Config d → (bound : d.Address) (now : ℕ) → Engine d
  spawn config bound now = record {
    config = config;
    advertised = advertised_udp config bound;
    rooms = [];
    peer_rooms = [];
    next_peer = 1;
    last_speaking = now;
    arcs = record { next = 0; live = [] };
    uuids = 0;
    log = [];
  }

  unfoldable pub emit : List (Effect d) → Engine d → Engine d
  emit fx e = record e { log = e.log ++ fx }

  -- `self.report(ReportEvent::new(event, room) …)`, with what is added to the event.
  unfoldable pub report_event :
      (ReportEvent → ReportEvent) → (event room : String) → Engine d → Engine d
  report_event extend event room e = record e {
    uuids = suc e.uuids;
    log = e.log ++ report (extend (Report.new (d.uuid e.uuids) event room)) ∷ [];
  }

  unfoldable pub room_of : ℕ → Engine d → Option (String × Room d)
  room_of id e = elim (lookup id e.peer_rooms) [
    | none ↦ none
    | some name ↦ elim (lookup name e.rooms) [ none ↦ none | some r ↦ some (name, r) ]
  ]
