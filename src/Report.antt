-- ===== src/Report.antt =====
-- src/report.rs: the events that are reported to the host application.
pub mod Delivery
use ababilx_chat_sfu.Shared.{String, Option, none, some}

pub record ReportRoom : Type 0 where
  pub name : String

pub record ReportParticipant : Type 0 where
  pub identity : String

pub record ReportTrack : Type 0 where
  pub source : String

pub record ReportEvent : Type 0 where
  pub id : String
  pub event : String
  pub room : ReportRoom
  pub participant : Option ReportParticipant
  pub track : Option ReportTrack

abbrev pub screen_share_source : String
screen_share_source = "SCREEN_SHARE"

abbrev pub server_started : String
server_started = "sfu_started"

-- `id` is the UUID that the call draws.
unfoldable pub new : String → String → String → ReportEvent
new id event room = record {
  id = id;
  event = event;
  room = record { name = room };
  participant = none;
  track = none;
}

unfoldable pub identity : ReportEvent → String → ReportEvent
identity r who = record r { participant = some (record { identity = who }) }

unfoldable pub screen_share : ReportEvent → ReportEvent
screen_share r = record r { track = some (record { source = screen_share_source }) }
