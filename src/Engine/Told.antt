-- ===== src/Engine/Told.antt =====
-- What the host application is told: the events of the log, without their ids.
use ababilx_chat_sfu.Shared.{◌≡◌, refl, ap, String, Option, none, some, List, [], ◌∷◌, ◌++◌, gather}
use mathlib.Core.List.{append-nil}
use ababilx_chat_sfu.Media.{Deps}
use ababilx_chat_sfu.Proto.{ServerMsg}
use ababilx_chat_sfu.Report.{ReportEvent, ReportParticipant}
use ababilx_chat_sfu.Report
use ababilx_chat_sfu.Peer.{Peer, Effect, message, datagram, report, assigned, send}
use ababilx_chat_sfu.Room.{Room, broadcast}
use ababilx_chat_sfu.Engine.{Engine, emit, report_event}

-- An event, its room, who it is about and what is shared.
pub record Notice : Type 0 where
  pub event : String
  pub room : String
  pub participant : Option ReportParticipant
  pub track : Option Report.ReportTrack

abbrev pub notice : ReportEvent → Notice
notice r = record {
  event = r.event;
  room = r.room.name;
  participant = r.participant;
  track = r.track;
}

abbrev pub about : (event room user : String) → Notice
about event room user = record {
  event = event;
  room = room;
  participant = some (record { identity = user });
  track = none;
}

module _ {d : Deps} where
  abbrev pub told : List (Effect d) → List Notice
  told [] = []
  told (message _ _ ∷ fx) = told fx
  told (datagram _ ∷ fx) = told fx
  told (report r ∷ fx) = notice r ∷ told fx
  told (assigned _ _ ∷ fx) = told fx

  pub told-append : (fx gx : List (Effect d)) → told (fx ++ gx) ≡ told fx ++ told gx
  told-append [] gx = refl
  told-append (message _ _ ∷ fx) gx = told-append fx gx
  told-append (datagram _ ∷ fx) gx = told-append fx gx
  told-append (report r ∷ fx) gx = ap (λ l. notice r ∷ l) (told-append fx gx)
  told-append (assigned _ _ ∷ fx) gx = told-append fx gx

  told-gather-send : (m : ServerMsg) (ps : List (Peer d)) → told (gather (λ p. send p m) ps) ≡ []
  unfolding send
  told-gather-send m [] = refl
  told-gather-send m (p ∷ ps) = told-gather-send m ps

  pub told-broadcast : (r : Room d) (m : ServerMsg) → told (broadcast r m) ≡ []
  unfolding broadcast
  told-broadcast r m = told-gather-send m r.peers

  -- Effects that tell the host nothing.
  pub told-emit :
      (fx : List (Effect d)) (e : Engine d) → told fx ≡ [] → told (emit fx e).log ≡ told e.log
  unfolding emit
  told-emit fx e quiet = rw (told-append e.log fx, quiet) (append-nil (told e.log))

  pub told-report_event :
      (extend : ReportEvent → ReportEvent) (event room : String) (e : Engine d)
      → told (report_event extend event room e).log
        ≡ told e.log ++ notice (extend (Report.new (d.uuid e.uuids) event room)) ∷ []
  unfolding report_event
  told-report_event extend event room e = told-append e.log _
