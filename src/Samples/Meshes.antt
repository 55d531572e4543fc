-- ===== src/Samples/Meshes.antt =====
-- A call in which both peers publish a track, and the theorems about who hears whom applied to it.
use ababilx_chat_sfu.Shared.{
  ℕ, ◌++◌, ◌≡◌, refl, ◌==◌, nat_Eq, if◌then◌else◌, arith, none, some, [], ◌∷◌, ok, lookup,
  string_Eq, Result, String, true,
}
use ababilx_chat_sfu.Media.{Driver, Output, timeout, event, media_added, audio}
use ababilx_chat_sfu.Room.{Room, published, propagate, deliver, deliver_from}
use ababilx_chat_sfu.Tracks.{source, alloc}
use ababilx_chat_sfu.Peer.Poll.{poll_output, produced, handle_output, handle_event}
use ababilx_chat_sfu.Peer.Media.{handle_media_added}
use ababilx_chat_sfu.Engine.{Engine, emit}
use ababilx_chat_sfu.Engine.Io.{
  poll_rooms, poll_entries, poll_room, poll_peers, poll_peer, propagate_all,
}
use ababilx_chat_sfu.Engine.Turn.{Reach, next, poll}
use ababilx_chat_sfu.Engine.Wired.{IsMeshed}
use ababilx_chat_sfu.Engine.Wired.Turns.{Reach-spawn-IsMeshed}
use ababilx_chat_sfu.Engine.Wired.Routes.{IsMeshed-IsRoute}
use ababilx_chat_sfu.Peer.Media.Routes.{IsOnly, IsRoute}
use ababilx_chat_sfu.Peer
use ababilx_chat_sfu.Proto.{ServerMsg}
use ababilx_chat_sfu.Peer.Negotiate.{kind_label}
use ababilx_chat_sfu.Peer.{Peer, Effect, message}
use ababilx_chat_sfu.Room.{peer_of}
use ababilx_chat_sfu.Tracks.{TrackIn, TrackOut, TrackOutState, to_open, negotiating, upgrade, mid}
use ababilx_chat_sfu.Samples.{toy, ToyRtc, settings, started, two_in, joining, program}
use ababilx_chat_sfu.Engine.Turn.{here, command}
use ababilx_chat_sfu.Engine

-- Every peer publishes one track when it is first polled.
abbrev first_poll : ToyRtc → Result String (Output toy) × ToyRtc
first_poll r =
    if r.mids == 0
    then (ok (event (media_added (record { mid = 5; kind = audio }))), record r { mids = 6 })
    else (ok (timeout 1_000_000_000), r)

abbrev publishing : Driver toy
publishing = record {
  accepts = λ r i. r.alive;
  handle_input = λ r i. (ok tt, r);
  poll_output = first_poll;
}

-- A member of the call, which publishes one track and is subscribed to the other's.
abbrev member : (id : ℕ) (user : String) (own other : ℕ) → TrackOutState toy → ToyRtc → Peer toy
member id user own other state rtc = record (Peer.new id rtc user user "" id) {
  tracks_in =
      record {
        id = record { address = own; value = record { origin = id; mid = 5; kind = audio } };
        last_keyframe_request = none;
      }
      ∷ [];
  tracks_out = record { track_in = other; state = state } ∷ [];
}

abbrev ada : Peer toy
ada = member 1 "ada" 0 1 to_open (record { alive = true; mids = 6 })

abbrev bob : Peer toy
bob = member 2 "bob" 1 0 to_open (record { alive = true; mids = 6 })

abbrev voice : ℕ → TrackIn toy
voice id = record { origin = id; mid = 5; kind = audio }

-- The call after a poll.
abbrev talking : Engine toy
talking = record two_in {
  rooms = ("r", record { call_id = "c"; peers = ada ∷ bob ∷ []; speaking = [] }) ∷ [];
  arcs = record { next = 2; live = (0, voice 1) ∷ (1, voice 2) ∷ [] };
}

unfoldable polling : Unit {0}
unfolding program poll_output produced handle_output handle_event handle_media_added alloc emit
    poll_rooms poll_entries poll_room poll_peers poll_peer propagate_all propagate deliver
    deliver_from source published mid kind_label
polling = tt

polls_talking : poll_rooms publishing 3 0 two_in ≡ some (talking, 100_000_000)
unfolding polling
polls_talking = refl

Reach-both_in : Reach publishing started two_in
unfolding program
Reach-both_in =
    next (next here (command 0 (Engine.join (joining "ada" "sdp" 1)) (omega arith)))
      (command 0 (Engine.join (joining "bob" "sdp" 2)) (omega arith))

Reach-talking : Reach publishing started talking
Reach-talking = next Reach-both_in (poll 3 0 100_000_000 polls_talking)

Reach-spawn-IsMeshed_example : IsMeshed talking
Reach-spawn-IsMeshed_example =
    Reach-spawn-IsMeshed publishing settings 7899 0 talking (omega arith) Reach-talking

-- Each has an m-line for the other's track, which it was offered.
abbrev offered : ℕ → String → ℕ → ℕ → Peer toy
offered id user own other =
    record (member id user own other (negotiating 6) (record { alive = true; mids = 7 })) {
      pending = some 7;
    }

abbrev call : Room toy
call = record {
  call_id = "c";
  peers = offered 1 "ada" 0 1 ∷ offered 2 "bob" 1 0 ∷ [];
  speaking = [];
}

abbrev offer_to : ℕ → String → Effect toy
offer_to out other =
    message out
      (ServerMsg.offer "offer" (record { mid = "6"; peer_id = other; kind = "audio" } ∷ []))

-- The call after one more poll.
abbrev offering : Engine toy
offering = record talking {
  rooms = ("r", call) ∷ [];
  log = talking.log ++ offer_to 1 "2" ∷ offer_to 2 "1" ∷ [];
}

polls_offering : poll_rooms publishing 3 0 talking ≡ some (offering, 100_000_000)
unfolding polling
polls_offering = refl

Reach-offering : Reach publishing started offering
Reach-offering = next Reach-talking (poll 3 0 100_000_000 polls_offering)

IsOnly-voice : IsOnly offering.arcs 0 (voice 1)
unfolding upgrade lookup
IsOnly-voice b s live from line = ground (arith, live, from)

-- Bob hears Ada.
IsMeshed-IsRoute_example :
    (s : TrackOut toy) × IsRoute offering.arcs 0 (voice 1) (offered 2 "bob" 1 0) s
unfolding Peer.new lookup upgrade peer_of
IsMeshed-IsRoute_example =
    IsMeshed-IsRoute offering "r" call 0 (voice 1) 2 (offered 2 "bob" 1 0)
      (Reach-spawn-IsMeshed publishing settings 7899 0 offering (omega arith) Reach-offering) refl
      refl refl IsOnly-voice refl (omega arith) (tt, tt)
