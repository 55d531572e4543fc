-- ===== src/Samples/Turns.antt =====
-- A turn of the media loop, on which the theorems about turns are applied.
use ababilx_chat_sfu.Shared.{◌≤◌, ◌≡◌, refl, none, some, [], ◌∷◌, arith, Option, true}
use ababilx_chat_sfu.Media.{millis}
use ababilx_chat_sfu.Engine.{spawn}
use ababilx_chat_sfu.Peer.Poll.{poll_output, produced, handle_output}
use ababilx_chat_sfu.Room.{propagate}
use ababilx_chat_sfu.Engine.Ticks.{report_connections, tick_speaking}
use ababilx_chat_sfu.Engine
use ababilx_chat_sfu.Engine.Dispatch.{empty, continue, drain_commands}
use ababilx_chat_sfu.Engine.Io.{
  poll_rooms, poll_entries, read_once, tell_time, poll_room, poll_peers, poll_peer, propagate_all,
}
use ababilx_chat_sfu.Engine.Run.{Inputs, Turned, turn, run, wait_from}
use ababilx_chat_sfu.Engine.Run.Deeds.{
  Does, carried_out, polled, reported, swept, ticked, received, told_time,
}
use ababilx_chat_sfu.Engine.Run.Reaches.{run-Reach}
use ababilx_chat_sfu.Engine.Run.Waits.{turn-bounds}
use ababilx_chat_sfu.Samples.{toy, toy_driver, started, two_in, joining, program}
use ababilx_chat_sfu.Engine.Run.Stops.{Stops, carry_out, run-Stops}
use ababilx_chat_sfu.Engine.Io.Targets.{all_peers, frame_of, read_once-all_peers}
use ababilx_chat_sfu.Shared.{update_first}
use ababilx_chat_sfu.Shared.{map}
use ababilx_chat_sfu.Peer.{Peer}
use ababilx_chat_sfu.Peer.Poll.{handle_input}
use ababilx_chat_sfu.Media.{receive}

-- Ada joins, and no packet comes.
abbrev inputs : Inputs toy
inputs = record {
  commands = Engine.join (joining "ada" "sdp" 1) ∷ [];
  queue_end = empty;
  drained_at = 0;
  polled_at = 0;
  swept_at = 1;
  spoken_at = 2;
  waited_at = 3;
  read_at = 4;
  told_at = 5;
  timeout_set = true;
  got = none;
}

abbrev after : Option (Turned toy) → Turned toy
after none = record { flow = continue; engine = started; waited = none }
after (some x) = x

abbrev turned : Turned toy
turned = after (turn toy_driver 1 inputs started)

unfoldable turning : Unit {0}
unfolding program turn wait_from drain_commands poll_output produced handle_output poll_rooms
    poll_entries poll_room poll_peers poll_peer propagate_all propagate report_connections
    tick_speaking read_once tell_time
turning = tt

turns : turn toy_driver 1 inputs started ≡ some turned
unfolding turning
turns = refl

runs : run toy_driver 1 (inputs ∷ []) started ≡ some turned.engine
unfolding turning run
runs = refl

run-Reach_example :
    Does toy_driver started
      (carried_out 0 (Engine.join (joining "ada" "sdp" 1))
        ∷ polled 0
        ∷ reported
        ∷ swept 1
        ∷ ticked 2
        ∷ received 4 none
        ∷ told_time 5
        ∷ [])
      turned.engine
unfolding spawn
run-Reach_example = run-Reach toy_driver 1 (inputs ∷ []) started turned.engine (omega arith) runs

waits : turned.waited ≡ some 99_999_997
unfolding turning
waits = refl

turn-bounds_example : (millis 1 ≤ 99_999_997) × (99_999_997 ≤ millis 100)
turn-bounds_example =
    turn-bounds toy_driver 1 inputs started turned 99_999_997 (omega arith) turns waits

-- Ada joins, the process is told to end, and her leave comes too late.
abbrev last_inputs : Inputs toy
last_inputs = record inputs {
  commands = Engine.join (joining "ada" "sdp" 1) ∷ Engine.shutdown ∷ Engine.leave 1 ∷ [];
}

run-Stops_example :
    run toy_driver 0 (last_inputs ∷ inputs ∷ []) started
    ≡ some (carry_out 0 (Engine.join (joining "ada" "sdp" 1) ∷ []) started)
run-Stops_example =
    run-Stops toy_driver 0 last_inputs (inputs ∷ []) (Engine.join (joining "ada" "sdp" 1) ∷ [])
      started (λ h. cc, tt) (Stops.told (Engine.leave 1 ∷ []) refl)

-- A datagram for the first of two peers.
read_once-all_peers_example :
    let f = read_once toy_driver 0 (some (3, 4)) two_in in
    (all_peers f.rooms
      ≡ update_first
          (λ (p : Peer toy). p.rtc.alive)
          (handle_input toy_driver (receive 0 3 two_in.advertised 4))
          (all_peers two_in.rooms))
    × (map frame_of f.rooms ≡ map frame_of two_in.rooms)
    × (f ≡ record two_in { rooms = f.rooms })
read_once-all_peers_example = read_once-all_peers toy_driver 0 3 4 two_in
