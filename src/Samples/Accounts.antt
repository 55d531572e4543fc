-- ===== src/Samples/Accounts.antt =====
-- Ada joins, connects and is reported, and leaves: what the host application is told meanwhile.
use ababilx_chat_sfu.Shared.{
  ◌+◌, ◌≤◌, ◌==◌, nat_Eq, if◌then◌else◌, ◌≡◌, refl, arith, some, [], ◌∷◌, ok, String, Result, true,
  string_Eq,
}
use ababilx_chat_sfu.Media.{Driver, Output, timeout, event, ice_connection_state_change, connected}
use ababilx_chat_sfu.Peer.Poll.{
  poll_output, produced, handle_output, handle_event, handle_ice_state,
}
use ababilx_chat_sfu.Room.{propagate}
use ababilx_chat_sfu.Peer
use ababilx_chat_sfu.Engine
use ababilx_chat_sfu.Engine.{Engine}
use ababilx_chat_sfu.Engine.Io.{
  poll_rooms, poll_entries, poll_room, poll_peers, poll_peer, propagate_all,
}
use ababilx_chat_sfu.Engine.Ticks.{
  report_connections, report_joined, arrivals, arrivals_in, has_arrived, mark_room, mark_peer,
}
use ababilx_chat_sfu.Engine.Dispatch.{apply}
use ababilx_chat_sfu.Engine.Turn.{Reach, here, next, poll, arrive, command}
use ababilx_chat_sfu.Engine.Accounts.{departures_told, arrivals_told, staying}
use ababilx_chat_sfu.Engine.Accounts.Turns.{Reach-spawn-Balances}
use ababilx_chat_sfu.Tracks.{source}
use ababilx_chat_sfu.Report
use ababilx_chat_sfu.Samples.{toy, ToyRtc, settings, started, one_in, joining, program}

-- Every peer connects when it is first polled.
abbrev first_poll : ToyRtc → Result String (Output toy) × ToyRtc
first_poll r =
    if r.mids == 0
    then (ok (event (ice_connection_state_change connected)), record r { mids = 1 })
    else (ok (timeout 1_000_000_000), r)

abbrev connecting : Driver toy
connecting = record {
  accepts = λ r i. r.alive;
  handle_input = λ r i. (ok tt, r);
  poll_output = first_poll;
}

-- Ada has connected.
abbrev polled : Engine toy
polled = record one_in {
  rooms =
      (
        "r",
        record {
          call_id = "c";
          peers =
              record (Peer.new 1 (record { alive = true; mids = 1 }) "ada" "ada" "" 1) {
                connected = true;
              }
              ∷ [];
          speaking = [];
        },
      )
      ∷ [];
}

unfoldable polling : Unit {0}
unfolding program poll_output produced handle_output handle_event handle_ice_state poll_rooms
    poll_entries poll_room poll_peers poll_peer propagate_all propagate source
polling = tt

polls : poll_rooms connecting 3 0 one_in ≡ some (polled, 100_000_000)
unfolding polling
polls = refl

abbrev present : Engine toy
present = report_connections polled

abbrev gone : Engine toy
gone = apply 0 (Engine.leave 1) present

Reach-present : Reach connecting started present
unfolding program
Reach-present =
    next
      (next (next here (command 0 (Engine.join (joining "ada" "sdp" 1)) (omega arith)))
        (poll 3 0 100_000_000 polls))
      arrive

Reach-spawn-Balances_example :
    departures_told "r" "ada" present + staying "r" "ada" present ≤ arrivals_told "r" "ada" present
Reach-spawn-Balances_example =
    Reach-spawn-Balances connecting settings 7899 0 present "r" "ada" Reach-present

-- One arrival is told for the peer that stays, and one departure when it leaves.
counts :
    (arrivals_told "r" "ada" present ≡ 1)
    × (staying "r" "ada" present ≡ 1)
    × (departures_told "r" "ada" gone ≡ 1)
    × (staying "r" "ada" gone ≡ 0)
unfolding polling report_connections report_joined arrivals arrivals_in has_arrived mark_room
    mark_peer Report.identity Report.new
counts = (refl, refl, refl, refl)
