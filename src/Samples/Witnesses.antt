-- ===== src/Samples/Witnesses.antt =====
-- The theorems, applied to the call of the samples.
use ababilx_chat_sfu.Room.{Room, sync_speaking}
use ababilx_chat_sfu.Room.Speaking.Sorted.{IsSorted, Names, sync_speaking_iff}
use ababilx_chat_sfu.Engine.Join.Replaced.{told-handle_join}
use ababilx_chat_sfu.Engine.Join.Replies.{replies, replies-handle_join}
use ababilx_chat_sfu.Engine.Join.Enter.{is_granted}
use mathlib.Core.Bool.{xor}
use ababilx_chat_sfu.Shared.{true}
use ababilx_chat_sfu.Engine.{room_of}
use ababilx_chat_sfu.Room.{peer_of}
use ababilx_chat_sfu.Shared.{leb, ◌-◌}
use ababilx_chat_sfu.Media.{completed, disconnected}
use ababilx_chat_sfu.Peer.{is_abandoned}
use ababilx_chat_sfu.Peer.Poll.{handle_ice_state}
use ababilx_chat_sfu.Peer.Poll.Grace.{ice_grace, handle_all}
use ababilx_chat_sfu.Engine.Dispatch.{apply, set_state}
use ababilx_chat_sfu.Engine.Dispatch.Screens.{told-set_state, shared_screen}
use ababilx_chat_sfu.Peer.{Peer}
use ababilx_chat_sfu.Peer
use ababilx_chat_sfu.Engine.{Engine}
use ababilx_chat_sfu.Engine.Join.{reap}
use ababilx_chat_sfu.Engine.Join.Sweep.{is_lost, reap_lem}
use ababilx_chat_sfu.Media.{video, pli, fir}
use ababilx_chat_sfu.Tracks.{TrackInEntry}
use ababilx_chat_sfu.Peer.Media.{has_mid, throttled, request_keyframe_throttled}
use ababilx_chat_sfu.Peer.Media.Keyframes.{keyframe_throttled}
use ababilx_chat_sfu.Shared.{
  lookup, nat_Eq, ◌⊎◌, some, ◌≡◌, arith, string_Eq, true, false, none, String, List, [], ◌∷◌, ◌++◌,
  map, refl, All, keep,
}
use ababilx_chat_sfu.Peer.Negotiate.Lines.{open_line}
use ababilx_chat_sfu.Shared.{pick}
use ababilx_chat_sfu.Proto.{TrackMap, ServerMsg}
use ababilx_chat_sfu.Peer.{message}
use ababilx_chat_sfu.Peer.Negotiate.{negotiate_if_needed, accept_answer}
use ababilx_chat_sfu.Peer.Negotiate.Rounds.{negotiates_iff_needed, offer_round, Settled, live}
use ababilx_chat_sfu.Peer.Negotiate.Offers.{offer_attributes, rejected_answer_strands, attribution}
use ababilx_chat_sfu.Engine.Ticks.{report_connections}
use ababilx_chat_sfu.Engine.Ticks.Arrivals.{report_connections_once}
use ababilx_chat_sfu.Engine.Told.{told, about}
use ababilx_chat_sfu.Engine.Join.Departures.{told-drop_peer, closed}
use ababilx_chat_sfu.Tracks.{TrackOut}
use ababilx_chat_sfu.Hall.{leave_hall, enter_hall}
use ababilx_chat_sfu.Engine
use ababilx_chat_sfu.Engine.Seats.{hall, IsValid}
use ababilx_chat_sfu.Engine.Join.{handle_join, drop_peer}
use ababilx_chat_sfu.Engine.Join.Leave.{hall-drop_peer}
use ababilx_chat_sfu.Engine.Join.Enter.{hall-handle_join}
use ababilx_chat_sfu.Engine.Turn.{Reach, here, next, command, Reach-spawn-IsValid}
use ababilx_chat_sfu.Samples.{
  toy, toy-IsDocumented, heap, listener, quiet_call, toy_driver, settings, joining, started, one_in,
  two_in, program,
}

Reach-one_in : Reach toy_driver started one_in
unfolding program
Reach-one_in = next here (command 0 (Engine.join (joining "ada" "sdp" 1)) (omega arith))

Reach-two_in : Reach toy_driver started two_in
unfolding program
Reach-two_in = next Reach-one_in (command 0 (Engine.join (joining "bob" "sdp" 2)) (omega arith))

Reach-spawn-IsValid_example : IsValid two_in
Reach-spawn-IsValid_example =
    Reach-spawn-IsValid toy_driver settings 7899 0 two_in (omega arith) Reach-two_in

one_in-IsValid : IsValid one_in
one_in-IsValid = Reach-spawn-IsValid toy_driver settings 7899 0 one_in (omega arith) Reach-one_in

-- Ada joins again: the granted case, with a peer to retire.
hall-handle_join_example :
    hall (handle_join 0 (joining "ada" "again" 3) one_in) ≡ enter_hall 2 "ada" "r" (hall one_in)
unfolding program
hall-handle_join_example = hall-handle_join 0 (joining "ada" "again" 3) one_in one_in-IsValid

replies-handle_join_example :
    replies (handle_join 0 (joining "ada" "again" 3) one_in).log
    ≡ replies one_in.log ++ (3, some 2) ∷ []
unfolding program is_granted
replies-handle_join_example = replies-handle_join 0 (joining "ada" "again" 3) one_in

hall-drop_peer_example : hall (drop_peer 1 two_in) ≡ leave_hall 1 (hall two_in)
hall-drop_peer_example = hall-drop_peer 1 two_in Reach-spawn-IsValid_example

negotiates_iff_needed_example : (negotiate_if_needed heap listener).2 ≡ true
unfolding program
negotiates_iff_needed_example = negotiates_iff_needed toy-IsDocumented heap listener

sent_offer : (negotiate_if_needed heap listener).2 ≡ true
unfolding program
sent_offer = refl

offer_round_example :
    let q = (accept_answer (negotiate_if_needed heap listener).0 0).0 in
    (q.pending ≡ none)
    × All (Settled heap) q.tracks_out
    × (map (λ (t : TrackOut toy). t.track_in) (keep (live heap) q.tracks_out) ≡ 0 ∷ [])
    × ((negotiate_if_needed heap q).2 ≡ false)
unfolding program
offer_round_example =
    offer_round heap toy-IsDocumented listener 0 (refl, (refl, tt)) sent_offer refl

offer_attributes_example :
    (sdp : String) × (tracks : List TrackMap) × ((negotiate_if_needed heap listener).1
      ≡ message 1 (ServerMsg.offer sdp tracks) ∷ [])
    × (tracks ≡ record { mid = "4"; peer_id = "2"; kind = "audio" } ∷ [])
    × (map attribution tracks ≡ ("2", "audio") ∷ [])
    × (pick (open_line heap) (negotiate_if_needed heap listener).0.tracks_out ≡ [])
unfolding program
offer_attributes_example = offer_attributes heap listener (refl, (refl, tt)) sent_offer

report_connections_once_example :
    (told (report_connections quiet_call).log
      ≡ told quiet_call.log ++ about "participant_joined" "r" "ada" ∷ [])
    × (report_connections (report_connections quiet_call) ≡ report_connections quiet_call)
unfolding Peer.new
report_connections_once_example = report_connections_once quiet_call

told-drop_peer_example : told (drop_peer 1 quiet_call).log ≡ told quiet_call.log ++ closed "r" ∷ []
unfolding program
told-drop_peer_example = told-drop_peer 1 quiet_call "r" _ listener refl refl refl

rejected_answer_strands_example :
    let q = (accept_answer (negotiate_if_needed heap listener).0 1).0 in
    (q.pending ≡ none)
    × (q.tracks_out ≡ (negotiate_if_needed heap listener).0.tracks_out)
    × ((negotiate_if_needed heap q).2 ≡ false)
unfolding program
rejected_answer_strands_example =
    rejected_answer_strands heap toy-IsDocumented listener 1 "rejected" (refl, (refl, tt))
      sent_offer refl

told-handle_join_example :
    told (handle_join 0 (joining "ada" "again" 3) one_in).log ≡ told one_in.log
told-handle_join_example = told-handle_join 0 (joining "ada" "again" 3) one_in

-- Ada speaks until the instant 5.
abbrev talk : Room toy
talk = record {
  call_id = "c";
  peers = record listener { speaking_until = some 5 } ∷ [];
  speaking = [];
}

sync_speaking_iff_example :
    let (s, fx) = sync_speaking 0 talk in
    IsSorted s.speaking
    × Names s.speaking 0 talk
    × (s ≡ record talk { speaking = s.speaking })
    × ((Names talk.speaking 0 talk × (fx ≡ []))
        ⊎ (¬ Names talk.speaking 0 talk × (fx ≡ message 1 (ServerMsg.speaking s.speaking) ∷ [])))
    × (sync_speaking 0 s ≡ (s, []))
unfolding Peer.new
sync_speaking_iff_example = sync_speaking_iff 0 talk tt

-- Bob's transport is dead from the start.
abbrev one_dead : Engine toy
one_dead = apply 7 (Engine.join (joining "bob" "sdp" 2)) one_in

Reach-one_dead : Reach toy_driver started one_dead
unfolding program
Reach-one_dead = next Reach-one_in (command 7 (Engine.join (joining "bob" "sdp" 2)) (omega arith))

abbrev ada_alone : Room toy
ada_alone = record {
  call_id = "c";
  peers = Peer.new 1 (record { alive = true; mids = 0 }) "ada" "ada" "" 1 ∷ [];
  speaking = [];
}

reap_lem_example :
    All (λ (p : Peer toy). is_lost 0 p ≡ false) ada_alone.peers
    × (lookup 1 (reap 0 one_dead).peer_rooms ≡ some "r")
unfolding program Peer.new
reap_lem_example =
    reap_lem 0 one_dead "r" ada_alone 1
      (Reach-spawn-IsValid toy_driver settings 7899 0 one_dead (omega arith) Reach-one_dead) refl

abbrev screen : TrackInEntry toy
screen = record {
  id = record { address = 0; value = record { origin = 1; mid = 2; kind = video } };
  last_keyframe_request = none;
}

abbrev publisher : Peer toy
publisher = record listener { tracks_in = screen ∷ [] }

keyframe_throttled_example :
    request_keyframe_throttled 900_000_000 2 fir (request_keyframe_throttled 0 2 pli publisher)
    ≡ request_keyframe_throttled 0 2 pli publisher
unfolding has_mid throttled Peer.new
keyframe_throttled_example =
    keyframe_throttled 0 900_000_000 2 pli fir publisher screen publisher.rtc refl refl refl refl
      (omega arith)

told-set_state_example :
    let f = set_state 1 none (some true) quiet_call in
    (told f.log ≡ told quiet_call.log ++ shared_screen "r" "ada" true ∷ [])
    × (told (set_state 1 none (some true) f).log ≡ told f.log)
unfolding room_of peer_of lookup Peer.new xor
told-set_state_example = told-set_state 1 true quiet_call "r" _ listener refl refl

-- ICE goes away at the instant 0 and says so again at 15 seconds; it is asked at 20 seconds.
ice_grace_example :
    let q =
      handle_all ((15_000_000_000, disconnected) ∷ []) (handle_ice_state 0 disconnected listener) in
    (is_abandoned q 20_000_000_000 ≡ leb 20_000_000_000 (20_000_000_000 - 0))
    × (is_abandoned (handle_ice_state 21_000_000_000 completed q) 20_000_000_000 ≡ false)
unfolding Peer.new
ice_grace_example =
    ice_grace 0 20_000_000_000 21_000_000_000 ((15_000_000_000, disconnected) ∷ []) completed
      listener refl (refl, tt) refl
