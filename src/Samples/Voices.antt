-- ===== src/Samples/Voices.antt =====
-- Ada joins and speaks, and leaves: what her room lists meanwhile.
use mathlib.Core.Option
use ababilx_chat_sfu.Shared.{
  ◌==◌, nat_Eq, if◌then◌else◌, ◌≡◌, refl, arith, some, none, [], ◌∷◌, ok, String, Result, true, pos,
  string_Eq, lookup,
}
use ababilx_chat_sfu.Media.{Driver, Output, timeout, event, media_added, media_data, audio, millis}
use ababilx_chat_sfu.Peer.Poll.{poll_output, produced, handle_output, handle_event}
use ababilx_chat_sfu.Peer.Media.{
  handle_media_added, handle_media_data_in, note_audio_level, has_mid, forward,
}
use ababilx_chat_sfu.Room.{
  propagate, deliver, deliver_from, speakers, sync_speaking, sort, same_texts,
}
use ababilx_chat_sfu.Peer
use ababilx_chat_sfu.Peer.{is_speaking}
use ababilx_chat_sfu.Engine
use ababilx_chat_sfu.Engine.{Engine}
use ababilx_chat_sfu.Engine.Io.{
  poll_rooms, poll_entries, poll_room, poll_peers, poll_peer, propagate_all,
}
use ababilx_chat_sfu.Engine.Ticks.{tick_speaking, sync_rooms}
use ababilx_chat_sfu.Engine.Turn.{Reach, here, next, poll, speak, command}
use ababilx_chat_sfu.Engine.Voices.{IsVoiced, speaking_of}
use ababilx_chat_sfu.Engine.Voices.Turns.{Reach-spawn-IsVoiced}
use ababilx_chat_sfu.Tracks.{source, alloc}
use ababilx_chat_sfu.Engine.Run.Paces.{Reach-paced}
use ababilx_chat_sfu.Shared.{◌+◌, ◌*◌, ◌≤◌}
use ababilx_chat_sfu.Samples.{toy, ToyRtc, settings, started, one_in, joining, program}

-- Every peer publishes an audio track, and a loud packet comes on it.
abbrev speech : ToyRtc → Result String (Output toy) × ToyRtc
speech r =
    if r.mids == 0
    then (ok (event (media_added (record { mid = 5; kind = audio }))), record r { mids = 1 })
    else if r.mids == 1
    then (
      ok (
          event (
            media_data (record {
              mid = 5;
              params = 0;
              contiguous = true;
              audio_level = some (pos 0);
              voice_activity = none;
              network_time = 0;
              time = 0;
              payload = 0;
            }))),
      record r { mids = 2 },
    )
    else (ok (timeout 1_000_000_000), r)

abbrev speaking : Driver toy
speaking = record {
  accepts = λ r i. r.alive;
  handle_input = λ r i. (ok tt, r);
  poll_output = speech;
}

abbrev polled : Engine toy
polled = record one_in {
  rooms =
      (
        "r",
        record {
          call_id = "c";
          peers =
              record (Peer.new 1 (record { alive = true; mids = 2 }) "ada" "ada" "" 1) {
                tracks_in =
                    record {
                      id = record {
                        address = 0;
                        value = record { origin = 1; mid = 5; kind = audio };
                      };
                      last_keyframe_request = none;
                    }
                    ∷ [];
                speaking_until = some (millis 600);
              }
              ∷ [];
          speaking = [];
        },
      )
      ∷ [];
  arcs = record { next = 1; live = (0, record { origin = 1; mid = 5; kind = audio }) ∷ [] };
}

unfoldable polling : Unit {0}
unfolding program poll_output produced handle_output handle_event handle_media_added
    handle_media_data_in note_audio_level has_mid alloc poll_rooms poll_entries poll_room poll_peers
    poll_peer propagate_all propagate deliver deliver_from forward source
polling = tt

polls : poll_rooms speaking 4 0 one_in ≡ some (polled, 100_000_000)
unfolding polling
polls = refl

abbrev heard : Engine toy
heard = tick_speaking (millis 300) polled

Reach-heard : Reach speaking started heard
unfolding program
Reach-heard =
    next
      (next (next here (command 0 (Engine.join (joining "ada" "sdp" 1)) (omega arith)))
        (poll 4 0 100_000_000 polls))
      (speak (millis 300))

Reach-spawn-IsVoiced_example : IsVoiced heard
Reach-spawn-IsVoiced_example = Reach-spawn-IsVoiced speaking settings 7899 0 heard Reach-heard

lists_ada : Option.map speaking_of (lookup "r" heard.rooms) ≡ some ("1" ∷ [])
unfolding polling tick_speaking sync_rooms sync_speaking speakers is_speaking sort same_texts
lists_ada = refl

-- One tick on the way; another after 150 ms is not due.
Reach-paced_example :
    (1 * 200_000_000 + started.last_speaking ≤ heard.last_speaking)
    × (tick_speaking (millis 450) heard ≡ heard)
unfolding tick_speaking Reach-heard
Reach-paced_example = Reach-paced speaking Reach-heard (millis 450) "r"
