-- ===== src/Samples.antt =====
-- A small stand-in for str0m and a call with it, on which the theorems are applied and the model run.
pub mod Witnesses
pub mod Edges
pub mod Meshes
pub mod Boots
pub mod Turns
pub mod Accounts
pub mod Requests
pub mod Voices
use Prim.Native.String.{◌++◌ as ◌+++◌}
use ababilx_chat_sfu.Shared.{
  ℕ, zero, suc, ◌+◌, ◌≡◌, refl, String, Bool, true, false, not, ◌||◌, Option, none, some, List, [],
  ◌∷◌, Result, ok, err, if◌then◌else◌, ◌==◌, nat_Eq, string_Eq, nat_eq, ltb, lookup, insert, remove,
  map_values, pos,
}
use ababilx_chat_sfu.Media.{
  Deps, Driver, Input, Output, Event, timeout, MediaKind, audio, IsDocumented,
}
use ababilx_chat_sfu.Auth.{JoinClaims}
use ababilx_chat_sfu.Config.{Config, advertised_udp}
use ababilx_chat_sfu.Report
use ababilx_chat_sfu.Tracks.{as_string, alloc, upgrade, drop_arc, drop_entries, source}
use ababilx_chat_sfu.Tracks
use ababilx_chat_sfu.Tracks.{Arcs, to_open, opened}
use ababilx_chat_sfu.Peer
use ababilx_chat_sfu.Peer.{Peer}
use ababilx_chat_sfu.Peer.{send, info, is_abandoned}
use ababilx_chat_sfu.Peer.Negotiate.{
  mark_dead, stage, track_map, negotiate_if_needed, settle, accept_answer, accept_offer,
}
use ababilx_chat_sfu.Peer.Media.{has_mid, handle_media_added, note_audio_level}
use ababilx_chat_sfu.Peer.Poll.{poll_output}
use ababilx_chat_sfu.Room
use ababilx_chat_sfu.Room.{
  roster, broadcast, subscribe, deliver, deliver_from, propagate, existing, subscribe_all,
  subscribe_to_existing, peer_of, removed, is_empty,
}
use ababilx_chat_sfu.Hall.{seated}
use ababilx_chat_sfu.Engine.{Engine, Command, JoinRequest, spawn, emit, report_event, room_of}
use ababilx_chat_sfu.Engine
use ababilx_chat_sfu.Engine.Join.{
  is_full, admit_peer, stale, retire_one, retire, room_or_new, vacated, seated_room, seat,
  answered_join, handle_join, report_left, close_if_empty, reap, drop_all, dead_peers, is_dead,
  drop_from, drop_peer,
}
use ababilx_chat_sfu.Engine.Join.Enter.{is_granted}
use ababilx_chat_sfu.Engine.Dispatch.{apply}

-- An `Rtc` is alive or not, is dead from the start if it is built at the instant 7, and counts its m-lines; an `SdpApi` counts its changes too.
pub record ToyRtc : Type 0 where
  pub alive : Bool
  pub mids : ℕ

pub record ToyApi : Type 0 where
  pub rtc : ToyRtc
  pub changes : ℕ

abbrev pub one_more : ToyApi → ToyApi
one_more c = record {
  rtc = record { alive = c.rtc.alive; mids = c.rtc.mids + 1 };
  changes = suc c.changes;
}

abbrev has_some : ℕ → Bool
has_some zero = false
has_some (suc n) = true

abbrev toy_apply : ToyRtc → ℕ → Option (ℕ × ℕ) × ToyRtc
toy_apply r zero = (none, r)
toy_apply r (suc n) = (some (suc n, r.mids), r)

-- The answer 0 is taken.
abbrev toy_verdict : ℕ → Result String (Unit {0})
toy_verdict zero = ok tt
toy_verdict (suc n) = err "rejected"

-- Every text but "" is an SDP.
abbrev toy_parse : String → Result String ℕ
toy_parse s = if s == "" then err "empty" else ok 0

abbrev pub toy : Deps
toy = record {
  Rtc = ToyRtc;
  Mid = ℕ;
  Rid = ℕ;
  Params = ℕ;
  Pt = ℕ;
  MediaTime = ℕ;
  Payload = ℕ;
  Transmit = ℕ;
  Contents = ℕ;
  Address = ℕ;
  Ip = ℕ;
  Candidate = ℕ;
  Writer = ToyRtc;
  SdpApi = ToyApi;
  SdpOffer = ℕ;
  SdpAnswer = ℕ;
  SdpPendingOffer = ℕ;
  socket_addr = λ ip port. port;
  port = λ a. a;
  mid_Eq = nat_Eq;
  mid_to_string = λ m. as_string m;
  uuid = λ n. as_string n;
  build = λ ice_lite now. record { alive = not (now == 7); mids = 0 };
  candidate_host = λ a s. ok a;
  add_local_candidate = λ r c. (true, r);
  is_alive = λ r. r.alive;
  disconnect = λ r. record { alive = false; mids = r.mids };
  writer = λ r m. if ltb m r.mids then some r else none;
  match_params = λ w p. some p;
  audio_level = λ w l b. w;
  write = λ w pt n t x. (ok tt, w);
  request_keyframe = λ w r k. (ok tt, w);
  sdp_api = λ r. record { rtc = r; changes = 0 };
  release = λ c. c.rtc;
  add_media = λ c k w s t q. (c.rtc.mids, one_more c);
  stop_media = λ c m. record { rtc = c.rtc; changes = suc c.changes };
  has_changes = λ c. has_some c.changes;
  apply = λ c. toy_apply c.rtc c.changes;
  accept_answer = λ c p a. (toy_verdict a, c.rtc);
  accept_offer = λ c o. (ok 1, c.rtc);
  offer_from_sdp = toy_parse;
  answer_from_sdp = toy_parse;
  offer_to_sdp = λ o. "offer";
  answer_to_sdp = λ a. "answer";
}

toy_apply-some :
    (r : ToyRtc) (n : ℕ) → has_some n ≡ true → (o : ℕ × ℕ) × ((toy_apply r n).0 ≡ some o)
toy_apply-some r zero h = cc
toy_apply-some r (suc n) h = ((suc n, r.mids), refl)

toy_applies : (c : ToyApi) → toy.has_changes c ≡ true → (o : ℕ × ℕ) × ((toy.apply c).0 ≡ some o)
toy_applies c h = toy_apply-some c.rtc c.changes h

pub toy-IsDocumented : IsDocumented toy
toy-IsDocumented = record {
  disconnect_dead = λ r. refl;
  sdp_api_clean = λ r. refl;
  add_media_changes = λ c k w s t q. refl;
  stop_media_changes = λ c m. refl;
  apply_some = toy_applies;
}

-- A driver that asks to be called again in a second.
abbrev pub toy_driver : Driver toy
toy_driver = record {
  accepts = λ r i. r.alive;
  handle_input = λ r i. (ok tt, r);
  poll_output = λ r. (ok (timeout 1_000_000_000), r);
}

abbrev pub settings : Config toy
settings = record {
  http_bind = 7898;
  udp_bind = 7899;
  public_ip = 1;
  shared_secret = "secret";
  webhook_url = none;
  webhook_secret = "secret";
  ice_lite = false;
  max_room_peers = 2;
}

abbrev pub joining : (user sdp : String) (out : ℕ) → JoinRequest
joining user sdp out = record {
  claims = record {
    sub = user;
    room = "r";
    call_id = "c";
    name = user;
    avatar_url = "";
    exp = pos 0;
  };
  sdp = sdp;
  out = out;
  assigned = out;
}

abbrev pub started : Engine toy
started = spawn settings 7899 0

abbrev pub one_in : Engine toy
one_in = apply 0 (Engine.join (joining "ada" "sdp" 1)) started

abbrev pub two_in : Engine toy
two_in = apply 0 (Engine.join (joining "bob" "sdp" 2)) one_in

-- One track is live, at address 0; its publisher is peer 2.
abbrev pub heap : Arcs toy
heap = record { next = 2; live = (0, record { origin = 2; mid = 5; kind = audio }) ∷ [] }

-- Ada waits to open the live track, and has open the track of a publisher that is gone.
abbrev pub listener : Peer toy
listener = record (Peer.new 1 (record { alive = true; mids = 4 }) "ada" "ada" "" 1) {
  tracks_out =
      record { track_in = 0; state = to_open } ∷ record { track_in = 1; state = opened 3 } ∷ [];
  connected = true;
}

-- The same peer alone in a call.
abbrev pub quiet_call : Engine toy
quiet_call = record started {
  rooms = ("r", record { call_id = "c"; peers = listener ∷ []; speaking = [] }) ∷ [];
  peer_rooms = (1, "r") ∷ [];
  next_peer = 2;
  arcs = heap;
}

-- What a run of the model computes with.
unfoldable pub program : Unit {0}
unfolding spawn advertised_udp apply handle_join is_full admit_peer answered_join seat seated_room
    vacated retire retire_one room_or_new stale emit report_event report_left close_if_empty
    drop_peer drop_from Room.remove Room.new is_empty removed peer_of roster broadcast
    subscribe_to_existing is_granted existing subscribe_all subscribe Peer.new send info
    accept_offer lookup insert remove map_values as_string drop_entries reap drop_all dead_peers
    is_dead is_abandoned negotiate_if_needed mark_dead stage track_map settle upgrade accept_answer
program = tt

ids_drawn : (two_in.next_peer ≡ 3) × (lookup 2 two_in.peer_rooms ≡ some "r")
unfolding program
ids_drawn = (refl, refl)
