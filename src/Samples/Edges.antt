-- ===== src/Samples/Edges.antt =====
-- The theorems about sockets, tokens, settings and reports, applied to inputs at the program's edges.
use Prim.Native.String.{◌++◌ as ◌+++◌}
use ababilx_chat_sfu.Shared.{
  ℕ, zero, suc, ◌+◌, ◌≤◌, ◌≡◌, ◌≢◌, ◌↔◌, refl, String, true, Option, none, some, [], ◌∷◌, Result,
  ok, err, if◌then◌else◌, ◌==◌, string_Eq,
}
use ababilx_chat_sfu.Auth.{JoinClaims}
use ababilx_chat_sfu.Proto.{ClientMsg}
use ababilx_chat_sfu.Session.{
  Setting, Turn, Socket, text, first, admit, forward, serve, drained, encode,
}
use ababilx_chat_sfu.Session
use ababilx_chat_sfu.Report.Delivery.{Host, Response, success, failed}
use ababilx_chat_sfu.Config.{Boot, from_env, parse_addr, required, public_ip_of, number, flag}
use ababilx_chat_sfu.Shared.Texts.{trim, parse_usize, to_ascii_lowercase}
use ababilx_chat_sfu.Auth.{verify}
use ababilx_chat_sfu.Auth.Tokens.{IsComplete, verify_iff}
use ababilx_chat_sfu.Session.Traces.{IsSession, run-IsSession}
use ababilx_chat_sfu.Session.Commands.{commands}
use ababilx_chat_sfu.Engine
use ababilx_chat_sfu.Config.{Config}
use ababilx_chat_sfu.Config.Limits.{from_env-bounds}
use ababilx_chat_sfu.Report
use ababilx_chat_sfu.Report.{ReportEvent, server_started}
use ababilx_chat_sfu.Report.Delivery.{deliver}
use ababilx_chat_sfu.Report.Delivery.Attempts.{
  Outcome, posts_in, losses_in, repeat, deliver-Outcome,
}
use ababilx_chat_sfu.Samples.{toy, settings, joining}

abbrev ada : JoinClaims
ada = (joining "ada" "sdp" 1).claims

abbrev pub toy_decode : String → String → Result String JoinClaims
toy_decode token secret = if token == "ada" then ok ada else err "InvalidToken"

-- The socket's frames: "join" carries the token " ada ".
abbrev pub toy_frame : String → Option ClientMsg
toy_frame t =
    if t == "join"
    then some (ClientMsg.join " ada " "sdp")
    else if t == "mute"
    then some (ClientMsg.mute true)
    else none

abbrev pub setting : Setting
setting = record {
  parse = toy_frame;
  print = λ m. none;
  decode = toy_decode;
  shared_secret = "secret";
  out = 1;
  assigned = 1;
}

abbrev turn : String → Turn
turn t = record { incoming = text t; engine_open = true; out_open = true }

-- Ada joins as peer 1, mutes herself, and sends a frame that is none; then the socket closes.
abbrev pub socket : Socket
socket = record {
  opening = first (text "join");
  join_open = true;
  reply = some (some 1);
  turns = turn "mute" ∷ turn "hello" ∷ [];
  leave_open = true;
}

-- The environment sets the secret and a limit that is too high.
toy_var : String → Option String
toy_var key =
    if key == "SFU_SHARED_SECRET"
    then some " secret "
    else if key == "SFU_MAX_ROOM_PEERS"
    then some "100"
    else none

abbrev boot : Boot toy
unfolding toy_var
boot = record {
  var = toy_var;
  parse_socket_addr = λ t. some 0;
  parse_ip = λ t. some 0;
  guess_local_ip = 0;
}

abbrev toy_respond : ℕ → Response
toy_respond zero = failed
toy_respond (suc n) = success

-- The host takes all posts but the first.
abbrev host : Host
host = record {
  Body = String;
  to_json = λ e. some e.event;
  sign = λ body secret. body +++ secret;
  respond = toy_respond;
}

verify_iff_example :
    (verify setting.decode " ada " "secret" ≡ ok (joining "ada" "sdp" 1).claims) ↔ (
      (setting.decode (trim " ada ") "secret" ≡ ok (joining "ada" "sdp" 1).claims)
      × IsComplete (joining "ada" "sdp" 1).claims)
verify_iff_example = verify_iff setting.decode " ada " "secret" (joining "ada" "sdp" 1).claims

run-IsSession_example : IsSession setting socket (commands (Session.run setting socket))
run-IsSession_example = run-IsSession setting socket

commands-socket :
    commands (Session.run setting socket)
    ≡ Engine.join (joining "ada" "sdp" 1) ∷ Engine.mute 1 true ∷ Engine.leave 1 ∷ []
unfolding verify trim Session.send Session.run admit forward serve drained encode toy_var from_env
    parse_addr required public_ip_of number flag parse_usize to_ascii_lowercase
commands-socket = refl

abbrev booted : Config toy
booted = record settings { http_bind = 0; udp_bind = 0; public_ip = 0; max_room_peers = 16 }

from_env-bounds_example :
    (2 ≤ booted.max_room_peers)
    × (booted.max_room_peers ≤ 64)
    × (booted.shared_secret ≢ "")
    × (booted.webhook_secret ≢ "")
    × (booted.webhook_url ≢ some "")
unfolding verify trim Session.send Session.run admit forward serve drained encode toy_var from_env
    parse_addr required public_ip_of number flag parse_usize to_ascii_lowercase
from_env-bounds_example = from_env-bounds boot booted refl

abbrev joined_event : ReportEvent
joined_event = Report.new "id" "participant_joined" "r"

deliver-Outcome_example :
    let t = deliver host joined_event "{}" "s" 0 in
    (n : ℕ) × Outcome host.respond 0
      (if joined_event.event == server_started then 12 else 3)
      n
      t.delivered
    × (posts_in t.acts ≡ repeat n ("{}", host.sign "{}" "s"))
    × (losses_in t.acts ≡ (if t.delivered then [] else joined_event ∷ []))
    × (t.posts ≡ 0 + n)
deliver-Outcome_example = deliver-Outcome host joined_event "{}" "s" 0
