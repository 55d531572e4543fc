-- ===== src/Session.antt =====
-- src/signal/session.rs: the life of one socket, from its first frame to its leave. What the socket
-- gives, what the media loop answers and whether the channels are still open are inputs; what the
-- session does is a list of acts. What the engine puts on the socket's channel meanwhile is not seen.
pub mod Commands
pub mod Traces
pub mod Joins
use Prim.Native.String.{◌++◌ as ◌+++◌}
use ababilx_chat_sfu.Shared.{
  ℕ, String, Bool, true, false, Option, none, some, List, [], ◌∷◌, ◌++◌, map, Result, ok, err,
  if◌then◌else◌, pick,
}
use ababilx_chat_sfu.Auth.{JoinClaims, AuthError, verify}
use ababilx_chat_sfu.Proto.{ClientMsg, ServerMsg}
use ababilx_chat_sfu.Engine.{Command, JoinRequest}
use ababilx_chat_sfu.Engine

-- What `stream.next()` gives; `other` is a binary frame, a ping or a pong.
pub data Incoming : Type 0 where
  text : String → Incoming
  close other failed ended : Incoming

-- The first frame, or no frame within the deadline.
pub data First : Type 0 where
  deadline : First
  first : Incoming → First

-- A frame, whether the media loop takes commands, and whether the socket's channel has its reader.
pub record Turn : Type 0 where
  pub incoming : Incoming
  pub engine_open : Bool
  pub out_open : Bool

-- A command that the media loop has got, a message on the socket's channel, and what goes out on the
-- socket itself.
pub data Act : Type 0 where
  command : Command → Act
  queue : ServerMsg → Act
  write : String → Act
  write_close : Act

-- Serde's reading and writing of frames and jsonwebtoken's `decode`, the shared secret, and the
-- numbers of the socket's channel and of the join's reply.
pub record Setting : Type 0 where
  pub parse : String → Option ClientMsg
  pub print : ServerMsg → Option String
  pub decode : String → String → Result String JoinClaims
  pub shared_secret : String
  pub out : ℕ
  pub assigned : ℕ

-- The socket's inputs. `reply` is the answer to the join, or nothing where the loop dropped it.
pub record Socket : Type 0 where
  pub opening : First
  pub join_open : Bool
  pub reply : Option (Option ℕ)
  pub turns : List Turn
  pub leave_open : Bool

-- `engine.send`, which says whether the command was taken
unfoldable pub send : Bool → Command → List Act × Bool
send true c = (command c ∷ [], true)
send false c = ([], false)

-- `out_tx.send(..)`, whose message is lost where the reader is gone
queue_if : Bool → ServerMsg → List Act × Bool
queue_if true m = (queue m ∷ [], true)
queue_if false m = ([], false)

abbrev refusal : (code message : String) → List Act × Option ℕ
refusal code message = (queue (ServerMsg.error code message) ∷ [], none)

module _ (s : Setting) where
  encoded : Option String → String
  encoded none = "{\"t\":\"error\",\"code\":\"encode\"}"
  encoded (some t) = t

  unfoldable pub encode : ServerMsg → String
  unfolding encoded
  encode m = encoded (s.print m)

  answered : Option (Option ℕ) → Option ℕ
  answered none = none
  answered (some assigned) = assigned

  asked : JoinRequest → Socket → List Act × Option ℕ
  unfolding answered
  asked q k =
      if k.join_open
      then (command (Engine.join q) ∷ [], answered k.reply)
      else refusal "unavailable" "The call service is restarting."

  verified : (sdp : String) → Result AuthError JoinClaims → Socket → List Act × Option ℕ
  unfolding asked
  verified sdp (err _) k = refusal "unauthorized" "Join token rejected."
  verified sdp (ok claims) k =
      asked (record { claims = claims; sdp = sdp; out = s.out; assigned = s.assigned }) k

  first_message : Option ClientMsg → Socket → List Act × Option ℕ
  unfolding verified
  first_message (some (ClientMsg.join token sdp)) k =
      verified sdp (verify s.decode token s.shared_secret) k
  first_message _ k = refusal "expected_join" "First frame must be a join."

  first_frame : First → Socket → List Act × Option ℕ
  unfolding first_message
  first_frame (first (text t)) k = first_message (s.parse t) k
  first_frame _ k = ([], none)

  unfoldable pub admit : Socket → List Act × Option ℕ
  unfolding first_frame
  admit k = first_frame k.opening k

  apply_message : Option ClientMsg → ℕ → Turn → List Act × Bool
  unfolding queue_if
  apply_message none peer t =
      ((queue_if t.out_open (ServerMsg.error "bad_message" "Unrecognised frame.")).0, true)
  apply_message (some (ClientMsg.answer sdp)) peer t = send t.engine_open (Engine.answer peer sdp)
  apply_message (some (ClientMsg.mute muted)) peer t = send t.engine_open (Engine.mute peer muted)
  apply_message (some (ClientMsg.screen active)) peer t =
      send t.engine_open (Engine.screen peer active)
  apply_message (some ClientMsg.ping) peer t = queue_if t.out_open ServerMsg.pong
  apply_message (some ClientMsg.leave) peer t = ([], false)
  apply_message (some (ClientMsg.join _ _)) peer t =
      ((queue_if t.out_open (ServerMsg.error "already_joined" "Already in a call.")).0, true)

  -- The acts, and false where the socket should close.
  unfoldable pub forward : String → ℕ → Turn → List Act × Bool
  unfolding apply_message
  forward t peer turn = apply_message (s.parse t) peer turn

  read_turn : Incoming → ℕ → Turn → List Act × Bool
  read_turn (text t) peer turn = forward t peer turn
  read_turn other peer turn = ([], true)
  read_turn close peer turn = ([], false)
  read_turn failed peer turn = ([], false)
  read_turn ended peer turn = ([], false)

  -- The loop over the frames. The list's end is the stream's.
  unfoldable pub serve : ℕ → List Turn → List Act
  unfolding read_turn
  serve peer [] = []
  serve peer (t ∷ ts) =
      let (acts, goes_on) = read_turn t.incoming peer t in
      let rest = serve peer ts in acts ++ (if goes_on then rest else [])

  queued : Act → Option String
  unfolding encode
  queued (queue m) = some (encode m)
  queued (command _) = none
  queued (write _) = none
  queued write_close = none

  -- What is still on the channel goes out on the socket: `out_rx.try_recv()`.
  unfoldable pub drained : List Act → List Act
  unfolding queued
  drained acts = map write (pick queued acts)

  unfoldable pub run : Socket → List Act
  run k =
      let (acts, admitted) = admit k in
      elim admitted [
        | none ↦ acts ++ (drained acts ++ write_close ∷ [])
        | some peer ↦ acts ++ (serve peer k.turns ++ (send k.leave_open (Engine.leave peer)).0)
      ]
