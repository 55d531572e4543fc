-- ===== src/Session/Joins.antt =====
-- src/signal/session.rs, `admit`: the way of a join to the media loop.
use ababilx_chat_sfu.Shared.{
  ℕ, ◌≡◌, refl, ap, ◌∙◌, String, true, Option, none, some, List, [], ◌∷◌, ◌++◌, ok,
}
use ababilx_chat_sfu.Shared.Texts.{trim}
use ababilx_chat_sfu.Auth.{JoinClaims, verify}
use ababilx_chat_sfu.Auth.Tokens.{IsComplete, verify_iff}
use ababilx_chat_sfu.Proto.{ClientMsg}
use ababilx_chat_sfu.Engine.{Command}
use ababilx_chat_sfu.Engine
use ababilx_chat_sfu.Session.{
  Setting, Socket, text, first, Act, command, admit, first_frame, first_message, verified, asked,
  answered, run, drained, serve, send, write_close,
}
use ababilx_chat_sfu.Session.Commands.{commands, after_admission, run-after_admission}

module _ (s : Setting) where
  admit-join :
      (k : Socket) (frame token sdp : String) (claims : JoinClaims)
      → k.opening ≡ first (text frame)
      → s.parse frame ≡ some (ClientMsg.join token sdp)
      → verify s.decode token s.shared_secret ≡ ok claims
      → k.join_open ≡ true
      → admit s k ≡ (
        command (
              Engine.join
                (record { claims = claims; sdp = sdp; out = s.out; assigned = s.assigned }))
            ∷ [],
        answered s k.reply,
      )
  unfolding admit first_frame first_message verified asked
  admit-join k frame token sdp claims at read taken up = rw (at, read, taken, up) refl

  ran :
      (k : Socket) (admitted : List Act × Option ℕ)
      → admit s k ≡ admitted
      → commands (run s k) ≡ commands (after_admission s k admitted)
  ran k admitted at = ap commands (run-after_admission s k ∙ ap (after_admission s k) at)

  commands-admitted :
      (k : Socket) (c : Command) (reply : Option ℕ)
      → admit s k ≡ (command c ∷ [], reply)
      → (rest : List Command) × (commands (run s k) ≡ c ∷ rest)
  unfolding after_admission
  commands-admitted k c none at =
      (commands (drained s (command c ∷ []) ++ write_close ∷ []), ran k _ at)
  commands-admitted k c (some peer) at =
      (commands (serve s peer k.turns ++ (send k.leave_open (Engine.leave peer)).0), ran k _ at)

  -- A complete join in an accepted token is the first command that the media loop gets.
  pub commands-join :
      (k : Socket) (frame token sdp : String) (claims : JoinClaims)
      → k.opening ≡ first (text frame)
      → s.parse frame ≡ some (ClientMsg.join token sdp)
      → s.decode (trim token) s.shared_secret ≡ ok claims
      → IsComplete claims
      → k.join_open ≡ true
      → (rest : List Command) × (commands (run s k)
          ≡ Engine.join (record { claims = claims; sdp = sdp; out = s.out; assigned = s.assigned })
            ∷ rest)
  commands-join k frame token sdp claims at read taken complete up = commands-admitted k _ _ (
      admit-join k frame token sdp claims at read
        ((verify_iff s.decode token s.shared_secret claims).1 (taken, complete)) up)
