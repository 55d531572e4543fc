-- ===== src/Session/Traces.antt =====
-- src/signal/session.rs, `run`: which commands a socket can give rise to.
use ababilx_chat_sfu.Shared.{
  ℕ, ◌≡◌, ◌≢◌, refl, ◌∙◌, ap₂, sym, subst, String, Bool, true, false, Option, none, some, List, [],
  ◌∷◌, ◌++◌, arith, ok, if◌then◌else◌, Result-cases, inl, inr, All, string_Eq,
}
use ababilx_chat_sfu.Auth.{verify}
use ababilx_chat_sfu.Auth.Tokens.{IsComplete, verify_iff}
use ababilx_chat_sfu.Shared.Texts.{trim}
use ababilx_chat_sfu.Proto.{ClientMsg}
use ababilx_chat_sfu.Engine.{Command, JoinRequest}
use ababilx_chat_sfu.Engine
use ababilx_chat_sfu.Session.Commands.{
  commands, IsOwn, farewell, commands-append, commands-farewell, serve-IsOwn, silent-drained,
  after_admission, run-after_admission,
}
use ababilx_chat_sfu.Session.{
  Act, command, write_close, close, other, failed, ended, drained, refusal, first_message,
  first_frame, verified, asked, answered, Setting, Socket, text, first, deadline, First, send,
  serve, run, admit,
}

-- A join whose claims the socket's first frame carries in a token that jsonwebtoken accepts under the
-- shared secret, with a user, a room and a call.
pub record Authorised (s : Setting) (k : Socket) (q : JoinRequest) : Type 0 where
  pub frame : String
  pub token : String
  pub opened_with : k.opening ≡ first (text frame)
  pub is_join : s.parse frame ≡ some (ClientMsg.join token q.sdp)
  pub accepted : s.decode (trim token) s.shared_secret ≡ ok q.claims
  pub complete : IsComplete q.claims

-- The commands of a socket: none, a join that is not granted, or a granted join, commands on the peer
-- that was assigned, and its leave.
pub data IsSession (s : Setting) (k : Socket) : List Command → Type 0 where
  unheard : IsSession s k []
  turned_away :
      (q : JoinRequest)
      → Authorised s k q
      → ((peer : ℕ) → k.reply ≢ some (some peer))
      → IsSession s k (Engine.join q ∷ [])
  attended :
      (q : JoinRequest) (peer : ℕ) (cs : List Command)
      → Authorised s k q
      → k.reply ≡ some (some peer)
      → All (IsOwn peer) cs
      → IsSession s k (Engine.join q ∷ cs ++ farewell k peer)

module _ (s : Setting) where
  quiet_refusal :
      (k : Socket) (acts : List Act)
      → commands acts ≡ []
      → IsSession s k (commands (after_admission s k (acts, none)))
  unfolding after_admission
  quiet_refusal k acts quiet =
      let silent = commands-append acts (drained s acts ++ write_close ∷ []) in
      subst (IsSession s k) (sym (silent ∙ ap₂ (λ a b. a ++ b) quiet (silent-drained s acts)))
        unheard

  answered-IsSession :
      (q : JoinRequest) (k : Socket) (reply : Option (Option ℕ))
      → k.reply ≡ reply
      → Authorised s k q
      → IsSession s k
          (commands (after_admission s k (command (Engine.join q) ∷ [], answered s reply)))
  unfolding answered after_admission
  answered-IsSession q k none e a =
      rw (silent-drained s (command (Engine.join q) ∷ []))
        (turned_away q a (λ peer f. ground (arith, e, f)))
  answered-IsSession q k (some none) e a =
      rw (silent-drained s (command (Engine.join q) ∷ []))
        (turned_away q a (λ peer f. ground (arith, e, f)))
  answered-IsSession q k (some (some peer)) e a =
      rw
        (
          commands-append (serve s peer k.turns) (send k.leave_open (Engine.leave peer)).0,
          commands-farewell k peer,
        )
        (attended q peer (commands (serve s peer k.turns)) a e (serve-IsOwn s peer k.turns))

  sent-IsSession :
      (q : JoinRequest) (k : Socket) (taken : Bool)
      → Authorised s k q
      → IsSession s k (
          commands (
            after_admission s k (
              if taken
              then (command (Engine.join q) ∷ [], answered s k.reply)
              else refusal "unavailable" "The call service is restarting.")))
  sent-IsSession q k true a = answered-IsSession q k k.reply refl a
  sent-IsSession q k false a = quiet_refusal k _ refl

  asked-IsSession :
      (q : JoinRequest) (k : Socket)
      → Authorised s k q
      → IsSession s k (commands (after_admission s k (asked s q k)))
  unfolding asked
  asked-IsSession q k a = sent-IsSession q k k.join_open a

  verified-IsSession :
      (frame token sdp : String) (k : Socket)
      → k.opening ≡ first (text frame)
      → s.parse frame ≡ some (ClientMsg.join token sdp)
      → IsSession s k (
          commands (after_admission s k (verified s sdp (verify s.decode token s.shared_secret) k)))
  unfolding verified
  verified-IsSession frame token sdp k opened_with is_join =
      elim (Result-cases (verify s.decode token s.shared_secret)) [
        | inr (x, bad) ↦ rw (bad, verified) (quiet_refusal k _ refl)
        | inl (claims, good) ↦
            let (accepted, complete) = (verify_iff s.decode token s.shared_secret claims).0 good in
            rw (good, verified)
              (asked-IsSession _ k (record {
                frame = frame;
                token = token;
                opened_with = opened_with;
                is_join = is_join;
                accepted = accepted;
                complete = complete;
              }))
      ]

  message-IsSession :
      (frame : String) (m : Option ClientMsg) (k : Socket)
      → k.opening ≡ first (text frame)
      → s.parse frame ≡ m
      → IsSession s k (commands (after_admission s k (first_message s m k)))
  unfolding first_message
  message-IsSession frame none k o e = quiet_refusal k _ refl
  message-IsSession frame (some (ClientMsg.join token sdp)) k o e =
      verified-IsSession frame token sdp k o e
  message-IsSession frame (some (ClientMsg.answer _)) k o e = quiet_refusal k _ refl
  message-IsSession frame (some (ClientMsg.mute _)) k o e = quiet_refusal k _ refl
  message-IsSession frame (some (ClientMsg.screen _)) k o e = quiet_refusal k _ refl
  message-IsSession frame (some ClientMsg.leave) k o e = quiet_refusal k _ refl
  message-IsSession frame (some ClientMsg.ping) k o e = quiet_refusal k _ refl

  frame-IsSession :
      (f : First) (k : Socket)
      → k.opening ≡ f
      → IsSession s k (commands (after_admission s k (first_frame s f k)))
  unfolding first_frame
  frame-IsSession deadline k o = quiet_refusal k [] refl
  frame-IsSession (first (text t)) k o = message-IsSession t (s.parse t) k o refl
  frame-IsSession (first close) k o = quiet_refusal k [] refl
  frame-IsSession (first other) k o = quiet_refusal k [] refl
  frame-IsSession (first failed) k o = quiet_refusal k [] refl
  frame-IsSession (first ended) k o = quiet_refusal k [] refl

  -- Whatever a socket receives, the media loop gets from it no command, or one join, which its first
  -- frame asks for and whose claims are in an accepted token and complete. If that join is granted,
  -- there follow commands on the peer that was assigned and on no other, and its leave, unless the
  -- media loop is gone by then; if it is not granted, nothing follows.
  pub run-IsSession : (k : Socket) → IsSession s k (commands (run s k))
  unfolding admit
  run-IsSession k = rw run-after_admission (frame-IsSession k.opening k refl)
