-- ===== src/Session/Commands.antt =====
-- src/signal/session.rs: the acts of a session as the media loop sees them.
use ababilx_chat_sfu.Shared.{
  ℕ, ◌≡◌, refl, ap, String, Bool, true, false, Option, none, some, List, [], ◌∷◌, ◌++◌, arith,
  if◌then◌else◌, Bool-cases, Option-cases, inl, inr, All, All-append, map, pick, string_Eq,
}
use ababilx_chat_sfu.Proto.{ClientMsg, ServerMsg}
use ababilx_chat_sfu.Engine.{Command, JoinRequest}
use ababilx_chat_sfu.Engine
use ababilx_chat_sfu.Session.{
  Act, command, queue, write, write_close, close, other, failed, ended, drained, queued, read_turn,
  forward, Setting, Socket, Turn, Incoming, text, send, queue_if, serve, run, admit, apply_message,
}

-- The commands that the media loop gets, in order.
abbrev pub commands : List Act → List Command
commands [] = []
commands (command c ∷ acts) = c ∷ commands acts
commands (queue _ ∷ acts) = commands acts
commands (write _ ∷ acts) = commands acts
commands (write_close ∷ acts) = commands acts

-- A command on the peer itself that neither joins, leaves nor shuts down.
abbrev pub IsOwn : ℕ → Command → Type 0
IsOwn peer (Engine.answer p _) = p ≡ peer
IsOwn peer (Engine.mute p _) = p ≡ peer
IsOwn peer (Engine.screen p _) = p ≡ peer
IsOwn peer (Engine.join _) = ⊥
IsOwn peer (Engine.leave _) = ⊥
IsOwn peer Engine.shutdown = ⊥

abbrev pub farewell : Socket → ℕ → List Command
farewell k peer = if k.leave_open then Engine.leave peer ∷ [] else []

pub commands-append : (a b : List Act) → commands (a ++ b) ≡ commands a ++ commands b
commands-append [] b = refl
commands-append (command c ∷ a) b = ap (λ l. c ∷ l) (commands-append a b)
commands-append (queue _ ∷ a) b = commands-append a b
commands-append (write _ ∷ a) b = commands-append a b
commands-append (write_close ∷ a) b = commands-append a b

send-IsOwn :
    (peer : ℕ) (taken : Bool) (c : Command)
    → IsOwn peer c
    → All (IsOwn peer) (commands (send taken c).0)
unfolding send
send-IsOwn peer true c h = (h, tt)
send-IsOwn peer false c h = tt

queue_if-IsOwn :
    (peer : ℕ) (read : Bool) (m : ServerMsg) → All (IsOwn peer) (commands (queue_if read m).0)
unfolding queue_if
queue_if-IsOwn peer true m = tt
queue_if-IsOwn peer false m = tt

pub commands-farewell :
    (k : Socket) (peer : ℕ) → commands (send k.leave_open (Engine.leave peer)).0 ≡ farewell k peer
unfolding send
commands-farewell k peer = elim (Bool-cases k.leave_open) [
  | inl y ↦ rw (y, send) refl
  | inr n ↦ rw (n, send) refl
]

module _ (s : Setting) where
  apply_message-IsOwn :
      (m : Option ClientMsg) (peer : ℕ) (t : Turn)
      → All (IsOwn peer) (commands (apply_message s m peer t).0)
  unfolding apply_message
  apply_message-IsOwn none peer t = queue_if-IsOwn peer t.out_open _
  apply_message-IsOwn (some (ClientMsg.answer sdp)) peer t = send-IsOwn peer t.engine_open _ refl
  apply_message-IsOwn (some (ClientMsg.mute muted)) peer t = send-IsOwn peer t.engine_open _ refl
  apply_message-IsOwn (some (ClientMsg.screen active)) peer t = send-IsOwn peer t.engine_open _ refl
  apply_message-IsOwn (some ClientMsg.ping) peer t = queue_if-IsOwn peer t.out_open _
  apply_message-IsOwn (some ClientMsg.leave) peer t = tt
  apply_message-IsOwn (some (ClientMsg.join _ _)) peer t = queue_if-IsOwn peer t.out_open _

  read_turn-IsOwn :
      (i : Incoming) (peer : ℕ) (t : Turn) → All (IsOwn peer) (commands (read_turn s i peer t).0)
  unfolding read_turn forward
  read_turn-IsOwn (text x) peer t = apply_message-IsOwn (s.parse x) peer t
  read_turn-IsOwn close peer t = tt
  read_turn-IsOwn other peer t = tt
  read_turn-IsOwn failed peer t = tt
  read_turn-IsOwn ended peer t = tt

  rest-IsOwn :
      (goes_on : Bool) (peer : ℕ) (rest : List Act)
      → All (IsOwn peer) (commands rest)
      → All (IsOwn peer) (commands (if goes_on then rest else []))
  rest-IsOwn true peer rest h = h
  rest-IsOwn false peer rest h = tt

  pub serve-IsOwn : (peer : ℕ) (ts : List Turn) → All (IsOwn peer) (commands (serve s peer ts))
  unfolding serve
  serve-IsOwn peer [] = tt
  serve-IsOwn peer (t ∷ ts) =
      let (acts, goes_on) = read_turn s t.incoming peer t in
      rw (commands-append acts (if goes_on then serve s peer ts else [])) (
        All-append (IsOwn peer) (commands acts) _ (read_turn-IsOwn t.incoming peer t)
          (rest-IsOwn goes_on peer (serve s peer ts) (serve-IsOwn peer ts)))

  pub silent-writes : (ms : List String) → commands (map write ms ++ write_close ∷ []) ≡ []
  silent-writes [] = refl
  silent-writes (m ∷ ms) = silent-writes ms

  pub silent-drained : (acts : List Act) → commands (drained s acts ++ write_close ∷ []) ≡ []
  unfolding drained
  silent-drained acts = silent-writes (pick (queued s) acts)

  unfoldable pub after_admission : Socket → List Act × Option ℕ → List Act
  after_admission k (acts, none) = acts ++ (drained s acts ++ write_close ∷ [])
  after_admission k (acts, some peer) =
      acts ++ (serve s peer k.turns ++ (send k.leave_open (Engine.leave peer)).0)

  pub run-after_admission : (k : Socket) → run s k ≡ after_admission k (admit s k)
  unfolding run after_admission
  run-after_admission k = elim (Option-cases (admit s k).1) [
    | inl out ↦ ground (arith, out)
    | inr (peer, inside) ↦ ground (arith, inside)
  ]
