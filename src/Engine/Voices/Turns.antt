-- ===== src/Engine/Voices/Turns.antt =====
-- src/sfu/engine.rs, `Engine::run`: the lists of speakers in every engine that the media loop reaches.
use ababilx_chat_sfu.Shared.{ℕ, none, some, lookup, string_Eq, Option, Bool}
use ababilx_chat_sfu.Media.{Deps, Driver}
use ababilx_chat_sfu.Config.{Config}
use ababilx_chat_sfu.Engine.{Engine, Command, spawn, join, answer, mute, screen, leave, shutdown}
use ababilx_chat_sfu.Engine.Io.Seats.{
  poll_rooms-SameSeats, read_once-SameSeats, tell_time-SameSeats,
}
use ababilx_chat_sfu.Engine.Ticks.Keeps.{report_connections-SameSeats}
use ababilx_chat_sfu.Engine.Dispatch.{apply, set_state}
use ababilx_chat_sfu.Engine.Dispatch.Keeps.{handle_answer-SameSeats, set_state-SameSeats}
use ababilx_chat_sfu.Engine.Turn.{
  Step, command, poll, arrive, sweep, speak, read, tell, Reach, here, next,
}
use ababilx_chat_sfu.Engine.Voices.{IsVoiced, IsVoiced-same}
use ababilx_chat_sfu.Engine.Voices.Keeps.{
  poll_rooms-SameSpeaking, read_once-SameSpeaking, tell_time-SameSpeaking,
  report_connections-SameSpeaking, handle_answer-SameSpeaking, set_state-SameSpeaking,
}
use ababilx_chat_sfu.Engine.Voices.Moves.{IsVoiced-drop_peer, IsVoiced-reap, IsVoiced-tick_speaking}
use ababilx_chat_sfu.Engine.Voices.Joins.{IsVoiced-handle_join}

module _ {d : Deps} where
  IsVoiced-set_state :
      (id : ℕ) (muted active : Option Bool) (e : Engine d)
      → IsVoiced e
      → IsVoiced (set_state id muted active e)
  IsVoiced-set_state id muted active e =
      IsVoiced-same (set_state-SameSeats id muted active e)
        (set_state-SameSpeaking id muted active e)

  IsVoiced-apply : (now : ℕ) (c : Command) (e : Engine d) → IsVoiced e → IsVoiced (apply now c e)
  unfolding apply
  IsVoiced-apply now (join q) e v = IsVoiced-handle_join now q e v
  IsVoiced-apply now (answer peer sdp) e v =
      IsVoiced-same (handle_answer-SameSeats peer sdp e) (handle_answer-SameSpeaking peer sdp e) v
  IsVoiced-apply now (mute peer muted) e v = IsVoiced-set_state peer (some muted) none e v
  IsVoiced-apply now (screen peer active) e v = IsVoiced-set_state peer none (some active) e v
  IsVoiced-apply now (leave peer) e v = IsVoiced-drop_peer peer e v
  IsVoiced-apply now shutdown e v = v

module _ {d : Deps} (v : Driver d) where
  IsVoiced-Step : {e f : Engine d} → Step v e f → IsVoiced e → IsVoiced f
  IsVoiced-Step {e} (command now c left) h = IsVoiced-apply now c e h
  IsVoiced-Step {e} (poll fuel now wake {f} done) h =
      IsVoiced-same (poll_rooms-SameSeats v fuel now e f wake done)
        (poll_rooms-SameSpeaking v fuel now e f wake done) h
  IsVoiced-Step {e} arrive h =
      IsVoiced-same (report_connections-SameSeats e) (report_connections-SameSpeaking e) h
  IsVoiced-Step {e} (sweep now) h = IsVoiced-reap now e h
  IsVoiced-Step {e} (speak now) h = IsVoiced-tick_speaking now e h
  IsVoiced-Step {e} (read now got) h =
      IsVoiced-same (read_once-SameSeats v now got e) (read_once-SameSpeaking v now got e) h
  IsVoiced-Step {e} (tell now) h =
      IsVoiced-same (tell_time-SameSeats v now e) (tell_time-SameSpeaking v now e) h

  IsVoiced-Reach : {e f : Engine d} → Reach v e f → IsVoiced e → IsVoiced f
  IsVoiced-Reach here h = h
  IsVoiced-Reach (next r s) h = IsVoiced-Step s (IsVoiced-Reach r h)

  -- Whatever commands, packets, polls and clock ticks come to an engine that starts empty: every room
  -- lists as speaking only peers that are in it, whoever left or was replaced meanwhile, and lists them
  -- in the order of their ids as texts.
  pub Reach-spawn-IsVoiced :
      (config : Config d) (bound : d.Address) (now : ℕ) (e : Engine d)
      → Reach v (spawn config bound now) e
      → IsVoiced e
  unfolding spawn lookup
  Reach-spawn-IsVoiced config bound now e r = IsVoiced-Reach r (record { heard = λ m s there. cc })
