-- ===== src/Engine/Wired/Turns.antt =====
-- src/sfu/engine.rs, `Engine::run`: every engine that the media loop reaches is wired.
use ababilx_chat_sfu.Shared.{ℕ, ◌+◌, ◌<◌, lookup, nat_Eq, string_Eq, none, some}
use ababilx_chat_sfu.Media.{Deps, Driver}
use ababilx_chat_sfu.Config.{Config}
use ababilx_chat_sfu.Tracks.{upgrade}
use ababilx_chat_sfu.Engine.{Engine, Command, spawn, join, answer, mute, screen, leave, shutdown}
use ababilx_chat_sfu.Engine.Seats.{IsValid}
use ababilx_chat_sfu.Engine.Join.{u64_mod}
use ababilx_chat_sfu.Engine.Dispatch.{apply}
use ababilx_chat_sfu.Engine.Dispatch.Wires.{Rewires-handle_answer, Rewires-set_state}
use ababilx_chat_sfu.Engine.Ticks.Wires.{Rewires-report_connections, Rewires-tick_speaking}
use ababilx_chat_sfu.Engine.Io.Sockets.{Rewires-read_once, Rewires-tell_time}
use ababilx_chat_sfu.Engine.Turn.{
  Step, command, poll, arrive, sweep, speak, read, tell, Reach, here, next, Step-IsValid,
  spawn-IsValid,
}
use ababilx_chat_sfu.Engine.Wired.{IsMeshed, IsMeshed-Rewires}
use ababilx_chat_sfu.Engine.Wired.Polls.{IsMeshed-poll_rooms}
use ababilx_chat_sfu.Engine.Wired.Leaves.{IsMeshed-drop_peer, IsMeshed-reap}
use ababilx_chat_sfu.Engine.Wired.Joins.{IsMeshed-handle_join}

module _ {d : Deps} where
  IsMeshed-apply :
      (now : ℕ) (c : Command) (e : Engine d)
      → e.next_peer + 1 < u64_mod
      → IsValid e
      → IsMeshed e
      → IsMeshed (apply now c e)
  unfolding apply
  IsMeshed-apply now (join q) e left v w = IsMeshed-handle_join q e v w left now
  IsMeshed-apply now (answer peer sdp) e left v w =
      IsMeshed-Rewires (Rewires-handle_answer peer sdp e) w
  IsMeshed-apply now (mute peer muted) e left v w =
      IsMeshed-Rewires (Rewires-set_state peer (some muted) none e) w
  IsMeshed-apply now (screen peer active) e left v w =
      IsMeshed-Rewires (Rewires-set_state peer none (some active) e) w
  IsMeshed-apply now (leave peer) e left v w = IsMeshed-drop_peer peer e v w
  IsMeshed-apply now shutdown e left v w = w

  IsMeshed-spawn :
      (config : Config d) (bound : d.Address) (now : ℕ) → IsMeshed (spawn config bound now)
  unfolding spawn lookup upgrade
  IsMeshed-spawn config bound now = record {
    unique = tt;
    fresh = λ a t there. cc;
    origins = λ a t there. cc;
    wired = λ m r there. cc;
  }

module _ {d : Deps} (v : Driver d) where
  IsMeshed-Step : {e f : Engine d} → Step v e f → IsValid e → IsMeshed e → IsMeshed f
  IsMeshed-Step {e} (command now c left) ok_e w = IsMeshed-apply now c e left ok_e w
  IsMeshed-Step {e} (poll fuel now wake {f} done) ok_e w =
      IsMeshed-poll_rooms v fuel now e f wake ok_e w done
  IsMeshed-Step {e} arrive ok_e w = IsMeshed-Rewires (Rewires-report_connections e) w
  IsMeshed-Step {e} (sweep now) ok_e w = IsMeshed-reap now e ok_e w
  IsMeshed-Step {e} (speak now) ok_e w = IsMeshed-Rewires (Rewires-tick_speaking now e) w
  IsMeshed-Step {e} (read now got) ok_e w = IsMeshed-Rewires (Rewires-read_once v now got e) w
  IsMeshed-Step {e} (tell now) ok_e w = IsMeshed-Rewires (Rewires-tell_time v now e) w

  IsMeshed-Reach : {e f : Engine d} → Reach v e f → IsValid e → IsMeshed e → IsValid f × IsMeshed f
  IsMeshed-Reach here ok_e w = (ok_e, w)
  IsMeshed-Reach (next r s) ok_e w =
      let (ok_f, w_f) = IsMeshed-Reach r ok_e w in (Step-IsValid v s ok_f, IsMeshed-Step s ok_f w_f)

  -- Whatever commands, packets, polls and clock ticks come to an engine that starts empty, with room
  -- for at least one peer and ids left at each command: in every room, each peer publishes exactly the
  -- live tracks that name it as their publisher, is subscribed exactly once to every live track whose
  -- publisher is another peer of the room and to no other live track, and none of its subscriptions to
  -- a live track is to stop. Names of rooms and addresses of tracks are used once, and every live track
  -- names an id that has been drawn.
  pub Reach-spawn-IsMeshed :
      (config : Config d) (bound : d.Address) (now : ℕ) (e : Engine d)
      → 0 < config.max_room_peers
      → Reach v (spawn config bound now) e
      → IsMeshed e
  Reach-spawn-IsMeshed config bound now e h r =
      (IsMeshed-Reach r (spawn-IsValid v config bound now h) (IsMeshed-spawn config bound now)).1
