-- ===== src/Engine/Accounts/Turns.antt =====
-- src/sfu/engine.rs, `Engine::run`: the accounts of every engine that the media loop reaches.
use ababilx_chat_sfu.Shared.{ℕ, ◌+◌, ◌≤◌, String, arith, none, some, lookup, string_Eq}
use ababilx_chat_sfu.Media.{Deps, Driver}
use ababilx_chat_sfu.Config.{Config}
use ababilx_chat_sfu.Engine.{Engine, Command, spawn, join, answer, mute, screen, leave, shutdown}
use ababilx_chat_sfu.Engine.Dispatch.{apply}
use ababilx_chat_sfu.Engine.Turn.{
  Step, command, poll, arrive, sweep, speak, read, tell, Reach, here, next,
}
use ababilx_chat_sfu.Engine.Accounts.{
  departures_told, arrivals_told, staying, Balances, Balances-refl, Balances-trans,
}
use ababilx_chat_sfu.Engine.Accounts.Polls.{
  Balances-poll_rooms, Balances-read_once, Balances-tell_time,
}
use ababilx_chat_sfu.Engine.Accounts.Commands.{
  Balances-handle_answer, Balances-set_state, Balances-tick_speaking,
}
use ababilx_chat_sfu.Engine.Accounts.Leaves.{Balances-drop_peer, Balances-reap}
use ababilx_chat_sfu.Engine.Accounts.Joins.{Balances-handle_join}
use ababilx_chat_sfu.Engine.Accounts.Arrivals.{Balances-report_connections}

module _ {d : Deps} where
  Balances-apply : (now : ℕ) (c : Command) (e : Engine d) → Balances e (apply now c e)
  unfolding apply
  Balances-apply now (join q) e = Balances-handle_join now q e
  Balances-apply now (answer peer sdp) e = Balances-handle_answer peer sdp e
  Balances-apply now (mute peer muted) e = Balances-set_state peer (some muted) none e
  Balances-apply now (screen peer active) e = Balances-set_state peer none (some active) e
  Balances-apply now (leave peer) e = Balances-drop_peer peer e
  Balances-apply now shutdown e = Balances-refl e

module _ {d : Deps} (v : Driver d) where
  Balances-Step : {e f : Engine d} → Step v e f → Balances e f
  Balances-Step {e} (command now c left) = Balances-apply now c e
  Balances-Step {e} (poll fuel now wake {f} done) = Balances-poll_rooms v fuel now e f wake done
  Balances-Step {e} arrive = Balances-report_connections e
  Balances-Step {e} (sweep now) = Balances-reap now e
  Balances-Step {e} (speak now) = Balances-tick_speaking now e
  Balances-Step {e} (read now got) = Balances-read_once v now got e
  Balances-Step {e} (tell now) = Balances-tell_time v now e

  Balances-Reach : {e f : Engine d} → Reach v e f → Balances e f
  Balances-Reach {e} here = Balances-refl e
  Balances-Reach (next r s) = Balances-trans (Balances-Reach r) (Balances-Step s)

  -- Whatever commands, packets, polls and clock ticks come to an engine that starts empty: of every
  -- user in every room, the host application has been told of no more departures than arrivals, and of
  -- an arrival besides for each peer of the user that is in the room and counts as reported.
  pub Reach-spawn-Balances :
      (config : Config d) (bound : d.Address) (now : ℕ) (e : Engine d) (room user : String)
      → Reach v (spawn config bound now) e
      → departures_told room user e + staying room user e ≤ arrivals_told room user e
  unfolding spawn lookup
  Reach-spawn-Balances config bound now e room user r =
      omega (arith, (Balances-Reach r).covered room user)
