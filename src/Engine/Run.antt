-- ===== src/Engine/Run.antt =====
-- src/sfu/engine.rs, `Engine::run`: one turn of the media loop, and turns one after the other.
pub mod Ids
pub mod Deeds
pub mod Reaches
pub mod Waits
pub mod Stops
pub mod Paces
use ababilx_chat_sfu.Shared.{ℕ, ◌-◌, Bool, Option, none, some, List, [], ◌∷◌, leb, if◌then◌else◌}
use ababilx_chat_sfu.Media.{Deps, Driver, millis}
use ababilx_chat_sfu.Engine.{Engine, Command}
use ababilx_chat_sfu.Engine.Join.{reap}
use ababilx_chat_sfu.Engine.Dispatch.{ControlFlow, continue, stop, QueueEnd, drain_commands}
use ababilx_chat_sfu.Engine.Io.{poll_rooms, read_once, tell_time}
use ababilx_chat_sfu.Engine.Ticks.{report_connections, tick_speaking}

-- What a turn takes from outside: the commands that wait and how their queue ends, the instants at
-- which the clock is read, whether the socket takes a timeout, and what it then gives.
pub record Inputs (d : Deps) : Type 0 where
  pub commands : List Command
  pub queue_end : QueueEnd
  pub drained_at : ℕ
  pub polled_at : ℕ
  pub swept_at : ℕ
  pub spoken_at : ℕ
  pub waited_at : ℕ
  pub read_at : ℕ
  pub told_at : ℕ
  pub timeout_set : Bool
  pub got : Option (d.Address × d.Contents)

-- `saturating_duration_since(now).max(1 ms)`
unfoldable pub wait_from : (wake now : ℕ) → ℕ
wait_from wake now = let left = wake - now in if leb left (millis 1) then millis 1 else left

-- The engine after a turn, whether the loop goes on, and how long it waited for the socket, if it did.
pub record Turned (d : Deps) : Type 0 where
  pub flow : ControlFlow
  pub engine : Engine d
  pub waited : Option ℕ

module _ {d : Deps} (v : Driver d) where
  -- Behind the polling: the reports, the sweep and the speakers, and then the socket.
  rest_of_turn : Inputs d → (wake : ℕ) → Engine d → Turned d
  unfolding wait_from
  rest_of_turn t wake e =
      let f = tick_speaking t.spoken_at (reap t.swept_at (report_connections e)) in
      if t.timeout_set
      then record {
        flow = continue;
        engine = tell_time v t.told_at (read_once v t.read_at t.got f);
        waited = some (wait_from wake t.waited_at);
      }
      else record { flow = stop; engine = f; waited = none }

  polled : Inputs d → Option (Engine d × ℕ) → Option (Turned d)
  unfolding rest_of_turn
  polled t none = none
  polled t (some (e, wake)) = some (rest_of_turn t wake e)

  after_commands : ℕ → Inputs d → ControlFlow × Engine d → Option (Turned d)
  unfolding polled
  after_commands fuel t (stop, e) = some (record { flow = stop; engine = e; waited = none })
  after_commands fuel t (continue, e) = polled t (poll_rooms v fuel t.polled_at e)

  -- The body of the loop. There is no result where the fuel does not do for draining a peer.
  unfoldable pub turn : ℕ → Inputs d → Engine d → Option (Turned d)
  unfolding after_commands
  turn fuel t e = after_commands fuel t (drain_commands t.drained_at t.commands t.queue_end e)

  -- What follows a turn, where `later` is the loop from there on.
  go_on : Turned d → (Engine d → Option (Engine d)) → Option (Engine d)
  go_on x later = elim x.flow [ stop ↦ some x.engine | continue ↦ later x.engine ]

  -- The loop, as far as the inputs go.
  unfoldable pub run : ℕ → List (Inputs d) → Engine d → Option (Engine d)
  unfolding go_on
  run fuel [] e = some e
  run fuel (t ∷ ts) e = elim (turn fuel t e) [ none ↦ none | some x ↦ go_on x (run fuel ts) ]
