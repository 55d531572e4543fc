-- ===== src/Engine/Run/Waits.antt =====
-- src/sfu/engine.rs and src/sfu/engine_io.rs: how long a turn waits for the socket.
use ababilx_chat_sfu.Shared.{ℕ, ◌+◌, ◌≤◌, ◌≡◌, some, arith, Option-cases, inl, inr}
use ababilx_chat_sfu.Media.{Deps, Driver, millis}
use ababilx_chat_sfu.Engine.{Engine}
use ababilx_chat_sfu.Engine.Dispatch.{ControlFlow, continue, stop, drain_commands}
use ababilx_chat_sfu.Engine.Io.{max_idle, poll_rooms}
use ababilx_chat_sfu.Engine.Io.Wakes.{wake-poll_rooms}
use ababilx_chat_sfu.Engine.Run.{Inputs, Turned, wait_from, rest_of_turn, after_commands, turn}

wait-bounds :
    (wake now polled_at : ℕ)
    → wake ≤ polled_at + max_idle
    → polled_at ≤ now
    → (millis 1 ≤ wait_from wake now) × (wait_from wake now ≤ max_idle)
unfolding wait_from
wait-bounds wake now polled_at l m = (ground arith, ground (arith, l, m))

module _ {d : Deps} (v : Driver d) where
  -- A turn that waits for the socket waits for at least a millisecond and at most a tenth of a second,
  -- whatever str0m asks for, if the clock does not run backwards from the polling to the wait.
  pub turn-bounds :
      (fuel : ℕ) (t : Inputs d) (e : Engine d) (x : Turned d) (w : ℕ)
      → t.polled_at ≤ t.waited_at
      → turn v fuel t e ≡ some x
      → x.waited ≡ some w
      → (millis 1 ≤ w) × (w ≤ millis 100)
  unfolding turn
  turn-bounds fuel t e x w forward done waits =
      after (drain_commands t.drained_at t.commands t.queue_end e) done
    where
      after :
          (drained : ControlFlow × Engine d)
          → after_commands v fuel t drained ≡ some x
          → (millis 1 ≤ w) × (w ≤ millis 100)
      after (stop, f) h = absurd (ground (arith, h, waits))
      after (continue, f) h = elim (Option-cases (poll_rooms v fuel t.polled_at f)) [
        | inl stuck ↦ absurd (ground (arith, h, stuck))
        | inr ((g, wake), got) ↦
            let same : rest_of_turn v t wake g ≡ x = ground (arith, h, got) in
            let (low, high) =
              wait-bounds wake t.waited_at t.polled_at
                (wake-poll_rooms v fuel t.polled_at f g wake got) forward in
            let is_w : wait_from wake t.waited_at ≡ w = ground (arith, same, waits) in
            (omega (arith, low, is_w), omega (arith, high, is_w))
      ]
