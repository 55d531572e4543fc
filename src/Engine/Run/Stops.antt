-- ===== src/Engine/Run/Stops.antt =====
-- src/sfu/dispatch.rs, `drain_commands`, and src/sfu/engine.rs, `Engine::run`: how the media loop ends.
use mathlib.Core.List.{append-nil}
use ababilx_chat_sfu.Shared.{ℕ, ◌≡◌, ◌≢◌, refl, ap, sym, ◌∙◌, none, some, List, [], ◌∷◌, ◌++◌, All}
use ababilx_chat_sfu.Media.{Deps, Driver}
use ababilx_chat_sfu.Engine.{Engine, Command, join, answer, mute, screen, leave, shutdown}
use ababilx_chat_sfu.Engine.Dispatch.{stop, QueueEnd, disconnected, apply, drain_commands, at_end}
use ababilx_chat_sfu.Engine.Run.{Inputs, turn, run, after_commands, go_on}

-- A command that the queue does not end with.
abbrev pub IsWork : Command → Type 0
IsWork c = c ≢ shutdown

module _ {d : Deps} where
  -- The commands one after the other.
  abbrev pub carry_out : ℕ → List Command → Engine d → Engine d
  carry_out now [] e = e
  carry_out now (c ∷ cs) e = carry_out now cs (apply now c e)

  -- The queue tells the loop to stop behind the commands `cs`: by a shutdown, or as all senders are gone.
  pub data Stops (t : Inputs d) (cs : List Command) : Type 0 where
    told : (more : List Command) → t.commands ≡ cs ++ shutdown ∷ more → Stops t cs
    left : t.commands ≡ cs → t.queue_end ≡ disconnected → Stops t cs

  drain_work :
      (now : ℕ) (c : Command) (rest : List Command) (end : QueueEnd) (e : Engine d)
      → IsWork c
      → drain_commands now (c ∷ rest) end e ≡ drain_commands now rest end (apply now c e)
  unfolding drain_commands
  drain_work now (join q) rest end e h = refl
  drain_work now (answer peer sdp) rest end e h = refl
  drain_work now (mute peer muted) rest end e h = refl
  drain_work now (screen peer active) rest end e h = refl
  drain_work now (leave peer) rest end e h = refl
  drain_work now shutdown rest end e h = absurd (h refl)

  drain-append :
      (now : ℕ) (cs more : List Command) (end : QueueEnd) (e : Engine d)
      → All IsWork cs
      → drain_commands now (cs ++ more) end e ≡ drain_commands now more end (carry_out now cs e)
  drain-append now [] more end e h = refl
  drain-append now (c ∷ cs) more end e h =
      drain_work now c (cs ++ more) end e h.0 ∙ drain-append now cs more end (apply now c e) h.1

  drain-Stops :
      (t : Inputs d) (cs : List Command) (e : Engine d)
      → All IsWork cs
      → Stops t cs
      → drain_commands t.drained_at t.commands t.queue_end e ≡ (stop, carry_out t.drained_at cs e)
  unfolding drain_commands at_end
  drain-Stops t cs e work (told more at) =
      ap (λ l. drain_commands t.drained_at l t.queue_end e) at
      ∙ drain-append t.drained_at cs (shutdown ∷ more) t.queue_end e work
  drain-Stops t cs e work (left at gone) =
      ap (λ l. drain_commands t.drained_at l t.queue_end e) (at ∙ sym (append-nil cs))
      ∙ drain-append t.drained_at cs [] t.queue_end e work
      ∙ ap (λ q. drain_commands t.drained_at [] q (carry_out t.drained_at cs e)) gone

module _ {d : Deps} (v : Driver d) where
  turn-Stops :
      (fuel : ℕ) (t : Inputs d) (cs : List Command) (e : Engine d)
      → All IsWork cs
      → Stops t cs
      → turn v fuel t e
        ≡ some (record { flow = stop; engine = carry_out t.drained_at cs e; waited = none })
  unfolding turn after_commands
  turn-Stops fuel t cs e work h = rw (drain-Stops t cs e work h) refl

  -- A shutdown, or the end of all senders, ends the media loop: it carries out the commands that came
  -- before, in their order, and then it stops without another poll of a peer, whatever str0m would do,
  -- without another report or datagram, and without a look at later commands.
  pub run-Stops :
      (fuel : ℕ) (t : Inputs d) (later : List (Inputs d)) (cs : List Command) (e : Engine d)
      → All IsWork cs
      → Stops t cs
      → run v fuel (t ∷ later) e ≡ some (carry_out t.drained_at cs e)
  unfolding run go_on
  run-Stops fuel t later cs e work h = rw (turn-Stops fuel t cs e work h, run) refl
