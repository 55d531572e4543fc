-- ===== src/Engine/Run/Reaches.antt =====
-- src/sfu/engine.rs: a turn of the loop is made of the steps of `Engine.Turn`.
use ababilx_chat_sfu.Shared.{
  refl, ◌⊎◌, ℕ, ◌+◌, ◌<◌, ◌≡◌, subst, none, some, List, [], ◌∷◌, length, arith, Option-cases,
  Bool-cases, inl, inr,
}
use ababilx_chat_sfu.Media.{Deps, Driver}
use ababilx_chat_sfu.Engine.{Engine, Command, join, answer, mute, screen, leave, shutdown}
use ababilx_chat_sfu.Engine.Join.{u64_mod, reap}
use ababilx_chat_sfu.Engine.Dispatch.{
  apply, drain_commands, ControlFlow, continue, stop, QueueEnd, empty, disconnected, at_end,
}
use ababilx_chat_sfu.Shared.{Bool, true, false, not, map}
use ababilx_chat_sfu.Engine.Run.Deeds.{
  carried_out, swept, ticked, reported, before_shutdown, is_ended, later_deeds, turn_deeds, goes_on,
  loop_deeds, Does, Does-none, Does-one, Does-append,
}
use ababilx_chat_sfu.Engine.Io.{poll_rooms}
use ababilx_chat_sfu.Engine.Ticks.{report_connections, tick_speaking}
use ababilx_chat_sfu.Engine.Turn.{here, next, command, poll, arrive, sweep, speak, read, tell}
use ababilx_chat_sfu.Engine.Run.{Inputs, Turned, rest_of_turn, after_commands, turn, go_on, run}
use ababilx_chat_sfu.Engine.Run.Ids.{next-apply, next-turn}

flow_cases : (c : ControlFlow) → (c ≡ stop) ⊎ (c ≡ continue)
flow_cases stop = inl refl
flow_cases continue = inr refl

module _ {d : Deps} (v : Driver d) where
  Does-drain_commands :
      (now : ℕ) (cs : List Command) (end : QueueEnd) (e : Engine d)
      → e.next_peer + length cs < u64_mod
      → Does v e (map (carried_out now) (before_shutdown cs)) (drain_commands now cs end e).1
  unfolding drain_commands
  Does-drain_commands now [] end e left = Does-none v
  Does-drain_commands now (c ∷ cs) end e left =
      let one : e.next_peer + 1 < u64_mod = omega (arith, left) in
      let more : (apply now c e).next_peer + length cs < u64_mod =
        omega (arith, left, next-apply now c e one) in
      by_command c (
        Does-append v (Does-one v (command now c one))
          (Does-drain_commands now cs end (apply now c e) more))
    where
      by_command :
          (b : Command)
          → Does v e
              (carried_out now b ∷ map (carried_out now) (before_shutdown cs))
              (drain_commands now cs end (apply now b e)).1
          → Does v e
              (map (carried_out now) (before_shutdown (b ∷ cs)))
              (drain_commands now (b ∷ cs) end e).1
      by_command (join q) r = r
      by_command (answer peer sdp) r = r
      by_command (mute peer muted) r = r
      by_command (screen peer active) r = r
      by_command (leave peer) r = r
      by_command shutdown r = Does-none v

  flow_if : Bool → ControlFlow
  flow_if true = continue
  flow_if false = stop

  flow-drain_commands :
      (now : ℕ) (cs : List Command) (end : QueueEnd) (e : Engine d)
      → (drain_commands now cs end e).0 ≡ flow_if (not (is_ended cs end))
  unfolding drain_commands at_end flow_if
  flow-drain_commands now [] empty e = refl
  flow-drain_commands now [] disconnected e = refl
  flow-drain_commands now (join q ∷ cs) end e = flow-drain_commands now cs end _
  flow-drain_commands now (answer peer sdp ∷ cs) end e = flow-drain_commands now cs end _
  flow-drain_commands now (mute peer muted ∷ cs) end e = flow-drain_commands now cs end _
  flow-drain_commands now (screen peer active ∷ cs) end e = flow-drain_commands now cs end _
  flow-drain_commands now (leave peer ∷ cs) end e = flow-drain_commands now cs end _
  flow-drain_commands now (shutdown ∷ cs) end e = refl

  Does-rest_of_turn :
      (t : Inputs d) (wake : ℕ) (e : Engine d)
      → Does v e (later_deeds t) (rest_of_turn v t wake e).engine
  unfolding rest_of_turn
  Does-rest_of_turn t wake e =
      let f = tick_speaking t.spoken_at (reap t.swept_at (report_connections e)) in
      let to_f : Does v e (reported ∷ swept t.swept_at ∷ ticked t.spoken_at ∷ []) f =
        (next (next (next here arrive) (sweep t.swept_at)) (speak t.spoken_at), refl) in
      elim (Bool-cases t.timeout_set) [
        | inl taken ↦
            rw taken
              (Does-append v to_f (next (next here (read t.read_at t.got)) (tell t.told_at), refl))
        | inr refused ↦ rw refused to_f
      ]

  flow-rest_of_turn :
      (t : Inputs d) (wake : ℕ) (e : Engine d)
      → (rest_of_turn v t wake e).flow ≡ flow_if t.timeout_set
  unfolding rest_of_turn flow_if
  flow-rest_of_turn t wake e = ground arith

  abbrev ended_at : Engine d → Turned d
  ended_at f = record { flow = stop; engine = f; waited = none }

  -- The deeds of a turn lead to the engine after it, and whether the loop goes on is as told.
  abbrev Turns : Engine d → Inputs d → Turned d → Type 0
  Turns e t x = Does v e (turn_deeds t) x.engine × (x.flow ≡ flow_if (goes_on t))

  turn-Turns :
      (fuel : ℕ) (t : Inputs d) (e : Engine d) (x : Turned d)
      → e.next_peer + length t.commands < u64_mod
      → turn v fuel t e ≡ some x
      → Turns e t x
  unfolding turn flow_if
  turn-Turns fuel t e x left done =
      after (drain_commands t.drained_at t.commands t.queue_end e) done
        (Does-drain_commands t.drained_at t.commands t.queue_end e left)
        (flow-drain_commands t.drained_at t.commands t.queue_end e)
    where
      after :
          (drained : ControlFlow × Engine d)
          → after_commands v fuel t drained ≡ some x
          → Does v e (map (carried_out t.drained_at) (before_shutdown t.commands)) drained.1
          → drained.0 ≡ flow_if (not (is_ended t.commands t.queue_end))
          → Turns e t x
      after (stop, f) h r flow = elim (Bool-cases (is_ended t.commands t.queue_end)) [
        | inl ended ↦
            let same : ended_at f ≡ x = ground (arith, h) in
            subst (Turns e t) same (rw ended (Does-append v r (Does-none v), refl))
        | inr on ↦ absurd (ground (arith, flow, on))
      ]
      after (continue, f) h r flow = elim (Bool-cases (is_ended t.commands t.queue_end)) [
        | inl ended ↦ absurd (ground (arith, flow, ended))
        | inr on ↦ elim (Option-cases (poll_rooms v fuel t.polled_at f)) [
          | inl stuck ↦ absurd (ground (arith, h, stuck))
          | inr ((g, wake), got) ↦
              let same : rest_of_turn v t wake g ≡ x = ground (arith, h, got) in
              subst (Turns e t) same (
                rw on (
                  Does-append v r (
                      Does-append v (Does-one v (poll fuel t.polled_at wake got))
                        (Does-rest_of_turn t wake g)),
                  flow-rest_of_turn t wake g,
                ))
        ]
      ]

  abbrev pub commands_in : List (Inputs d) → ℕ
  commands_in [] = 0
  commands_in (t ∷ ts) = length t.commands + commands_in ts

  -- With an id left for each command of all its turns, the loop does exactly the deeds below, in this
  -- order, and they lead to the engine it gives. A turn carries out the commands before a shutdown.
  -- Unless a shutdown or the end of the queue ends the loop there, it then polls, reports arrivals,
  -- sweeps and ticks, and if the socket takes its timeout, it receives and tells the time, and the next
  -- turn follows; otherwise the loop ends.
  pub run-Reach :
      (fuel : ℕ) (ts : List (Inputs d)) (e f : Engine d)
      → e.next_peer + commands_in ts < u64_mod
      → run v fuel ts e ≡ some f
      → Does v e (loop_deeds ts) f
  unfolding run go_on flow_if
  run-Reach fuel [] e f left done = subst (Does v e []) (ground (arith, done)) (Does-none v)
  run-Reach fuel (t ∷ ts) e f left done = elim (Option-cases (turn v fuel t e)) [
    | inl stuck ↦ absurd (ground (arith, done, stuck))
    | inr (x, turned) ↦
        let one : e.next_peer + length t.commands < u64_mod = omega (arith, left) in
        let more : x.engine.next_peer + commands_in ts < u64_mod =
          omega (arith, left, next-turn v fuel t e x one turned) in
        let (did, flow) = turn-Turns fuel t e x one turned in
        let went_on : go_on v x (run v fuel ts) ≡ some f = ground (arith, done, turned) in
        elim (Bool-cases (goes_on t)) [
          | inl on ↦ rw on (
              Does-append v did
                (run-Reach fuel ts x.engine f more (ground (arith, went_on, flow, on))))
          | inr ends ↦ rw ends (
              Does-append v did
                (subst (Does v x.engine []) (ground (arith, went_on, flow, ends)) (Does-none v)))
        ]
  ]
