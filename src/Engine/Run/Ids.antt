-- ===== src/Engine/Run/Ids.antt =====
-- src/sfu/engine.rs: how many peer ids a turn of the loop draws.
use ababilx_chat_sfu.Shared.{
  refl, ◌∙◌, ℕ, ◌+◌, ◌<◌, ◌≤◌, ◌≡◌, subst, none, some, List, [], ◌∷◌, length, arith, Option-cases,
  Bool-cases, inl, inr,
}
use ababilx_chat_sfu.Media.{Deps, Driver}
use ababilx_chat_sfu.Engine.{
  Engine, Command, JoinRequest, emit, join, answer, mute, screen, leave, shutdown,
}
use ababilx_chat_sfu.Engine.Join.{u64_mod, handle_join, seat, drop_peer, drop_all, dead_peers, reap}
use ababilx_chat_sfu.Engine.Join.Enter.{join_cases}
use ababilx_chat_sfu.Engine.Join.Leave.{next-drop_peer}
use ababilx_chat_sfu.Engine.Dispatch.{apply, drain_commands, ControlFlow, continue, stop, QueueEnd}
use ababilx_chat_sfu.Engine.Dispatch.Keeps.{handle_answer-SameSeats, set_state-SameSeats}
use ababilx_chat_sfu.Engine.Io.{poll_rooms, read_once}
use ababilx_chat_sfu.Engine.Io.Seats.{
  poll_rooms-SameSeats, read_once-SameSeats, tell_time-SameSeats,
}
use ababilx_chat_sfu.Engine.Ticks.Keeps.{report_connections-SameSeats, tick_speaking-SameSeats}
use ababilx_chat_sfu.Engine.Ticks.{report_connections, tick_speaking}
use ababilx_chat_sfu.Engine.Run.{Inputs, Turned, rest_of_turn, after_commands, turn}

module _ {d : Deps} where
  next-handle_join :
      (now : ℕ) (q : JoinRequest) (e : Engine d)
      → e.next_peer + 1 < u64_mod
      → (handle_join now q e).next_peer ≤ e.next_peer + 1
  unfolding emit seat
  next-handle_join now q e left =
      join_cases (λ f. f.next_peer ≤ e.next_peer + 1) now q e (λ fx no. omega arith)
        (λ fx no. omega (arith, left)) (λ p sdp granted x. omega (arith, left))

  pub next-apply :
      (now : ℕ) (c : Command) (e : Engine d)
      → e.next_peer + 1 < u64_mod
      → (apply now c e).next_peer ≤ e.next_peer + 1
  unfolding apply
  next-apply now (join q) e left = next-handle_join now q e left
  next-apply now (answer peer sdp) e left =
      omega (arith, (handle_answer-SameSeats peer sdp e).same_next)
  next-apply now (mute peer muted) e left =
      omega (arith, (set_state-SameSeats peer (some muted) none e).same_next)
  next-apply now (screen peer active) e left =
      omega (arith, (set_state-SameSeats peer none (some active) e).same_next)
  next-apply now (leave peer) e left = omega (arith, next-drop_peer peer e)
  next-apply now shutdown e left = omega arith

  next-drop_all : (ids : List ℕ) (e : Engine d) → (drop_all ids e).next_peer ≡ e.next_peer
  unfolding drop_all
  next-drop_all [] e = refl
  next-drop_all (id ∷ ids) e = next-drop_all ids (drop_peer id e) ∙ next-drop_peer id e

  next-reap : (now : ℕ) (e : Engine d) → (reap now e).next_peer ≡ e.next_peer
  unfolding reap
  next-reap now e = next-drop_all (dead_peers now e) e

module _ {d : Deps} (v : Driver d) where
  next-drain_commands :
      (now : ℕ) (cs : List Command) (end : QueueEnd) (e : Engine d)
      → e.next_peer + length cs < u64_mod
      → (drain_commands now cs end e).1.next_peer ≤ e.next_peer + length cs
  unfolding drain_commands
  next-drain_commands now [] end e left = omega arith
  next-drain_commands now (c ∷ cs) end e left =
      let one = next-apply now c e (omega (arith, left)) in
      let more = next-drain_commands now cs end (apply now c e) (omega (arith, left, one)) in
      by_command c (omega (arith, one, more))
    where
      by_command :
          (b : Command)
          → (drain_commands now cs end (apply now b e)).1.next_peer ≤ e.next_peer + length (c ∷ cs)
          → (drain_commands now (b ∷ cs) end e).1.next_peer ≤ e.next_peer + length (c ∷ cs)
      by_command (join q) l = l
      by_command (answer peer sdp) l = l
      by_command (mute peer muted) l = l
      by_command (screen peer active) l = l
      by_command (leave peer) l = l
      by_command shutdown l = omega arith

  next-rest_of_turn :
      (t : Inputs d) (wake : ℕ) (e : Engine d)
      → (rest_of_turn v t wake e).engine.next_peer ≡ e.next_peer
  unfolding rest_of_turn
  next-rest_of_turn t wake e =
      let a = report_connections e in
      let b = reap t.swept_at a in
      let f = tick_speaking t.spoken_at b in
      let to_f : f.next_peer ≡ e.next_peer =
        (tick_speaking-SameSeats t.spoken_at b).same_next
        ∙ next-reap t.swept_at a
        ∙ (report_connections-SameSeats e).same_next in
      let g = read_once v t.read_at t.got f in
      elim (Bool-cases t.timeout_set) [
        | inl taken ↦ rw taken (
            (tell_time-SameSeats v t.told_at g).same_next
            ∙ (read_once-SameSeats v t.read_at t.got f).same_next
            ∙ to_f)
        | inr refused ↦ rw refused to_f
      ]

  pub next-turn :
      (fuel : ℕ) (t : Inputs d) (e : Engine d) (x : Turned d)
      → e.next_peer + length t.commands < u64_mod
      → turn v fuel t e ≡ some x
      → x.engine.next_peer ≤ e.next_peer + length t.commands
  unfolding turn
  next-turn fuel t e x left done =
      let l = next-drain_commands t.drained_at t.commands t.queue_end e left in
      omega (arith, l, after (drain_commands t.drained_at t.commands t.queue_end e) done)
    where
      after :
          (drained : ControlFlow × Engine d)
          → after_commands v fuel t drained ≡ some x
          → x.engine.next_peer ≡ drained.1.next_peer
      after (stop, f) h = ground (arith, h)
      after (continue, f) h = elim (Option-cases (poll_rooms v fuel t.polled_at f)) [
        | inl stuck ↦ absurd (ground (arith, h, stuck))
        | inr ((g, wake), got) ↦
            let same : rest_of_turn v t wake g ≡ x = ground (arith, h, got) in
            subst (λ y. y.engine.next_peer ≡ f.next_peer) same
              (next-rest_of_turn t wake g
                ∙ (poll_rooms-SameSeats v fuel t.polled_at f g wake got).same_next)
      ]
