-- ===== src/Engine/Io/Wakes.antt =====
-- src/sfu/engine_io.rs, `poll_rooms`: when the loop is to be woken.
use ababilx_chat_sfu.Shared.{
  ℕ, zero, suc, ◌+◌, ◌≤◌, ◌≡◌, String, some, List, [], ◌∷◌, arith, Option-cases, Bool-cases, inl,
  inr,
}
use ababilx_chat_sfu.Media.{Deps, Driver}
use ababilx_chat_sfu.Tracks.{Arcs}
use ababilx_chat_sfu.Peer.{Peer}
use ababilx_chat_sfu.Peer.Poll.{poll_output}
use ababilx_chat_sfu.Room.{Room}
use ababilx_chat_sfu.Engine.{Engine}
use ababilx_chat_sfu.Engine.Io.{
  max_idle, Drained, wake_of, after_round, last_round, poll_peer, after_peer, poll_peers, settled,
  poll_room, after_room, poll_entries, poll_rooms,
}

module _ {d : Deps} (v : Driver d) where
  wake-poll_peer :
      (fuel now wake : ℕ) (h : Arcs d) (p : Peer d) (x : Drained d (Peer d))
      → poll_peer v fuel now wake h p ≡ some x
      → x.wake ≤ wake
  unfolding poll_peer after_round last_round
  wake-poll_peer zero now wake h p x done = absurd (ground (arith, done))
  wake-poll_peer (suc fuel) now wake h p x done =
      let out = poll_output v now h p in
      elim (Bool-cases (d.is_alive p.rtc)) [
        | inr dead ↦ ground (arith, done, dead)
        | inl alive ↦ elim (Option-cases (wake_of out.propagated)) [
          | inr (at, asked) ↦ ground (arith, done, alive, asked)
          | inl quiet ↦ elim (Option-cases (poll_peer v fuel now wake out.arcs out.peer)) [
            | inl stuck ↦ absurd (ground (arith, done, alive, quiet, stuck))
            | inr (y, rest) ↦ ground (
              arith,
              done,
              alive,
              quiet,
              rest,
              wake-poll_peer fuel now wake out.arcs out.peer y rest,
            )
          ]
        ]
      ]

  wake-poll_peers :
      (fuel now wake : ℕ) (h : Arcs d) (ps : List (Peer d)) (x : Drained d (List (Peer d)))
      → poll_peers v fuel now wake h ps ≡ some x
      → x.wake ≤ wake
  unfolding poll_peers after_peer
  wake-poll_peers fuel now wake h [] x done = ground (arith, done)
  wake-poll_peers fuel now wake h (p ∷ ps) x done =
      elim (Option-cases (poll_peer v fuel now wake h p)) [
        | inl stuck ↦ absurd (ground (arith, done, stuck))
        | inr (y, first) ↦ elim (Option-cases (poll_peers v fuel now y.wake y.arcs ps)) [
          | inl stuck ↦ absurd (ground (arith, done, first, stuck))
          | inr (z, rest) ↦ ground (
            arith,
            done,
            first,
            rest,
            wake-poll_peer fuel now wake h p y first,
            wake-poll_peers fuel now y.wake y.arcs ps z rest,
          )
        ]
      ]

  wake-poll_room :
      (fuel now wake : ℕ) (h : Arcs d) (r : Room d) (x : Drained d (Room d))
      → poll_room v fuel now wake h r ≡ some x
      → x.wake ≤ wake
  unfolding poll_room settled
  wake-poll_room fuel now wake h r x done =
      elim (Option-cases (poll_peers v fuel now wake h r.peers)) [
        | inl stuck ↦ absurd (ground (arith, done, stuck))
        | inr (y, drained) ↦
            ground (arith, done, drained, wake-poll_peers fuel now wake h r.peers y drained)
      ]

  wake-poll_entries :
      (fuel now wake : ℕ) (h : Arcs d) (rooms : List (String × Room d))
      (x : Drained d (List (String × Room d)))
      → poll_entries v fuel now wake h rooms ≡ some x
      → x.wake ≤ wake
  unfolding poll_entries after_room
  wake-poll_entries fuel now wake h [] x done = ground (arith, done)
  wake-poll_entries fuel now wake h ((name, r) ∷ rooms) x done =
      elim (Option-cases (poll_room v fuel now wake h r)) [
        | inl stuck ↦ absurd (ground (arith, done, stuck))
        | inr (y, first) ↦ elim (Option-cases (poll_entries v fuel now y.wake y.arcs rooms)) [
          | inl stuck ↦ absurd (ground (arith, done, first, stuck))
          | inr (z, rest) ↦ ground (
            arith,
            done,
            first,
            rest,
            wake-poll_room fuel now wake h r y first,
            wake-poll_entries fuel now y.wake y.arcs rooms z rest,
          )
        ]
      ]

  -- No later than the ceiling on an idle wait.
  pub wake-poll_rooms :
      (fuel now : ℕ) (e f : Engine d) (wake : ℕ)
      → poll_rooms v fuel now e ≡ some (f, wake)
      → wake ≤ now + max_idle
  unfolding poll_rooms
  wake-poll_rooms fuel now e f wake done =
      elim (Option-cases (poll_entries v fuel now (now + max_idle) e.arcs e.rooms)) [
        | inl stuck ↦ absurd (ground (arith, done, stuck))
        | inr (x, found) ↦
            ground (
              arith,
              done,
              found,
              wake-poll_entries fuel now (now + max_idle) e.arcs e.rooms x found,
            )
      ]
