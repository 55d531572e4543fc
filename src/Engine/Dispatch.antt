-- ===== src/Engine/Dispatch.antt =====
-- src/sfu/dispatch.rs: the commands of the signaling tasks.
pub mod Keeps
pub mod Screens
pub mod Wires
use ababilx_chat_sfu.Shared.{
  ℕ, String, Bool, true, false, Option, none, some, List, [], ◌∷◌, Result, ok, err, xor,
  if◌then◌else◌, nat_Eq, string_Eq, update_first, lookup, insert,
}
use ababilx_chat_sfu.Media.{Deps}
use ababilx_chat_sfu.Proto.{ServerMsg}
use ababilx_chat_sfu.Report
use ababilx_chat_sfu.Tracks.{as_string}
use ababilx_chat_sfu.Peer.{Peer}
use ababilx_chat_sfu.Peer.Negotiate.{accept_answer}
use ababilx_chat_sfu.Room.{Room, has_id, peer_of, broadcast}
use ababilx_chat_sfu.Engine.{
  Engine, Command, join, answer, mute, screen, leave, shutdown, emit, report_event, room_of,
}
use ababilx_chat_sfu.Engine.Join.{handle_join, drop_peer}

pub data ControlFlow : Type 0 where
  continue stop : ControlFlow

-- How the queue of commands ends: no more for now, or its senders are gone.
pub data QueueEnd : Type 0 where
  empty disconnected : QueueEnd

unfoldable pub at_end : QueueEnd → ControlFlow
at_end empty = continue
at_end disconnected = stop

module _ {d : Deps} where
  -- A write through `peer_mut(id)` of the room called `name`.
  unfoldable pub with_peer : ℕ → String → Room d → (Peer d → Peer d) → Engine d → Engine d
  with_peer id name r f e = record e {
    rooms = insert name (record r { peers = update_first (has_id id) f r.peers }) e.rooms;
  }

  unfoldable pub handle_answer : ℕ → String → Engine d → Engine d
  handle_answer id sdp e = elim (room_of id e) [
    | none ↦ e
    | some (name, r) ↦ elim (peer_of id r) [
      | none ↦ e
      | some _ ↦ elim (d.answer_from_sdp sdp) [
        | err _ ↦ e
        | ok a ↦ with_peer id name r (λ p. (accept_answer p a).0) e
      ]
    ]
  ]

  -- The peer with its new flags.
  unfoldable pub set_flags : Option Bool → Option Bool → Peer d → Peer d
  set_flags muted active p = record p {
    muted = elim muted [ none ↦ p.muted | some b ↦ b ];
    screen = elim active [ none ↦ p.screen | some b ↦ b ];
  }

  -- The report of a screen share that starts or stops.
  unfoldable pub report_screen : String → Peer d → Option Bool → Engine d → Engine d
  report_screen name p none e = e
  report_screen name p (some active) e =
      if xor p.screen active
      then report_event (λ r. Report.screen_share (Report.identity r p.user_id))
          (if active then "track_published" else "track_unpublished") name e
      else e

  -- The body of `set_state` for the peer `p` of the room `r`.
  unfoldable pub set_state_of :
      String → Room d → Peer d → Option Bool → Option Bool → Engine d → Engine d
  unfolding report_screen
  set_state_of name r p muted active e =
      let q = set_flags muted active p in
      report_screen name p active (
        emit (broadcast r (ServerMsg.peer_state (as_string p.id) q.muted q.screen))
          (with_peer p.id name r (set_flags muted active) e))

  unfoldable pub set_state : ℕ → Option Bool → Option Bool → Engine d → Engine d
  set_state id muted active e = elim (room_of id e) [
    | none ↦ e
    | some (name, r) ↦ elim (peer_of id r) [
      | none ↦ e
      | some p ↦ set_state_of name r p muted active e
    ]
  ]

  unfoldable pub apply : ℕ → Command → Engine d → Engine d
  apply now (join q) e = handle_join now q e
  apply now (answer peer sdp) e = handle_answer peer sdp e
  apply now (mute peer muted) e = set_state peer (some muted) none e
  apply now (screen peer active) e = set_state peer none (some active) e
  apply now (leave peer) e = drop_peer peer e
  apply now shutdown e = e

  -- The commands that are waiting, oldest first, and how the queue ends.
  unfoldable pub drain_commands : ℕ → List Command → QueueEnd → Engine d → ControlFlow × Engine d
  unfolding apply at_end
  drain_commands now [] end e = (at_end end, e)
  drain_commands now (shutdown ∷ rest) end e = (stop, e)
  drain_commands now (c ∷ rest) end e = drain_commands now rest end (apply now c e)
