-- ===== src/Engine/Dispatch/Wires.antt =====
-- src/sfu/dispatch.rs: answers and flags leave every room wired.
use ababilx_chat_sfu.Shared.{
  ℕ, ◌≡◌, refl, String, Bool, xor, Option, none, some, [], Option-cases, Bool-cases, Result-cases,
  inl, inr, lookup, string_Eq,
}
use ababilx_chat_sfu.Media.{Deps}
use ababilx_chat_sfu.Tracks.{Arcs}
use ababilx_chat_sfu.Peer.{Peer}
use ababilx_chat_sfu.Peer.Negotiate.{accept_answer}
use ababilx_chat_sfu.Peer.Negotiate.Wires.{IsTuned-accept_answer}
use ababilx_chat_sfu.Room.{Room, peer_of, has_id, published}
use ababilx_chat_sfu.Engine.{Engine, room_of}
use ababilx_chat_sfu.Engine.Seats.{seat_of}
use ababilx_chat_sfu.Engine.Dispatch.{
  with_peer, handle_answer, set_flags, report_screen, set_state_of, set_state,
}
use ababilx_chat_sfu.Engine.Dispatch.Keeps.{room_of-lookup, accept_answer-same, set_flags-same}
use ababilx_chat_sfu.Engine.Wired.{
  Rewires, Rewires-refl, Rewires-trans, Rewires-emit, Rewires-report_event, Rewires-insert,
  IsWired-update_first,
}
use ababilx_chat_sfu.Wiring.{IsTuned}
use ababilx_chat_sfu.Wiring.Same.{same_tracks, IsTuned-SameWires}

module _ {d : Deps} where
  IsTuned-set_flags :
      (muted active : Option Bool) (h : Arcs d) (present : ℕ → Bool) (p : Peer d)
      → IsTuned h present [] p
      → IsTuned h present [] (set_flags muted active p)
  unfolding set_flags published
  IsTuned-set_flags muted active h present p = IsTuned-SameWires (same_tracks h p _ refl refl refl)

  Rewires-with_peer :
      (id : ℕ) (name : String) (r : Room d) (f : Peer d → Peer d) (e : Engine d)
      → lookup name e.rooms ≡ some r
      → ((p : Peer d) → seat_of (f p) ≡ seat_of p)
      → ((present : ℕ → Bool) (p : Peer d)
          → IsTuned e.arcs present [] p
          → IsTuned e.arcs present [] (f p))
      → Rewires e (with_peer id name r f e)
  unfolding with_peer
  Rewires-with_peer id name r f e there same keeps =
      Rewires-insert name r _ e there (IsWired-update_first e.arcs f same keeps (has_id id) r)

  pub Rewires-handle_answer :
      (id : ℕ) (sdp : String) (e : Engine d) → Rewires e (handle_answer id sdp e)
  unfolding handle_answer
  Rewires-handle_answer id sdp e = elim (Option-cases (room_of id e)) [
    | inl no_room ↦ rw (no_room, handle_answer) (Rewires-refl e)
    | inr ((name, r), there) ↦ elim (Option-cases (peer_of id r)) [
      | inl no_peer ↦ rw (there, no_peer, handle_answer) (Rewires-refl e)
      | inr (p, found) ↦ elim (Result-cases (d.answer_from_sdp sdp)) [
        | inr (x, bad) ↦ rw (there, found, bad, handle_answer) (Rewires-refl e)
        | inl (a, good) ↦
            rw (there, found, good, handle_answer)
              (Rewires-with_peer id name r (λ p. (accept_answer p a).0) e
                (room_of-lookup id e name r there).0 (accept_answer-same a)
                (IsTuned-accept_answer e.arcs a))
      ]
    ]
  ]

  Rewires-report_screen :
      (name : String) (p : Peer d) (active : Option Bool) (e : Engine d)
      → Rewires e (report_screen name p active e)
  unfolding report_screen
  Rewires-report_screen name p none e = Rewires-refl e
  Rewires-report_screen name p (some active) e = elim (Bool-cases (xor p.screen active)) [
    | inl changed ↦ rw (changed, report_screen) (Rewires-report_event _ _ name e)
    | inr same ↦ rw (same, report_screen) (Rewires-refl e)
  ]

  pub Rewires-set_state :
      (id : ℕ) (muted active : Option Bool) (e : Engine d) → Rewires e (set_state id muted active e)
  unfolding set_state set_state_of
  Rewires-set_state id muted active e = elim (Option-cases (room_of id e)) [
    | inl no_room ↦ rw (no_room, set_state) (Rewires-refl e)
    | inr ((name, r), there) ↦ elim (Option-cases (peer_of id r)) [
      | inl no_peer ↦ rw (there, no_peer, set_state) (Rewires-refl e)
      | inr (p, found) ↦
          rw (there, found, set_state)
            (Rewires-trans
              (Rewires-with_peer p.id name r (set_flags muted active) e
                (room_of-lookup id e name r there).0 (set_flags-same muted active)
                (IsTuned-set_flags muted active e.arcs))
              (Rewires-trans (Rewires-emit _ _) (Rewires-report_screen name p active _)))
    ]
  ]
