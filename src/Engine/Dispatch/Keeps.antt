-- ===== src/Engine/Dispatch/Keeps.antt =====
-- src/sfu/dispatch.rs: every command keeps the invariant of the media loop.
use ababilx_chat_sfu.Shared.{
  ℕ, ◌+◌, ◌<◌, ◌≡◌, refl, ap, String, Bool, Option, none, some, xor, arith, ◌==◌, nat_Eq, string_Eq,
  Bool-cases, Option-cases, Result-cases, inl, inr, lookup, lookup-insert,
}
use ababilx_chat_sfu.Media.{Deps}
use ababilx_chat_sfu.Peer.{Peer}
use ababilx_chat_sfu.Peer.Negotiate.{accept_answer}
use ababilx_chat_sfu.Room.{Room, has_id, peer_of}
use ababilx_chat_sfu.Engine.{Engine, Command, join, answer, mute, screen, leave, shutdown, room_of}
use ababilx_chat_sfu.Engine.Seats.{seat_of, IsValid, SameSeats, SameSeats-IsValid}
use ababilx_chat_sfu.Engine.Cards.{
  Card, card_of, SameCards, SameCards-refl, SameCards-trans, SameCards-SameSeats,
  cards-update_first, emit-SameCards, report_event-SameCards,
}
use ababilx_chat_sfu.Engine.Join.{u64_mod}
use ababilx_chat_sfu.Engine.Join.Leave.{drop_peer-IsValid}
use ababilx_chat_sfu.Engine.Join.Enter.{handle_join-IsValid}
use ababilx_chat_sfu.Engine.Dispatch.{
  with_peer, handle_answer, set_flags, report_screen, set_state_of, set_state, apply,
}

module _ {d : Deps} where
  pub room_of-lookup :
      (id : ℕ) (e : Engine d) (name : String) (r : Room d)
      → room_of id e ≡ some (name, r)
      → (lookup name e.rooms ≡ some r) × (lookup id e.peer_rooms ≡ some name)
  unfolding room_of
  room_of-lookup id e name r h = ground arith

  pub with_peer-SameCards :
      (id : ℕ) (name : String) (r : Room d) (f : Peer d → Peer d) (e : Engine d)
      → lookup name e.rooms ≡ some r
      → ((p : Peer d) → card_of (f p) ≡ card_of p)
      → SameCards e (with_peer id name r f e)
  unfolding with_peer
  with_peer-SameCards id name r f e there same = record {
    same_rooms = λ m. rw lookup-insert (elim (Bool-cases (name == m)) [
      | inl here ↦
          rw (here, ← (string_Eq.matches_iff name m).0 here, there)
            (ap some (cards-update_first (has_id id) f r.peers same))
      | inr other ↦ rw other refl
    ]);
    same_index = refl;
    same_config = refl;
    same_next = refl;
  }

  accept_answer-card : (a : d.SdpAnswer) (p : Peer d) → card_of (accept_answer p a).0 ≡ card_of p
  unfolding accept_answer
  accept_answer-card a p = ground arith

  pub set_flags-card :
      (muted active : Option Bool) (p : Peer d) → card_of (set_flags muted active p) ≡ card_of p
  unfolding set_flags
  set_flags-card muted active p = refl

  pub handle_answer-SameCards :
      (id : ℕ) (sdp : String) (e : Engine d) → SameCards e (handle_answer id sdp e)
  unfolding handle_answer
  handle_answer-SameCards id sdp e = elim (Option-cases (room_of id e)) [
    | inl no_room ↦ rw (no_room, handle_answer) (SameCards-refl e)
    | inr ((name, r), there) ↦ elim (Option-cases (peer_of id r)) [
      | inl no_peer ↦ rw (there, no_peer, handle_answer) (SameCards-refl e)
      | inr (p, found) ↦ elim (Result-cases (d.answer_from_sdp sdp)) [
        | inr (x, bad) ↦ rw (there, found, bad, handle_answer) (SameCards-refl e)
        | inl (a, good) ↦
            rw (there, found, good, handle_answer)
              (with_peer-SameCards id name r (λ p. (accept_answer p a).0) e
                (room_of-lookup id e name r there).0 (accept_answer-card a))
      ]
    ]
  ]

  pub report_screen-SameCards :
      (name : String) (p : Peer d) (active : Option Bool) (e : Engine d)
      → SameCards e (report_screen name p active e)
  unfolding report_screen
  report_screen-SameCards name p none e = SameCards-refl e
  report_screen-SameCards name p (some active) e = elim (Bool-cases (xor p.screen active)) [
    | inl changed ↦ rw (changed, report_screen) (report_event-SameCards _ _ name e)
    | inr same ↦ rw (same, report_screen) (SameCards-refl e)
  ]

  set_state_of-SameCards :
      (name : String) (r : Room d) (p : Peer d) (muted active : Option Bool) (e : Engine d)
      → lookup name e.rooms ≡ some r
      → SameCards e (set_state_of name r p muted active e)
  unfolding set_state_of
  set_state_of-SameCards name r p muted active e there =
      SameCards-trans
        (with_peer-SameCards p.id name r (set_flags muted active) e there
          (set_flags-card muted active))
        (SameCards-trans (emit-SameCards _ _) (report_screen-SameCards name p active _))

  pub set_state-SameCards :
      (id : ℕ) (muted active : Option Bool) (e : Engine d)
      → SameCards e (set_state id muted active e)
  unfolding set_state
  set_state-SameCards id muted active e = elim (Option-cases (room_of id e)) [
    | inl no_room ↦ rw (no_room, set_state) (SameCards-refl e)
    | inr ((name, r), there) ↦ elim (Option-cases (peer_of id r)) [
      | inl no_peer ↦ rw (there, no_peer, set_state) (SameCards-refl e)
      | inr (p, found) ↦
          rw (there, found, set_state)
            (set_state_of-SameCards name r p muted active e (room_of-lookup id e name r there).0)
    ]
  ]

  pub accept_answer-same :
      (a : d.SdpAnswer) (p : Peer d) → seat_of (accept_answer p a).0 ≡ seat_of p
  accept_answer-same a p = ap (λ (c : Card). (c.0, c.1)) (accept_answer-card a p)

  pub set_flags-same :
      (muted active : Option Bool) (p : Peer d) → seat_of (set_flags muted active p) ≡ seat_of p
  set_flags-same muted active p = ap (λ (c : Card). (c.0, c.1)) (set_flags-card muted active p)

  pub handle_answer-SameSeats :
      (id : ℕ) (sdp : String) (e : Engine d) → SameSeats e (handle_answer id sdp e)
  handle_answer-SameSeats id sdp e = SameCards-SameSeats (handle_answer-SameCards id sdp e)

  pub set_state-SameSeats :
      (id : ℕ) (muted active : Option Bool) (e : Engine d)
      → SameSeats e (set_state id muted active e)
  set_state-SameSeats id muted active e =
      SameCards-SameSeats (set_state-SameCards id muted active e)

  pub apply-IsValid :
      (now : ℕ) (c : Command) (e : Engine d)
      → IsValid e
      → e.next_peer + 1 < u64_mod
      → IsValid (apply now c e)
  unfolding apply
  apply-IsValid now (join q) e v left = handle_join-IsValid now q e v left
  apply-IsValid now (answer peer sdp) e v left =
      SameSeats-IsValid (handle_answer-SameSeats peer sdp e) v
  apply-IsValid now (mute peer muted) e v left =
      SameSeats-IsValid (set_state-SameSeats peer (some muted) none e) v
  apply-IsValid now (screen peer active) e v left =
      SameSeats-IsValid (set_state-SameSeats peer none (some active) e) v
  apply-IsValid now (leave peer) e v left = drop_peer-IsValid peer e v
  apply-IsValid now shutdown e v left = v
