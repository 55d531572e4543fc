-- ===== src/Engine/Accounts/Commands.antt =====
-- src/sfu/dispatch.rs and the ticks: answers, flags and speakers leave the accounts balanced.
use ababilx_chat_sfu.Shared.{
  ℕ, ◌-◌, ◌≡◌, refl, ap, ◌∙◌, String, Bool, true, false, xor, Option, none, some, List, [], ◌∷◌,
  arith, Option-cases, Bool-cases, inl, inr, ltb, if◌then◌else◌, string_Eq, lookup,
}
use ababilx_chat_sfu.Media.{Deps}
use ababilx_chat_sfu.Proto.{ServerMsg}
use ababilx_chat_sfu.Tracks.{as_string}
use ababilx_chat_sfu.Peer.{Peer}
use ababilx_chat_sfu.Room.{Room, peer_of, broadcast, speakers, sync_speaking}
use ababilx_chat_sfu.Engine.{Engine, room_of, emit}
use ababilx_chat_sfu.Engine.Told.{told, told-append, told-emit, told-broadcast}
use ababilx_chat_sfu.Engine.Cards.{emit-SameCards}
use ababilx_chat_sfu.Engine.Dispatch.{
  with_peer, handle_answer, set_flags, report_screen, set_state_of, set_state,
}
use ababilx_chat_sfu.Engine.Dispatch.Keeps.{
  room_of-lookup, with_peer-SameCards, report_screen-SameCards, set_flags-card,
  handle_answer-SameCards,
}
use ababilx_chat_sfu.Engine.Dispatch.Screens.{shared_screen, told-report_screen}
use ababilx_chat_sfu.Engine.Ticks.{sync_rooms, tick_speaking, speaking_tick}
use ababilx_chat_sfu.Engine.Ticks.Keeps.{tick_speaking-SameCards}
use ababilx_chat_sfu.Engine.Accounts.{
  tally, Balances, Balances-refl, Balances-trans, Balances-same, Balances-other,
}

screens_only :
    (name who room user : String) (active turns : Bool)
    → tally "participant_left" room user (if turns then shared_screen name who active ∷ [] else [])
      ≡ 0
screens_only name who room user true true = refl
screens_only name who room user false true = refl
screens_only name who room user active false = refl

module _ {d : Deps} where
  log-handle_answer : (id : ℕ) (sdp : String) (e : Engine d) → (handle_answer id sdp e).log ≡ e.log
  unfolding handle_answer with_peer
  log-handle_answer id sdp e = ground arith

  pub Balances-handle_answer :
      (id : ℕ) (sdp : String) (e : Engine d) → Balances e (handle_answer id sdp e)
  Balances-handle_answer id sdp e =
      Balances-same (ap told (log-handle_answer id sdp e))
        (handle_answer-SameCards id sdp e).same_rooms

  Balances-report_screen :
      (name : String) (p : Peer d) (active : Option Bool) (e : Engine d)
      → Balances e (report_screen name p active e)
  unfolding report_screen
  Balances-report_screen name p none e = Balances-refl e
  Balances-report_screen name p (some active) e =
      Balances-other _ (told-report_screen name p active e)
        (λ room user. screens_only name p.user_id room user active (xor p.screen active))
        (report_screen-SameCards name p (some active) e).same_rooms

  Balances-set_state_of :
      (name : String) (r : Room d) (p : Peer d) (muted active : Option Bool) (e : Engine d)
      → lookup name e.rooms ≡ some r
      → Balances e (set_state_of name r p muted active e)
  unfolding set_state_of with_peer
  Balances-set_state_of name r p muted active e there =
      let q = set_flags muted active p in
      let changed = with_peer p.id name r (set_flags muted active) e in
      let news = broadcast r (ServerMsg.peer_state (as_string p.id) q.muted q.screen) in
      let first : Balances e changed =
        Balances-same refl
          (with_peer-SameCards p.id name r (set_flags muted active) e there
            (set_flags-card muted active)).same_rooms in
      let second : Balances changed (emit news changed) =
        Balances-same (told-emit news changed (told-broadcast r _))
          (emit-SameCards news changed).same_rooms in
      Balances-trans first
        (Balances-trans second (Balances-report_screen name p active (emit news changed)))

  pub Balances-set_state :
      (id : ℕ) (muted active : Option Bool) (e : Engine d)
      → Balances e (set_state id muted active e)
  unfolding set_state
  Balances-set_state id muted active e = elim (Option-cases (room_of id e)) [
    | inl no_room ↦ rw (no_room, set_state) (Balances-refl e)
    | inr ((name, r), there) ↦ elim (Option-cases (peer_of id r)) [
      | inl no_peer ↦ rw (there, no_peer, set_state) (Balances-refl e)
      | inr (p, found) ↦
          rw (there, found, set_state)
            (Balances-set_state_of name r p muted active e (room_of-lookup id e name r there).0)
    ]
  ]

  told-sync_speaking : (now : ℕ) (r : Room d) → told (sync_speaking now r).1 ≡ []
  unfolding sync_speaking
  told-sync_speaking now r = ground (arith, told-broadcast r (ServerMsg.speaking (speakers now r)))

  told-sync_rooms : (now : ℕ) (rooms : List (String × Room d)) → told (sync_rooms now rooms).1 ≡ []
  unfolding sync_rooms
  told-sync_rooms now [] = refl
  told-sync_rooms now ((name, r) ∷ rest) =
      told-append (sync_speaking now r).1 (sync_rooms now rest).1
      ∙ rw (told-sync_speaking now r) (told-sync_rooms now rest)

  told-tick_speaking : (now : ℕ) (e : Engine d) → told (tick_speaking now e).log ≡ told e.log
  unfolding tick_speaking
  told-tick_speaking now e = elim (Bool-cases (ltb (now - e.last_speaking) speaking_tick)) [
    | inl early ↦ rw (early, tick_speaking) refl
    | inr due ↦ rw (due, tick_speaking) (told-emit _ _ (told-sync_rooms now e.rooms))
  ]

  pub Balances-tick_speaking : (now : ℕ) (e : Engine d) → Balances e (tick_speaking now e)
  Balances-tick_speaking now e =
      Balances-same (told-tick_speaking now e) (tick_speaking-SameCards now e).same_rooms
