-- ===== src/Engine/Run/Paces.antt =====
-- src/sfu/engine_io.rs, `tick_speaking`, in the media loop: how often the lists of speakers are made.
use ababilx_chat_sfu.Shared.{
  ℕ, ◌+◌, ◌-◌, ◌*◌, ◌≤◌, ◌≡◌, refl, ◌∙◌, String, Bool, true, false, Option, none, some, List, [],
  ◌∷◌, arith, ltb, if◌then◌else◌, Option-cases, Bool-cases, inl, inr, lookup, string_Eq, nat_Eq,
}
use ababilx_chat_sfu.Media.{Deps, Driver}
use ababilx_chat_sfu.Peer.{Peer}
use mathlib.Core.Option
use ababilx_chat_sfu.Engine.Voices.Moves.{lookup-sync_rooms}
use ababilx_chat_sfu.Shared.{leb, gather, ap, ◌++◌}
use ababilx_chat_sfu.Room.{Room, peer_of, is_empty, sync_speaking}
use ababilx_chat_sfu.Room
use ababilx_chat_sfu.Report
use ababilx_chat_sfu.Engine.{
  Engine, Command, join, answer, mute, screen, leave, shutdown, emit, report_event, room_of,
  JoinRequest, Effect,
}
use ababilx_chat_sfu.Engine.Join.{
  seat, handle_join, drop_from, drop_peer, drop_all, dead_peers, reap, report_left, close_if_empty,
}
use ababilx_chat_sfu.Engine.Join.Enter.{join_cases}
use ababilx_chat_sfu.Engine.Dispatch.{
  apply, handle_answer, set_state, set_state_of, report_screen, with_peer,
}
use ababilx_chat_sfu.Engine.Io.{poll_rooms, poll_entries, read_once, tell_time, max_idle}
use ababilx_chat_sfu.Engine.Ticks.{
  arrivals, report_joined, report_connections, speaking_tick, tick_speaking, sync_rooms,
}
use ababilx_chat_sfu.Engine.Turn.{
  Step, command, poll, arrive, sweep, speak, read, tell, Reach, here, next,
}

module _ {d : Deps} where
  -- The lists of speakers were last made at the same time.
  abbrev SamePace : Engine d → Engine d → Type 0
  SamePace e f = f.last_speaking ≡ e.last_speaking

  SamePace-handle_join :
      (now : ℕ) (q : JoinRequest) (e : Engine d) → SamePace e (handle_join now q e)
  unfolding emit seat
  SamePace-handle_join now q e =
      join_cases (SamePace e) now q e (λ fx no. refl) (λ fx no. refl) (λ p sdp granted x. refl)

  SamePace-handle_answer :
      (id : ℕ) (sdp : String) (e : Engine d) → SamePace e (handle_answer id sdp e)
  unfolding handle_answer with_peer
  SamePace-handle_answer id sdp e = ground arith

  SamePace-report_screen :
      (name : String) (p : Peer d) (active : Option Bool) (e : Engine d)
      → SamePace e (report_screen name p active e)
  unfolding report_screen report_event
  SamePace-report_screen name p none e = refl
  SamePace-report_screen name p (some active) e = ground arith

  SamePace-set_state :
      (id : ℕ) (muted active : Option Bool) (e : Engine d)
      → SamePace e (set_state id muted active e)
  unfolding set_state set_state_of emit with_peer
  SamePace-set_state id muted active e = elim (Option-cases (room_of id e)) [
    | inl no_room ↦ rw (no_room, set_state) refl
    | inr ((name, r), there) ↦ elim (Option-cases (peer_of id r)) [
      | inl no_peer ↦ rw (there, no_peer, set_state) refl
      | inr (p, found) ↦ rw (there, found, set_state) (SamePace-report_screen name p active _)
    ]
  ]

  SamePace-drop_from :
      (id : ℕ) (name : String) (r : Room d) (e : Engine d) → SamePace e (drop_from id name r e)
  unfolding drop_from Room.remove report_left close_if_empty emit report_event
  SamePace-drop_from id name r e = ground arith

  SamePace-drop_peer : (id : ℕ) (e : Engine d) → SamePace e (drop_peer id e)
  unfolding drop_peer
  SamePace-drop_peer id e = elim (Option-cases (lookup id e.peer_rooms)) [
    | inl homeless ↦ rw (homeless, drop_peer) refl
    | inr (name, home) ↦ elim (Option-cases (lookup name e.rooms)) [
      | inl gone ↦ rw (home, gone, drop_peer) refl
      | inr (r, there) ↦ rw (home, there, drop_peer) (SamePace-drop_from id name r _)
    ]
  ]

  SamePace-drop_all : (ids : List ℕ) (e : Engine d) → SamePace e (drop_all ids e)
  unfolding drop_all
  SamePace-drop_all [] e = refl
  SamePace-drop_all (id ∷ ids) e = SamePace-drop_all ids (drop_peer id e) ∙ SamePace-drop_peer id e

  SamePace-report_joined :
      (who : List (String × String)) (e : Engine d) → SamePace e (report_joined who e)
  unfolding report_joined report_event
  SamePace-report_joined [] e = refl
  SamePace-report_joined ((name, user) ∷ rest) e =
      SamePace-report_joined rest
        (report_event (λ r. Report.identity r user) "participant_joined" name e)

  SamePace-apply : (now : ℕ) (c : Command) (e : Engine d) → SamePace e (apply now c e)
  unfolding apply
  SamePace-apply now (join q) e = SamePace-handle_join now q e
  SamePace-apply now (answer peer sdp) e = SamePace-handle_answer peer sdp e
  SamePace-apply now (mute peer muted) e = SamePace-set_state peer (some muted) none e
  SamePace-apply now (screen peer active) e = SamePace-set_state peer none (some active) e
  SamePace-apply now (leave peer) e = SamePace-drop_peer peer e
  SamePace-apply now shutdown e = refl

  -- 200 ms have passed since the lists were last made.
  abbrev pub is_due : ℕ → Engine d → Bool
  is_due now e = leb 200_000_000 (now - e.last_speaking)

  pace-tick_speaking :
      (now : ℕ) (e : Engine d)
      → (if is_due now e then 200_000_000 else 0) + e.last_speaking
        ≤ (tick_speaking now e).last_speaking
  unfolding tick_speaking emit
  pace-tick_speaking now e = ground arith

  -- What the rooms send, room by room, where each makes its list anew.
  abbrev pub news : ℕ → Engine d → List (Effect d)
  news now e = gather (λ (entry : String × Room d). (sync_speaking now entry.1).1) e.rooms

  effects-sync_rooms :
      (now : ℕ) (rooms : List (String × Room d))
      → (sync_rooms now rooms).1
        ≡ gather (λ (entry : String × Room d). (sync_speaking now entry.1).1) rooms
  unfolding sync_rooms
  effects-sync_rooms now [] = refl
  effects-sync_rooms now ((name, r) ∷ rest) =
      ap (λ fx. (sync_speaking now r).1 ++ fx) (effects-sync_rooms now rest)

  -- A tick that is due makes the list of every room anew, and notes its time; any other does nothing.
  ticked :
      (now : ℕ) (e : Engine d) (m : String)
      → let f = tick_speaking now e in
        if is_due now e
        then (f.last_speaking ≡ now)
          × (lookup m f.rooms ≡ Option.map (λ r. (sync_speaking now r).0) (lookup m e.rooms))
          × (f.log ≡ e.log ++ news now e)
        else f ≡ e
  unfolding tick_speaking emit
  ticked now e m = elim (Bool-cases (ltb (now - e.last_speaking) speaking_tick)) [
    | inl early ↦
        let not_due : is_due now e ≡ false = ground (arith, early) in
        rw (not_due, early, tick_speaking) refl
    | inr due ↦
        let is_time : is_due now e ≡ true = ground (arith, due) in
        rw (is_time, due, tick_speaking)
          (
            refl,
            lookup-sync_rooms now e.rooms m,
            ap (λ fx. e.log ++ fx) (effects-sync_rooms now e.rooms),
          )
  ]

module _ {d : Deps} (v : Driver d) where
  -- How many ticks made the lists of speakers anew, in a step and on a way.
  abbrev pub beat : {e f : Engine d} → Step v e f → ℕ
  beat (command now c left) = 0
  beat (poll fuel now wake done) = 0
  beat arrive = 0
  beat (sweep now) = 0
  beat {e} (speak now) = if is_due now e then 1 else 0
  beat (read now got) = 0
  beat (tell now) = 0

  abbrev pub beats : {e f : Engine d} → Reach v e f → ℕ
  beats here = 0
  beats (next r s) = beats r + beat s

  SamePace-poll_rooms :
      (fuel now : ℕ) (e f : Engine d) (wake : ℕ)
      → poll_rooms v fuel now e ≡ some (f, wake)
      → SamePace e f
  unfolding poll_rooms emit
  SamePace-poll_rooms fuel now e f wake h =
      elim (Option-cases (poll_entries v fuel now (now + max_idle) e.arcs e.rooms)) [
        | inl stuck ↦ ground (arith, stuck)
        | inr (x, found) ↦ ground (arith, found)
      ]

  SamePace-read_once :
      (now : ℕ) (got : Option (d.Address × d.Contents)) (e : Engine d)
      → SamePace e (read_once v now got e)
  unfolding read_once
  SamePace-read_once now none e = refl
  SamePace-read_once now (some (source, contents)) e = refl

  pace-Step :
      {e f : Engine d} (s : Step v e f) → beat s * 200_000_000 + e.last_speaking ≤ f.last_speaking
  unfolding report_connections reap tell_time
  pace-Step {e} (command now c left) = omega (arith, SamePace-apply now c e)
  pace-Step {e} (poll fuel now wake {f} done) =
      omega (arith, SamePace-poll_rooms fuel now e f wake done)
  pace-Step {e} arrive = omega (arith, SamePace-report_joined (arrivals e) _)
  pace-Step {e} (sweep now) = omega (arith, SamePace-drop_all (dead_peers now e) e)
  pace-Step {e} (speak now) = ground (arith, pace-tick_speaking now e)
  pace-Step {e} (read now got) = omega (arith, SamePace-read_once now got e)
  pace-Step (tell now) = omega arith

  -- However often the loop turns and whatever comes to it: if ticks make the lists of speakers anew n
  -- times between two engines on its way, then their times of last making them lie at least n times
  -- 200 ms apart. A tick within 200 ms of the last making does nothing; any later one notes its time,
  -- makes the list of every room anew, and sends what the rooms have to send of it, in their order.
  pub Reach-paced :
      {e f : Engine d} (r : Reach v e f) (now : ℕ) (m : String)
      → (beats r * 200_000_000 + e.last_speaking ≤ f.last_speaking)
        × (let g = tick_speaking now f in
            if is_due now f
            then (g.last_speaking ≡ now)
              × (lookup m g.rooms ≡ Option.map (λ s. (sync_speaking now s).0) (lookup m f.rooms))
              × (g.log ≡ f.log ++ news now f)
            else g ≡ f)
  Reach-paced {e} here now m = (omega arith, ticked now e m)
  Reach-paced {e} {f} (next r s) now m =
      (omega (arith, (Reach-paced r now m).0, pace-Step s), ticked now f m)
