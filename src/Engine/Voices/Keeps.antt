-- ===== src/Engine/Voices/Keeps.antt =====
-- src/sfu/engine_io.rs and src/sfu/dispatch.rs: polls, datagrams, the time, answers, flags and reports
-- leave the lists of speakers as they are.
use mathlib.Core.Option
use ababilx_chat_sfu.Shared.{
  ℕ, ◌+◌, ◌≡◌, refl, ap, ◌∙◌, String, Bool, Option, none, some, List, [], ◌∷◌, arith, ◌==◌,
  string_Eq, Option-cases, Bool-cases, Result-cases, inl, inr, lookup, lookup-map_values,
  lookup-cons, lookup-insert, update_first,
}
use ababilx_chat_sfu.Media.{Deps, Driver, Input, receive}
use ababilx_chat_sfu.Tracks.{Arcs, Propagated, source}
use ababilx_chat_sfu.Peer.{Peer}
use ababilx_chat_sfu.Peer.Poll.{handle_input}
use ababilx_chat_sfu.Peer.Negotiate.{accept_answer}
use ababilx_chat_sfu.Room.{Room, propagate, peer_of}
use ababilx_chat_sfu.Report
use ababilx_chat_sfu.Engine.{Engine, emit, report_event, room_of}
use ababilx_chat_sfu.Engine.Io.{
  Drained, poll_peers, propagate_all, poll_room, poll_entries, poll_rooms, route_input, read_once,
  tell_time, max_idle,
}
use ababilx_chat_sfu.Engine.Ticks.{mark_room, arrivals, report_joined, report_connections}
use ababilx_chat_sfu.Engine.Dispatch.{
  with_peer, handle_answer, report_screen, set_state_of, set_state, set_flags,
}
use ababilx_chat_sfu.Engine.Dispatch.Keeps.{room_of-lookup}
use ababilx_chat_sfu.Engine.Voices.{speaking_of, SameSpeaking}

module _ {d : Deps} where
  speaking-propagate :
      (h : Arcs d) (x : Propagated d) (r : Room d) → (propagate h x r).speaking ≡ r.speaking
  unfolding propagate
  speaking-propagate h x r = ground arith

  speaking-propagate_all :
      (h : Arcs d) (xs : List (Propagated d)) (r : Room d)
      → (propagate_all h xs r).speaking ≡ r.speaking
  unfolding propagate_all
  speaking-propagate_all h [] r = refl
  speaking-propagate_all h (x ∷ xs) r =
      speaking-propagate_all h xs (propagate h x r) ∙ speaking-propagate h x r

  module _ (v : Driver d) where
    speaking-poll_room :
        (fuel now wake : ℕ) (h : Arcs d) (r : Room d) (x : Drained d (Room d))
        → poll_room v fuel now wake h r ≡ some x
        → x.value.speaking ≡ r.speaking
    unfolding poll_room
    speaking-poll_room fuel now wake h r x e =
        elim (Option-cases (poll_peers v fuel now wake h r.peers)) [
          | inl stuck ↦ ground (arith, stuck)
          | inr (y, found) ↦
              ground
                (arith, found, speaking-propagate_all y.arcs y.queue (record r { peers = y.value }))
        ]

    speaking-poll_entries :
        (fuel now wake : ℕ) (h : Arcs d) (rooms : List (String × Room d))
        (x : Drained d (List (String × Room d))) (m : String)
        → poll_entries v fuel now wake h rooms ≡ some x
        → Option.map speaking_of (lookup m x.value) ≡ Option.map speaking_of (lookup m rooms)
    unfolding poll_entries
    speaking-poll_entries fuel now wake h [] x m e = ground arith
    speaking-poll_entries fuel now wake h ((name, r) ∷ rest) x m e =
        elim (Option-cases (poll_room v fuel now wake h r)) [
          | inl stuck ↦ ground (arith, stuck)
          | inr (y, found) ↦ elim (Option-cases (poll_entries v fuel now y.wake y.arcs rest)) [
            | inl stuck ↦ ground (arith, found, stuck)
            | inr (z, others) ↦ ground (
              arith,
              found,
              others,
              lookup-cons m name r rest,
              lookup-cons m name y.value z.value,
              speaking-poll_room fuel now wake h r y found,
              speaking-poll_entries fuel now y.wake y.arcs rest z m others,
            )
          ]
        ]

    pub poll_rooms-SameSpeaking :
        (fuel now : ℕ) (e f : Engine d) (wake : ℕ)
        → poll_rooms v fuel now e ≡ some (f, wake)
        → SameSpeaking e f
    unfolding poll_rooms emit
    poll_rooms-SameSpeaking fuel now e f wake h m =
        elim (Option-cases (poll_entries v fuel now (now + max_idle) e.arcs e.rooms)) [
          | inl stuck ↦ ground (arith, stuck)
          | inr (x, found) ↦
              let same : f.rooms ≡ x.value = ground (arith, found) in
              rw same (speaking-poll_entries fuel now _ e.arcs e.rooms x m found)
        ]

    speaking-route_input :
        (input : Input d) (rooms : List (String × Room d)) (m : String)
        → Option.map speaking_of (lookup m (route_input v input rooms))
          ≡ Option.map speaking_of (lookup m rooms)
    unfolding route_input
    speaking-route_input input [] m = refl
    speaking-route_input input ((name, r) ∷ rest) m =
        let changed = record r {
          peers =
              update_first (λ (p : Peer d). v.accepts p.rtc input) (handle_input v input) r.peers;
        } in
        ground (
          arith,
          lookup-cons m name r rest,
          lookup-cons m name changed rest,
          lookup-cons m name r (route_input v input rest),
          speaking-route_input input rest m,
        )

    pub read_once-SameSpeaking :
        (now : ℕ) (got : Option (d.Address × d.Contents)) (e : Engine d)
        → SameSpeaking e (read_once v now got e)
    unfolding read_once
    read_once-SameSpeaking now none e m = refl
    read_once-SameSpeaking now (some (source, contents)) e m =
        speaking-route_input (receive now source e.advertised contents) e.rooms m

  -- Rooms whose peers alone are written to.
  speaking-Option_map :
      (f : Room d → Room d) (o : Option (Room d))
      → ((r : Room d) → (f r).speaking ≡ r.speaking)
      → Option.map speaking_of (Option.map f o) ≡ Option.map speaking_of o
  speaking-Option_map f none h = refl
  speaking-Option_map f (some r) h = ap some (h r)

  pub tell_time-SameSpeaking :
      (v : Driver d) (now : ℕ) (e : Engine d) → SameSpeaking e (tell_time v now e)
  unfolding tell_time
  tell_time-SameSpeaking v now e m =
      rw lookup-map_values (speaking-Option_map _ (lookup m e.rooms) (λ r. refl))

  report_joined-SameSpeaking :
      (who : List (String × String)) (e : Engine d) → SameSpeaking e (report_joined who e)
  unfolding report_joined report_event
  report_joined-SameSpeaking [] e m = refl
  report_joined-SameSpeaking ((name, user) ∷ rest) e m =
      report_joined-SameSpeaking rest
        (report_event (λ r. Report.identity r user) "participant_joined" name e) m

  pub report_connections-SameSpeaking : (e : Engine d) → SameSpeaking e (report_connections e)
  unfolding report_connections mark_room
  report_connections-SameSpeaking e m =
      report_joined-SameSpeaking (arrivals e) _ m
      ∙ rw lookup-map_values (speaking-Option_map mark_room (lookup m e.rooms) (λ r. refl))

  with_peer-SameSpeaking :
      (id : ℕ) (name : String) (r : Room d) (f : Peer d → Peer d) (e : Engine d)
      → lookup name e.rooms ≡ some r
      → SameSpeaking e (with_peer id name r f e)
  unfolding with_peer
  with_peer-SameSpeaking id name r f e there m = rw lookup-insert (elim (Bool-cases (name == m)) [
    | inl here ↦ rw (here, ← (string_Eq.matches_iff name m).0 here, there) refl
    | inr other ↦ rw other refl
  ])

  pub handle_answer-SameSpeaking :
      (id : ℕ) (sdp : String) (e : Engine d) → SameSpeaking e (handle_answer id sdp e)
  unfolding handle_answer
  handle_answer-SameSpeaking id sdp e m = elim (Option-cases (room_of id e)) [
    | inl no_room ↦ rw (no_room, handle_answer) refl
    | inr ((name, r), there) ↦ elim (Option-cases (peer_of id r)) [
      | inl no_peer ↦ rw (there, no_peer, handle_answer) refl
      | inr (p, found) ↦ elim (Result-cases (d.answer_from_sdp sdp)) [
        | inr (x, bad) ↦ rw (there, found, bad, handle_answer) refl
        | inl (a, good) ↦
            rw (there, found, good, handle_answer)
              (with_peer-SameSpeaking id name r (λ p. (accept_answer p a).0) e
                (room_of-lookup id e name r there).0 m)
      ]
    ]
  ]

  rooms-report_screen :
      (name : String) (p : Peer d) (active : Option Bool) (e : Engine d)
      → (report_screen name p active e).rooms ≡ e.rooms
  unfolding report_screen report_event
  rooms-report_screen name p none e = refl
  rooms-report_screen name p (some active) e = ground arith

  pub set_state-SameSpeaking :
      (id : ℕ) (muted active : Option Bool) (e : Engine d)
      → SameSpeaking e (set_state id muted active e)
  unfolding set_state set_state_of emit
  set_state-SameSpeaking id muted active e m = elim (Option-cases (room_of id e)) [
    | inl no_room ↦ rw (no_room, set_state) refl
    | inr ((name, r), there) ↦ elim (Option-cases (peer_of id r)) [
      | inl no_peer ↦ rw (there, no_peer, set_state) refl
      | inr (p, found) ↦
          rw (there, found, set_state, rooms-report_screen)
            (with_peer-SameSpeaking p.id name r (set_flags muted active) e
              (room_of-lookup id e name r there).0 m)
    ]
  ]
