-- ===== src/Engine/Accounts/Polls.antt =====
-- src/sfu/engine_io.rs: polling and the socket tell the host application nothing.
use ababilx_chat_sfu.Shared.{
  ℕ, zero, suc, ◌+◌, ◌≡◌, refl, ap, ◌∙◌, String, Option, none, some, List, [], ◌∷◌, ◌++◌, arith,
  Option-cases, inl, inr, Result, ok, err,
}
use ababilx_chat_sfu.Media.{
  Deps, Driver, Output, transmit, timeout, event, ice_connection_state_change, media_added,
  media_data, keyframe_request, other_event,
}
use ababilx_chat_sfu.Tracks.{Arcs}
use ababilx_chat_sfu.Peer.{Peer, Effect, send}
use ababilx_chat_sfu.Peer.Negotiate.{negotiate_if_needed}
use ababilx_chat_sfu.Peer.Poll.{handle_output, handle_event, produced, poll_output}
use ababilx_chat_sfu.Room.{Room}
use ababilx_chat_sfu.Engine.{Engine, emit}
use ababilx_chat_sfu.Engine.Told.{told, told-append, told-emit}
use ababilx_chat_sfu.Engine.Io.{
  Drained, poll_peer, poll_peers, poll_room, poll_entries, poll_rooms, read_once, tell_time,
  max_idle,
}
use ababilx_chat_sfu.Engine.Io.Keeps.{
  poll_rooms-SameCards, read_once-SameCards, tell_time-SameCards,
}
use ababilx_chat_sfu.Engine.Accounts.{Balances, Balances-same}

module _ {d : Deps} where
  told-negotiate_if_needed : (h : Arcs d) (p : Peer d) → told (negotiate_if_needed h p).1 ≡ []
  unfolding negotiate_if_needed send
  told-negotiate_if_needed h p = ground arith

  told-handle_output :
      (now : ℕ) (o : Output d) (h : Arcs d) (p : Peer d)
      → told (handle_output now o h p).effects ≡ []
  unfolding handle_output handle_event
  told-handle_output now (transmit t) h p = refl
  told-handle_output now (timeout at) h p = refl
  told-handle_output now (event (ice_connection_state_change s)) h p = refl
  told-handle_output now (event (media_added a)) h p = refl
  told-handle_output now (event (media_data m)) h p = refl
  told-handle_output now (event (keyframe_request r)) h p = refl
  told-handle_output now (event other_event) h p = refl

  told-produced :
      (now : ℕ) (h : Arcs d) (p : Peer d) (r : Result String (Output d) × d.Rtc)
      → told (produced now h p r).effects ≡ []
  unfolding produced
  told-produced now h p (ok o, rtc) = told-handle_output now o h (record p { rtc = rtc })
  told-produced now h p (err x, rtc) = refl

  quiet-append : (fx gx : List (Effect d)) → told fx ≡ [] → told gx ≡ [] → told (fx ++ gx) ≡ []
  quiet-append fx gx f g = rw (told-append fx gx, f) g

  module _ (v : Driver d) where
    told-poll_output :
        (now : ℕ) (h : Arcs d) (p : Peer d) → told (poll_output v now h p).effects ≡ []
    unfolding poll_output
    told-poll_output now h p =
        let (q, sent, offered) = negotiate_if_needed h p in
        let out = produced now h q (v.poll_output q.rtc) in
        ground (
          arith,
          told-negotiate_if_needed h p,
          quiet-append sent out.effects (told-negotiate_if_needed h p)
              (told-produced now h q (v.poll_output q.rtc)),
        )

    told-poll_peer :
        (fuel now wake : ℕ) (h : Arcs d) (p : Peer d) (x : Drained d (Peer d))
        → poll_peer v fuel now wake h p ≡ some x
        → told x.effects ≡ []
    unfolding poll_peer
    told-poll_peer zero now wake h p x e = cc
    told-poll_peer (suc fuel) now wake h p x e =
        let out = poll_output v now h p in
        elim (Option-cases (poll_peer v fuel now wake out.arcs out.peer)) [
          | inl stuck ↦ ground (arith, e, told-poll_output now h p, stuck)
          | inr (y, found) ↦ ground (
            arith,
            e,
            told-poll_output now h p,
            found,
            quiet-append out.effects y.effects (told-poll_output now h p)
                (told-poll_peer fuel now wake out.arcs out.peer y found),
          )
        ]

    told-poll_peers :
        (fuel now wake : ℕ) (h : Arcs d) (ps : List (Peer d)) (x : Drained d (List (Peer d)))
        → poll_peers v fuel now wake h ps ≡ some x
        → told x.effects ≡ []
    unfolding poll_peers
    told-poll_peers fuel now wake h [] x e = ground arith
    told-poll_peers fuel now wake h (p ∷ ps) x e =
        elim (Option-cases (poll_peer v fuel now wake h p)) [
          | inl stuck ↦ ground (arith, stuck)
          | inr (y, found) ↦ elim (Option-cases (poll_peers v fuel now y.wake y.arcs ps)) [
            | inl stuck ↦ ground (arith, found, stuck)
            | inr (z, rest) ↦ ground (
              arith,
              found,
              rest,
              quiet-append y.effects z.effects (told-poll_peer fuel now wake h p y found)
                  (told-poll_peers fuel now y.wake y.arcs ps z rest),
            )
          ]
        ]

    told-poll_room :
        (fuel now wake : ℕ) (h : Arcs d) (r : Room d) (x : Drained d (Room d))
        → poll_room v fuel now wake h r ≡ some x
        → told x.effects ≡ []
    unfolding poll_room
    told-poll_room fuel now wake h r x e =
        elim (Option-cases (poll_peers v fuel now wake h r.peers)) [
          | inl stuck ↦ ground (arith, stuck)
          | inr (y, found) ↦ ground (arith, found, told-poll_peers fuel now wake h r.peers y found)
        ]

    told-poll_entries :
        (fuel now wake : ℕ) (h : Arcs d) (rooms : List (String × Room d))
        (x : Drained d (List (String × Room d)))
        → poll_entries v fuel now wake h rooms ≡ some x
        → told x.effects ≡ []
    unfolding poll_entries
    told-poll_entries fuel now wake h [] x e = ground arith
    told-poll_entries fuel now wake h ((name, r) ∷ rest) x e =
        elim (Option-cases (poll_room v fuel now wake h r)) [
          | inl stuck ↦ ground (arith, stuck)
          | inr (y, found) ↦ elim (Option-cases (poll_entries v fuel now y.wake y.arcs rest)) [
            | inl stuck ↦ ground (arith, found, stuck)
            | inr (z, others) ↦ ground (
              arith,
              found,
              others,
              quiet-append y.effects z.effects (told-poll_room fuel now wake h r y found)
                  (told-poll_entries fuel now y.wake y.arcs rest z others),
            )
          ]
        ]

    told-poll_rooms :
        (fuel now : ℕ) (e f : Engine d) (wake : ℕ)
        → poll_rooms v fuel now e ≡ some (f, wake)
        → told f.log ≡ told e.log
    unfolding poll_rooms
    told-poll_rooms fuel now e f wake h =
        elim (Option-cases (poll_entries v fuel now (now + max_idle) e.arcs e.rooms)) [
          | inl stuck ↦ ground (arith, stuck)
          | inr (x, found) ↦
              let same : f ≡ emit x.effects (record e { rooms = x.value; arcs = x.arcs }) =
                ground (arith, found) in
              ap (λ (g : Engine d). told g.log) same
              ∙ told-emit x.effects (record e { rooms = x.value; arcs = x.arcs })
                  (told-poll_entries fuel now (now + max_idle) e.arcs e.rooms x found)
        ]

    pub Balances-poll_rooms :
        (fuel now : ℕ) (e f : Engine d) (wake : ℕ)
        → poll_rooms v fuel now e ≡ some (f, wake)
        → Balances e f
    Balances-poll_rooms fuel now e f wake h =
        Balances-same (told-poll_rooms fuel now e f wake h)
          (poll_rooms-SameCards v fuel now e f wake h).same_rooms

    pub Balances-read_once :
        (now : ℕ) (got : Option (d.Address × d.Contents)) (e : Engine d)
        → Balances e (read_once v now got e)
    unfolding read_once
    Balances-read_once now none e = Balances-same refl (read_once-SameCards v now none e).same_rooms
    Balances-read_once now (some (a, c)) e =
        Balances-same refl (read_once-SameCards v now (some (a, c)) e).same_rooms

    pub Balances-tell_time : (now : ℕ) (e : Engine d) → Balances e (tell_time v now e)
    unfolding tell_time
    Balances-tell_time now e = Balances-same refl (tell_time-SameCards v now e).same_rooms
