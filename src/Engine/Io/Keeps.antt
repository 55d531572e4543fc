-- ===== src/Engine/Io/Keeps.antt =====
-- src/sfu/engine_io.rs: draining the peers and reading the socket keep every card.
use mathlib.Core.Option
use ababilx_chat_sfu.Shared.{
  ℕ, zero, suc, ◌+◌, ◌≡◌, refl, ◌∙◌, String, Option, none, some, List, [], ◌∷◌, map, arith,
  string_Eq, Option-cases, inl, inr, lookup, lookup-map_values, lookup-cons, update_first,
}
use ababilx_chat_sfu.Media.{Deps, Driver, Input, receive, at_time}
use ababilx_chat_sfu.Tracks.{
  Arcs, Propagated, noop, timeout, track_open, media, keyframe_request, source,
}
use ababilx_chat_sfu.Peer.{Peer}
use ababilx_chat_sfu.Peer.Identity.{
  who, who-forward, who-serve_keyframe_request, who-handle_input, who-poll_output,
}
use ababilx_chat_sfu.Peer.Poll.{poll_output, handle_input}
use ababilx_chat_sfu.Room.{Room, deliver_from, propagate}
use ababilx_chat_sfu.Engine.{Engine, emit}
use ababilx_chat_sfu.Engine.Cards.{
  card_of, cards_of, SameCards, SameCards-refl, SameCards-trans, cards-update_first, emit-SameCards,
  cards-Option_map, cards-map,
}
use ababilx_chat_sfu.Engine.Io.{
  Drained, poll_peer, poll_peers, propagate_all, poll_room, poll_entries, poll_rooms, route_input,
  read_once, tell_time, max_idle,
}

module _ {d : Deps} where
  who-deliver_from :
      (h : Arcs d) (x : Propagated d) (origin : ℕ) (p : Peer d)
      → who (deliver_from h x origin p) ≡ who p
  unfolding deliver_from
  who-deliver_from h noop origin p = ground arith
  who-deliver_from h (timeout at) origin p = ground arith
  who-deliver_from h (track_open id w) origin p = ground arith
  who-deliver_from h (media id m) origin p = ground (arith, who-forward h id m p)
  who-deliver_from h (keyframe_request id r publisher m) origin p =
      ground (arith, who-serve_keyframe_request m r.kind p)

  pub cards-propagate :
      (h : Arcs d) (x : Propagated d) (r : Room d) → cards_of (propagate h x r) ≡ cards_of r
  unfolding propagate
  cards-propagate h x r = elim (Option-cases (source x)) [
    | inl e ↦ rw (e, propagate) refl
    | inr (origin, e) ↦
        rw (e, propagate)
          (cards-map (deliver_from h x origin) r.peers (who-deliver_from h x origin))
  ]

  cards-propagate_all :
      (h : Arcs d) (xs : List (Propagated d)) (r : Room d)
      → cards_of (propagate_all h xs r) ≡ cards_of r
  unfolding propagate_all
  cards-propagate_all h [] r = refl
  cards-propagate_all h (x ∷ xs) r =
      cards-propagate_all h xs (propagate h x r) ∙ cards-propagate h x r

  module _ (v : Driver d) where
    who-poll_peer :
        (fuel now wake : ℕ) (h : Arcs d) (p : Peer d) (x : Drained d (Peer d))
        → poll_peer v fuel now wake h p ≡ some x
        → who x.value ≡ who p
    unfolding poll_peer
    who-poll_peer zero now wake h p x e = cc
    who-poll_peer (suc fuel) now wake h p x e =
        let out = poll_output v now h p in
        elim (Option-cases (poll_peer v fuel now wake out.arcs out.peer)) [
          | inl stuck ↦ ground (arith, who-poll_output v now h p, stuck)
          | inr (y, found) ↦ ground (
            arith,
            who-poll_output v now h p,
            found,
            who-poll_peer fuel now wake out.arcs out.peer y found,
          )
        ]

    cards-poll_peers :
        (fuel now wake : ℕ) (h : Arcs d) (ps : List (Peer d)) (x : Drained d (List (Peer d)))
        → poll_peers v fuel now wake h ps ≡ some x
        → map card_of x.value ≡ map card_of ps
    unfolding poll_peers
    cards-poll_peers fuel now wake h [] x e = ground arith
    cards-poll_peers fuel now wake h (p ∷ ps) x e =
        elim (Option-cases (poll_peer v fuel now wake h p)) [
          | inl stuck ↦ ground (arith, stuck)
          | inr (y, found) ↦ elim (Option-cases (poll_peers v fuel now y.wake y.arcs ps)) [
            | inl stuck ↦ ground (arith, found, stuck)
            | inr (z, rest) ↦ ground (
              arith,
              found,
              rest,
              who-poll_peer fuel now wake h p y found,
              cards-poll_peers fuel now y.wake y.arcs ps z rest,
            )
          ]
        ]

    pub cards-poll_room :
        (fuel now wake : ℕ) (h : Arcs d) (r : Room d) (x : Drained d (Room d))
        → poll_room v fuel now wake h r ≡ some x
        → cards_of x.value ≡ cards_of r
    unfolding poll_room
    cards-poll_room fuel now wake h r x e =
        elim (Option-cases (poll_peers v fuel now wake h r.peers)) [
          | inl stuck ↦ ground (arith, stuck)
          | inr (y, found) ↦ ground (
            arith,
            found,
            cards-poll_peers fuel now wake h r.peers y found,
            cards-propagate_all y.arcs y.queue (record r { peers = y.value }),
          )
        ]

    cards-poll_entries :
        (fuel now wake : ℕ) (h : Arcs d) (rooms : List (String × Room d))
        (x : Drained d (List (String × Room d))) (m : String)
        → poll_entries v fuel now wake h rooms ≡ some x
        → Option.map cards_of (lookup m x.value) ≡ Option.map cards_of (lookup m rooms)
    unfolding poll_entries
    cards-poll_entries fuel now wake h [] x m e = ground arith
    cards-poll_entries fuel now wake h ((name, r) ∷ rest) x m e =
        elim (Option-cases (poll_room v fuel now wake h r)) [
          | inl stuck ↦ ground (arith, stuck)
          | inr (y, found) ↦ elim (Option-cases (poll_entries v fuel now y.wake y.arcs rest)) [
            | inl stuck ↦ ground (arith, found, stuck)
            | inr (z, others) ↦ ground (
              arith,
              found,
              others,
              lookup-cons m name r rest,
              lookup-cons m name y.value z.value,
              cards-poll_room fuel now wake h r y found,
              cards-poll_entries fuel now y.wake y.arcs rest z m others,
            )
          ]
        ]

    pub poll_rooms-SameCards :
        (fuel now : ℕ) (e f : Engine d) (wake : ℕ)
        → poll_rooms v fuel now e ≡ some (f, wake)
        → SameCards e f
    unfolding poll_rooms
    poll_rooms-SameCards fuel now e f wake h =
        elim (Option-cases (poll_entries v fuel now (now + max_idle) e.arcs e.rooms)) [
          | inl stuck ↦ ground (arith, stuck)
          | inr (x, found) ↦
              let same : f ≡ emit x.effects (record e { rooms = x.value; arcs = x.arcs }) =
                ground (arith, found) in
              rw same (
                SameCards-trans
                  (record {
                    same_rooms = λ m. cards-poll_entries fuel now _ e.arcs e.rooms x m found;
                    same_index = refl;
                    same_config = refl;
                    same_next = refl;
                  })
                  (emit-SameCards x.effects (record e { rooms = x.value; arcs = x.arcs })))
        ]

    cards-route_input :
        (input : Input d) (rooms : List (String × Room d)) (m : String)
        → Option.map cards_of (lookup m (route_input v input rooms))
          ≡ Option.map cards_of (lookup m rooms)
    unfolding route_input
    cards-route_input input [] m = refl
    cards-route_input input ((name, r) ∷ rest) m =
        let changed = record r {
          peers =
              update_first (λ (p : Peer d). v.accepts p.rtc input) (handle_input v input) r.peers;
        } in
        ground (
          arith,
          lookup-cons m name r rest,
          lookup-cons m name changed rest,
          lookup-cons m name r (route_input v input rest),
          cards-update_first (λ (p : Peer d). v.accepts p.rtc input) (handle_input v input) r.peers
              (who-handle_input v input),
          cards-route_input input rest m,
        )

    pub read_once-SameCards :
        (now : ℕ) (got : Option (d.Address × d.Contents)) (e : Engine d)
        → SameCards e (read_once v now got e)
    unfolding read_once
    read_once-SameCards now none e = SameCards-refl e
    read_once-SameCards now (some (source, contents)) e = record {
      same_rooms = cards-route_input (receive now source e.advertised contents) e.rooms;
      same_index = refl;
      same_config = refl;
      same_next = refl;
    }

    pub tell_time-SameCards : (now : ℕ) (e : Engine d) → SameCards e (tell_time v now e)
    unfolding tell_time
    tell_time-SameCards now e = record {
      same_rooms = λ m. rw lookup-map_values (
          cards-Option_map
            (λ (r : Room d). record r { peers = map (handle_input v (at_time now)) r.peers })
            (lookup m e.rooms)
            (λ r.
              cards-map (handle_input v (at_time now)) r.peers (who-handle_input v (at_time now))));
      same_index = refl;
      same_config = refl;
      same_next = refl;
    }
