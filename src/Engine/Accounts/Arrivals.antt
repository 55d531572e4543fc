-- ===== src/Engine/Accounts/Arrivals.antt =====
-- src/sfu/engine_io.rs, `report_connections`: the arrivals that are reported balance the peers that
-- count as reported from then on.
use mathlib.Core.List.{map-append}
use mathlib.Core.Option
use ababilx_chat_sfu.Shared.{
  ℕ, ◌+◌, ◌≤◌, ◌≡◌, refl, ap, ◌∙◌, String, ◌&&◌, Option, none, some, List, [], ◌∷◌, map, arith,
  ◌==◌, string_Eq, bit, lookup, lookup-cons, lookup-map_values, Bool-cases, inl, inr, keep, gather,
}
use ababilx_chat_sfu.Media.{Deps}
use ababilx_chat_sfu.Peer.{Peer}
use ababilx_chat_sfu.Room.{Room}
use ababilx_chat_sfu.Engine.{Engine}
use ababilx_chat_sfu.Engine.Told.{told, about, Notice}
use ababilx_chat_sfu.Engine.Cards.{card_of, cards_of}
use ababilx_chat_sfu.Engine.Ticks.{
  has_arrived, mark_peer, mark_room, arrivals_in, report_connections,
}
use ababilx_chat_sfu.Engine.Ticks
use ababilx_chat_sfu.Engine.Ticks.Arrivals.{told-report_connections, rooms-report_connections}
use ababilx_chat_sfu.Engine.Accounts.{tally, tally-append, reported_in, reported_among, Balances}

-- The notices of the arrivals, by room and user.
abbrev joined : List (String × String) → List Notice
joined = map (λ (w : String × String). about "participant_joined" w.0 w.1)

left-joined :
    (room user : String) (who : List (String × String))
    → tally "participant_left" room user (joined who) ≡ 0
left-joined room user [] = refl
left-joined room user (w ∷ who) = omega (arith, left-joined room user who)

module _ {d : Deps} where
  -- The peers of the user that have arrived and were not reported.
  abbrev arrived_of : String → List (Peer d) → ℕ
  arrived_of user [] = 0
  arrived_of user (p ∷ ps) = bit (has_arrived p && (p.user_id == user)) + arrived_of user ps

  abbrev arrived_among : String → Option (Room d) → ℕ
  arrived_among user none = 0
  arrived_among user (some r) = arrived_of user r.peers

  reported-mark_peer :
      (user : String) (ps : List (Peer d))
      → reported_in user (map card_of (map mark_peer ps))
        ≡ reported_in user (map card_of ps) + arrived_of user ps
  unfolding mark_peer has_arrived
  reported-mark_peer user [] = omega arith
  reported-mark_peer user (p ∷ ps) = ground (arith, reported-mark_peer user ps)

  reported-mark_room :
      (user : String) (o : Option (Room d))
      → reported_among user (Option.map cards_of (Option.map mark_room o))
        ≡ reported_among user (Option.map cards_of o) + arrived_among user o
  unfolding mark_room
  reported-mark_room user none = omega arith
  reported-mark_room user (some r) = reported-mark_peer user r.peers

  tally-arrivals_in :
      (room user : String) (r : Room d)
      → tally "participant_joined" room user (joined (arrivals_in (room, r)))
        ≡ arrived_of user r.peers
  unfolding arrivals_in
  tally-arrivals_in room user r = go r.peers
    where
      go :
          (ps : List (Peer d))
          → tally "participant_joined" room user
              (joined (map (λ (p : Peer d). (room, p.user_id)) (keep has_arrived ps)))
            ≡ arrived_of user ps
      go [] = refl
      go (p ∷ ps) = elim (Bool-cases (has_arrived p)) [
        | inl new ↦ rw new (ground (arith, go ps, string_Eq.matches_iff room room))
        | inr old ↦ rw old (omega (arith, go ps))
      ]

  tally-arrivals :
      (room user : String) (rooms : List (String × Room d))
      → arrived_among user (lookup room rooms)
        ≤ tally "participant_joined" room user (joined (gather arrivals_in rooms))
  unfolding lookup
  tally-arrivals room user [] = ground arith
  tally-arrivals room user ((name, r) ∷ rest) =
      let both =
        ap (tally "participant_joined" room user) (
          map-append (λ (w : String × String). about "participant_joined" w.0 w.1)
            (arrivals_in (name, r)) (gather arrivals_in rest))
        ∙ tally-append "participant_joined" room user (joined (arrivals_in (name, r)))
            (joined (gather arrivals_in rest)) in
      let found = ap (arrived_among user) (lookup-cons room name r rest) in
      elim (Bool-cases (name == room)) [
        | inl this ↦
            let here =
              ap (λ n. tally "participant_joined" room user (joined (arrivals_in (n, r))))
                ((string_Eq.matches_iff name room).0 this)
              ∙ tally-arrivals_in room user r in
            let at : arrived_among user (lookup room ((name, r) ∷ rest)) ≡ arrived_of user r.peers =
              ground (arith, found, this) in
            omega (arith, both, here, at)
        | inr other ↦
            let at : arrived_among user (lookup room ((name, r) ∷ rest))
                ≡ arrived_among user (lookup room rest) =
              ground (arith, found, other) in
            omega (arith, both, at, tally-arrivals room user rest)
      ]

  pub Balances-report_connections : (e : Engine d) → Balances e (report_connections e)
  Balances-report_connections e = record {
    covered = λ room user.
        let news = told-report_connections e in
        let who = Ticks.arrivals e in
        let l =
          ap (tally "participant_left" room user) news
          ∙ tally-append "participant_left" room user (told e.log) (joined who) in
        let j =
          ap (tally "participant_joined" room user) news
          ∙ tally-append "participant_joined" room user (told e.log) (joined who) in
        let s =
          ap (λ rooms. reported_among user (Option.map cards_of (lookup room rooms)))
            (rooms-report_connections e)
          ∙ ap (λ o. reported_among user (Option.map cards_of o))
              (lookup-map_values mark_room room e.rooms)
          ∙ reported-mark_room user (lookup room e.rooms) in
        let covers : arrived_among user (lookup room e.rooms)
            ≤ tally "participant_joined" room user (joined who) =
          unfold Ticks.arrivals in tally-arrivals room user e.rooms in
        omega (arith, l, j, s, left-joined room user who, covers);
  }
