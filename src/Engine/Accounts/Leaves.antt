-- ===== src/Engine/Accounts/Leaves.antt =====
-- src/sfu/join.rs, `drop_peer` and `reap`: a peer that goes leaves the accounts balanced.
use mathlib.Core.Option
use ababilx_chat_sfu.Shared.{
  ℕ, ◌+◌, ◌≡◌, refl, ap, sym, ◌∙◌, String, Bool, true, false, ◌&&◌, some, List, [], ◌∷◌, ◌++◌, map,
  arith, ◌==◌, nat_Eq, string_Eq, bit, lookup, insert, remove, lookup-insert, lookup-remove,
  Option-cases, Bool-cases, inl, inr, if◌then◌else◌, find, remove_first, length,
}
use ababilx_chat_sfu.Media.{Deps}
use ababilx_chat_sfu.Peer.{Peer}
use ababilx_chat_sfu.Room.{Room, has_id, peer_of, removed, is_empty}
use ababilx_chat_sfu.Room
use ababilx_chat_sfu.Engine.{Engine, emit, report_event}
use ababilx_chat_sfu.Engine.Told.{told, about}
use ababilx_chat_sfu.Engine.Cards.{card_of, cards_of}
use ababilx_chat_sfu.Engine.Join.{
  report_left, close_if_empty, drop_from, drop_peer, drop_all, dead_peers, reap,
}
use ababilx_chat_sfu.Engine.Join.Departures.{closed, told-drop_from}
use ababilx_chat_sfu.Engine.Wired.Leaves.{missing-drop_from}
use ababilx_chat_sfu.Engine.Accounts.{
  tally, tally-append, is_reported, reported_in, reported_among, Balances, Balances-refl,
  Balances-trans, Balances-same,
}

-- What is told of a departure, as the accounts of a user in a room see it.
left-tally :
    (name who room user : String) (reported last : Bool)
    → tally "participant_left" room user (
        (if reported then about "participant_left" name who ∷ [] else [])
        ++ (if last then closed name ∷ [] else []))
      ≡ bit (reported && ((name == room) && (who == user)))
left-tally name who room user true true = omega arith
left-tally name who room user true false = omega arith
left-tally name who room user false true = refl
left-tally name who room user false false = refl

module _ {d : Deps} where
  pub reported-remove_first :
      (user : String) (id : ℕ) (ps : List (Peer d)) (p : Peer d)
      → find (has_id id) ps ≡ some p
      → reported_in user (map card_of (remove_first (has_id id) ps))
          + bit (is_reported user (card_of p))
        ≡ reported_in user (map card_of ps)
  reported-remove_first user id [] p found = absurd (ground (arith, found))
  reported-remove_first user id (q ∷ ps) p found = elim (Bool-cases (has_id id q)) [
    | inl this ↦
        let same : q ≡ p = ground (arith, found, this) in
        let c = ap (λ (x : Peer d). bit (is_reported user (card_of x))) same in
        rw this (omega (arith, c))
    | inr other ↦
        let ih = reported-remove_first user id ps p (ground (arith, found, other)) in
        rw other (omega (arith, ih))
  ]

  reported_none :
      (user : String) (r : Room d) → is_empty r ≡ true → reported_in user (cards_of r) ≡ 0
  unfolding is_empty
  reported_none user r h = go r.peers h
    where
      go :
          (ps : List (Peer d))
          → (elim ps [ [] ↦ true | _ ∷ _ ↦ false ]) ≡ true
          → reported_in user (map card_of ps) ≡ 0
      go [] e = refl
      go (p ∷ ps) e = cc

  module _ (id : ℕ) (name : String) (r : Room d) (e : Engine d) where
    staying-drop_from :
        (p : Peer d) (room user : String)
        → peer_of id r ≡ some p
        → reported_among user (Option.map cards_of (lookup room (drop_from id name r e).rooms)) ≡ (
            if name == room
            then reported_in user (cards_of (removed id r))
            else reported_among user (Option.map cards_of (lookup room e.rooms)))
    unfolding drop_from Room.remove report_left close_if_empty emit report_event
    staying-drop_from p room user found = ground (
      arith,
      found,
      lookup-insert name room (removed id r) e.rooms,
      lookup-remove name room (insert name (removed id r) e.rooms),
      reported_none user (removed id r),
    )

    Balances-drop_from : lookup name e.rooms ≡ some r → Balances e (drop_from id name r e)
    unfolding peer_of removed
    Balances-drop_from there = elim (Option-cases (peer_of id r)) [
      | inl out ↦ rw (missing-drop_from id name r e out) (Balances-refl e)
      | inr (p, found) ↦ record {
        covered = λ room user.
            let f = drop_from id name r e in
            let news =
              (if p.reported then about "participant_left" name p.user_id ∷ [] else [])
              ++ (if length r.peers == 1 then closed name ∷ [] else []) in
            let l =
              ap (tally "participant_left" room user) (told-drop_from id name r p e found)
              ∙ tally-append "participant_left" room user (told e.log) news in
            let j =
              ap (tally "participant_joined" room user) (told-drop_from id name r p e found)
              ∙ tally-append "participant_joined" room user (told e.log) news in
            let lost = left-tally name p.user_id room user p.reported (length r.peers == 1) in
            let gone = reported-remove_first user id r.peers p found in
            let s = staying-drop_from p room user found in
            elim (Bool-cases (name == room)) [
              | inl this ↦
                  let here : lookup room e.rooms ≡ some r =
                    ap (λ n. lookup n e.rooms) (sym ((string_Eq.matches_iff name room).0 this))
                    ∙ there in
                  let before = ap (λ o. reported_among user (Option.map cards_of o)) here in
                  let covers : bit (p.reported && ((name == room) && (p.user_id == user)))
                      ≡ bit (is_reported user (card_of p)) =
                    rw this refl in
                  let now : reported_among user (Option.map cards_of (lookup room f.rooms))
                      ≡ reported_in user (cards_of (removed id r)) =
                    ground (arith, s, this) in
                  omega (arith, l, j, lost, gone, now, before, covers)
              | inr other ↦
                  let covers : bit (p.reported && ((name == room) && (p.user_id == user))) ≡ 0 =
                    ground (arith, other) in
                  let now : reported_among user (Option.map cards_of (lookup room f.rooms))
                      ≡ reported_among user (Option.map cards_of (lookup room e.rooms)) =
                    ground (arith, s, other) in
                  omega (arith, l, j, lost, now, covers)
            ];
      }
    ]

  pub Balances-drop_peer : (id : ℕ) (e : Engine d) → Balances e (drop_peer id e)
  unfolding drop_peer
  Balances-drop_peer id e = elim (Option-cases (lookup id e.peer_rooms)) [
    | inl homeless ↦ rw (homeless, drop_peer) (Balances-refl e)
    | inr (name, home) ↦
        let e' : Engine d = record e { peer_rooms = remove id e.peer_rooms } in
        let moved : Balances e e' = Balances-same refl (λ m. refl) in
        elim (Option-cases (lookup name e.rooms)) [
          | inl gone ↦ rw (home, gone, drop_peer) moved
          | inr (r, there) ↦
              rw (home, there, drop_peer)
                (Balances-trans moved (Balances-drop_from id name r e' there))
        ]
  ]

  Balances-drop_all : (ids : List ℕ) (e : Engine d) → Balances e (drop_all ids e)
  unfolding drop_all
  Balances-drop_all [] e = Balances-refl e
  Balances-drop_all (id ∷ ids) e =
      Balances-trans (Balances-drop_peer id e) (Balances-drop_all ids (drop_peer id e))

  pub Balances-reap : (now : ℕ) (e : Engine d) → Balances e (reap now e)
  unfolding reap
  Balances-reap now e = Balances-drop_all (dead_peers now e) e
