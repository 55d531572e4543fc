-- ===== src/Engine/Join/Sweep.antt =====
-- src/sfu/join.rs, `reap`: the sweep takes every dead peer, and no other.
use ababilx_chat_sfu.Shared.{
  ℕ, ◌-◌, leb, ◌∙◌, true, ◌≡◌, ◌⊎◌, refl, ap, String, Bool, false, not, ◌&&◌, ◌||◌, none, some,
  List, [], ◌∷◌, ◌++◌, map, arith, if◌then◌else◌, ◌==◌, nat_Eq, string_Eq, Bool-cases, Option-cases,
  inl, inr, lookup, insert, remove, lookup-insert, lookup-remove, lookup-cons, subst, All-map,
  All-and, All, any, keep, gather, All-remove_first,
}
use ababilx_chat_sfu.Media.{Deps}
use ababilx_chat_sfu.Hall.{seated, vacate}
use ababilx_chat_sfu.Hall.Vacate.{seated-vacate}
use ababilx_chat_sfu.Peer.{Peer, is_abandoned}
use ababilx_chat_sfu.Room.{Room, has_id, peer_of, removed}
use ababilx_chat_sfu.Room
use ababilx_chat_sfu.Engine.{Engine, emit, report_event}
use ababilx_chat_sfu.Engine.Seats.{seat_of, seats_in, IsValid}
use ababilx_chat_sfu.Engine.Join.{
  is_dead, dead_peers, drop_all, drop_peer, drop_from, report_left, close_if_empty, reap,
}
use ababilx_chat_sfu.Engine.Join.Leave.{hall-drop_peer, drop_peer-IsValid}

module _ {d : Deps} where
  -- A predicate of every peer in a room.
  abbrev pub AllPeers : (Peer d → Type 0) → Engine d → Type 0
  AllPeers P e = (m : String) (r : Room d) → lookup m e.rooms ≡ some r → All P r.peers

  All-remove :
      (P : Peer d → Type 0) (id : ℕ) (r : Room d) → All P r.peers → All P (Room.remove id r).1.peers
  unfolding Room.remove removed
  All-remove P id r h = elim (Option-cases (peer_of id r)) [
    | inl out ↦ rw (out, Room.remove) h
    | inr (p, found) ↦ rw (found, Room.remove) (All-remove_first P (has_id id) r.peers h)
  ]

  rooms-drop_from :
      (id : ℕ) (name : String) (r : Room d) (e : Engine d) (m : String) (q : Room d)
      → lookup m (drop_from id name r e).rooms ≡ some q
      → (q ≡ (Room.remove id r).1) ⊎ (lookup m e.rooms ≡ some q)
  unfolding drop_from report_left close_if_empty emit report_event
  rooms-drop_from id name r e m q h = ground (
    arith,
    lookup-insert name m (Room.remove id r).1 e.rooms,
    lookup-remove name m (insert name (Room.remove id r).1 e.rooms),
  )

  AllPeers-drop_peer :
      (P : Peer d → Type 0) (id : ℕ) (e : Engine d) → AllPeers P e → AllPeers P (drop_peer id e)
  unfolding drop_peer
  AllPeers-drop_peer P id e h m q = elim (Option-cases (lookup id e.peer_rooms)) [
    | inl homeless ↦ rw (homeless, drop_peer) (h m q)
    | inr (name, home) ↦ elim (Option-cases (lookup name e.rooms)) [
      | inl gone ↦ rw (home, gone, drop_peer) (h m q)
      | inr (r, there) ↦
          let e' : Engine d = record e { peer_rooms = remove id e.peer_rooms } in
          rw (home, there, drop_peer)
            (λ x. elim (rooms-drop_from id name r e' m q x) [
              | inl new ↦ rw new (All-remove P id r (h name r there))
              | inr old ↦ h m q old
            ])
    ]
  ]

  unseated :
      (id : ℕ) (ps : List (Peer d))
      → seated id (map seat_of ps) ≡ false
      → All (λ (p : Peer d). (p.id == id) ≡ false) ps
  unseated id [] h = tt
  unseated id (p ∷ ps) h = (ground arith, unseated id ps (ground arith))

  unseated-drop_peer :
      (id : ℕ) (e : Engine d) → IsValid e → AllPeers (λ p. (p.id == id) ≡ false) (drop_peer id e)
  unseated-drop_peer id e v m q h =
      let seats : seats_in (lookup m (drop_peer id e).rooms)
          ≡ vacate id (seats_in (lookup m e.rooms)) =
        ap (λ x. x.members m) (hall-drop_peer id e v) in
      unseated id q.peers (
        ground (
          arith,
          h,
          seats,
          seated-vacate id id (seats_in (lookup m e.rooms)) (v.consistent.distinct m),
        ))

  module _ (now : ℕ) where
    among : List ℕ → Peer d → Bool
    among ids p = any (λ i. p.id == i) ids

    -- Dead, and not on the list.
    spared : List ℕ → Peer d → Bool
    unfolding among
    spared ids p = is_dead now p && not (among ids p)

    swept-drop_peer :
        (id : ℕ) (ids : List ℕ) (e : Engine d)
        → IsValid e
        → AllPeers (λ p. spared (id ∷ ids) p ≡ false) e
        → AllPeers (λ p. spared ids p ≡ false) (drop_peer id e)
    unfolding spared
    swept-drop_peer id ids e v h m q there =
        All-and (λ p. spared (id ∷ ids) p ≡ false) (λ p. (p.id == id) ≡ false) _ q.peers
          (λ p a b. ground (arith, a, b))
          (AllPeers-drop_peer (λ p. spared (id ∷ ids) p ≡ false) id e h m q there)
          (unseated-drop_peer id e v m q there)

    swept-drop_all :
        (ids : List ℕ) (e : Engine d)
        → IsValid e
        → AllPeers (λ p. spared ids p ≡ false) e
        → AllPeers (λ p. spared [] p ≡ false) (drop_all ids e)
    unfolding drop_all
    swept-drop_all [] e v h = h
    swept-drop_all (id ∷ ids) e v h =
        swept-drop_all ids (drop_peer id e) (drop_peer-IsValid id e v)
          (swept-drop_peer id ids e v h)

    home-drop_all :
        (ids : List ℕ) (e : Engine d) (j : ℕ)
        → IsValid e
        → lookup j (drop_all ids e).peer_rooms
          ≡ (if any (λ i. i == j) ids then none else lookup j e.peer_rooms)
    unfolding drop_all
    home-drop_all [] e j v = refl
    home-drop_all (id ∷ ids) e j v =
        let home : lookup j (drop_peer id e).peer_rooms
            ≡ (if id == j then none else lookup j e.peer_rooms) =
          ap (λ x. x.home j) (hall-drop_peer id e v) in
        ground (arith, home-drop_all ids (drop_peer id e) j (drop_peer-IsValid id e v), home)

    dead_ids : List (Peer d) → List ℕ
    dead_ids ps = map (λ (p : Peer d). p.id) (keep (is_dead now) ps)

    among-append :
        (p : Peer d) (ps qs : List (Peer d))
        → among (dead_ids (ps ++ qs)) p ≡ (among (dead_ids ps) p || among (dead_ids qs) p)
    unfolding among dead_ids
    among-append p [] qs = refl
    among-append p (x ∷ ps) qs = ground (arith, among-append p ps qs)

    listed : (ps : List (Peer d)) → All (λ p. spared (dead_ids ps) p ≡ false) ps
    unfolding spared dead_ids among
    listed [] = tt
    listed (p ∷ ps) = (
      ground (arith, nat_Eq.matches_iff p.id p.id),
      All-map (λ q. spared (dead_ids ps) q ≡ false) _ ps (λ q h. ground (arith, h)) (listed ps),
    )

    listed_in :
        (m : String) (r : Room d) (rooms : List (String × Room d))
        → lookup m rooms ≡ some r
        → All
            (λ p.
              spared (dead_ids (gather (λ (entry : String × Room d). entry.1.peers) rooms)) p
              ≡ false)
            r.peers
    unfolding spared lookup
    listed_in m r [] h = cc
    listed_in m r ((name, s) ∷ rooms) h =
        let rest = gather (λ (entry : String × Room d). entry.1.peers) rooms in
        elim (Bool-cases (name == m)) [
          | inl here ↦
              let same : s ≡ r = ground (arith, h, lookup-cons m name s rooms, here) in
              subst (λ q. All (λ p. spared (dead_ids (s.peers ++ rest)) p ≡ false) q.peers) same
                (All-map (λ q. spared (dead_ids s.peers) q ≡ false) _ s.peers
                  (λ q k. ground (arith, k, among-append q s.peers rest)) (listed s.peers))
          | inr other ↦
              let there : lookup m rooms ≡ some r =
                ground (arith, h, lookup-cons m name s rooms, other) in
              All-map (λ q. spared (dead_ids rest) q ≡ false) _ r.peers
                (λ q k. ground (arith, k, among-append q s.peers rest)) (listed_in m r rooms there)
        ]

  -- The transport has closed, or ICE has been away for twenty seconds.
  abbrev pub is_lost : ℕ → Peer d → Bool
  is_lost now p =
      if d.is_alive p.rtc
      then elim p.disconnected_since [
        | none ↦ false
        | some since ↦ leb 20_000_000_000 (now - since)
      ]
      else true

  is_dead-lost : (now : ℕ) (p : Peer d) → is_dead now p ≡ is_lost now p
  unfolding is_dead is_abandoned
  is_dead-lost now p = ground arith

  -- A lost peer with this id is among the peers.
  abbrev pub has_lost : (now j : ℕ) → List (Peer d) → Bool
  has_lost now j [] = false
  has_lost now j (p ∷ ps) = if is_lost now p && (p.id == j) then true else has_lost now j ps

  any-dead_ids :
      (now j : ℕ) (ps : List (Peer d))
      → any (λ i. i == j) (map (λ (p : Peer d). p.id) (keep (is_dead now) ps)) ≡ has_lost now j ps
  any-dead_ids now j [] = refl
  any-dead_ids now j (p ∷ ps) = ground (arith, any-dead_ids now j ps, is_dead-lost now p)

  abbrev pub peers_of : Engine d → List (Peer d)
  peers_of e = gather (λ (entry : String × Room d). entry.1.peers) e.rooms

  pub reap_lem :
      (now : ℕ) (e : Engine d) (m : String) (r : Room d) (j : ℕ)
      → IsValid e
      → lookup m (reap now e).rooms ≡ some r
      → All (λ (p : Peer d). is_lost now p ≡ false) r.peers
        × (lookup j (reap now e).peer_rooms
            ≡ (if has_lost now j (peers_of e) then none else lookup j e.peer_rooms))
  unfolding reap dead_peers spared among dead_ids
  reap_lem now e m r j v there = (
    All-map (λ p. spared now [] p ≡ false) _ r.peers (λ p h. ground (arith, h, is_dead-lost now p))
        (swept-drop_all now (dead_peers now e) e v (λ n s h. listed_in now n s e.rooms h) m r
          there),
    home-drop_all now (dead_peers now e) e j v
        ∙ ap (λ b. if b then none else lookup j e.peer_rooms) (any-dead_ids now j (peers_of e)),
  )
