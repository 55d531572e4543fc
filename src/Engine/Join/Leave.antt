-- ===== src/Engine/Join/Leave.antt =====
-- src/sfu/join.rs, `drop_peer` and `reap`, on the view of who sits where.
use ababilx_chat_sfu.Shared.{
  ℕ, ◌≡◌, ◌≢◌, ap, ◌⊎◌, fun_ext, String, true, none, some, List, [], ◌∷◌, arith, if◌then◌else◌,
  ◌==◌, nat_Eq, string_Eq, Bool-cases, Option-cases, inl, inr, lookup, insert, remove,
  lookup-insert, lookup-remove,
}
use ababilx_chat_sfu.Media.{Deps}
use ababilx_chat_sfu.Config.{Config}
use ababilx_chat_sfu.Hall.{seated, vacate, leave_hall}
use ababilx_chat_sfu.Hall.Vacate.{vacate_absent, leave_hall-IsConsistent}
use ababilx_chat_sfu.Room.{Room, has_id, peer_of, is_empty}
use ababilx_chat_sfu.Room
use ababilx_chat_sfu.Engine.{Engine, emit, report_event}
use ababilx_chat_sfu.Engine.Seats.{seats_of, seats_in, hall, IsValid, remove-seated}
use ababilx_chat_sfu.Engine.Join.{
  report_left, close_if_empty, drop_peer, drop_from, drop_all, reap, dead_peers,
}

module _ {d : Deps} where
  -- What an id's home says of the rooms.
  home-room :
      (id : ℕ) (name : String) (e : Engine d)
      → IsValid e
      → lookup id e.peer_rooms ≡ some name
      → (r : Room d) × (lookup name e.rooms ≡ some r) × (seated id (seats_of r) ≡ true)
  home-room id name e v h = elim (Option-cases (lookup name e.rooms)) [
    | inl none_there ↦ ground (arith, v.consistent.known name id h)
    | inr (r, there) ↦ (r, there, ground (arith, v.consistent.known name id h))
  ]

  away :
      (id : ℕ) (m : String) (e : Engine d)
      → IsValid e
      → lookup id e.peer_rooms ≢ some m
      → vacate id (seats_in (lookup m e.rooms)) ≡ seats_in (lookup m e.rooms)
  away id m e v h = elim (Bool-cases (seated id (seats_in (lookup m e.rooms)))) [
    | inl s ↦ absurd (h (v.consistent.listed m id s))
    | inr s ↦ vacate_absent id (seats_in (lookup m e.rooms)) s
  ]

  members-drop_from :
      (id : ℕ) (name : String) (r : Room d) (e : Engine d) (m : String)
      → seated id (seats_of r) ≡ true
      → seats_in (lookup m (drop_from id name r e).rooms)
        ≡ (if name == m then vacate id (seats_of r) else seats_in (lookup m e.rooms))
  unfolding drop_from report_left close_if_empty is_empty emit report_event
  members-drop_from id name r e m s =
      let (p, found, gone, seats) = remove-seated id r s in
      ground (
        arith,
        gone,
        seats,
        lookup-insert name m (Room.remove id r).1 e.rooms,
        lookup-remove name m (insert name (Room.remove id r).1 e.rooms),
      )

  rooms-drop_from :
      (id : ℕ) (name : String) (r : Room d) (e : Engine d) (m : String) (q : Room d)
      → seated id (seats_of r) ≡ true
      → lookup m (drop_from id name r e).rooms ≡ some q
      → (q.peers ≢ []) ⊎ (lookup m e.rooms ≡ some q)
  unfolding drop_from report_left close_if_empty is_empty emit report_event
  rooms-drop_from id name r e m q s h =
      let (p, found, gone, seats) = remove-seated id r s in
      ground (
        arith,
        gone,
        lookup-insert name m (Room.remove id r).1 e.rooms,
        lookup-remove name m (insert name (Room.remove id r).1 e.rooms),
      )

  record SameOutside (e f : Engine d) : Type 0 where
    same_config : f.config ≡ e.config
    same_next : f.next_peer ≡ e.next_peer

  drop_from-SameOutside :
      (id : ℕ) (name : String) (r : Room d) (e : Engine d) → SameOutside e (drop_from id name r e)
  unfolding drop_from report_left close_if_empty emit report_event
  drop_from-SameOutside id name r e = ground arith

  peer_rooms-drop_from :
      (id : ℕ) (name : String) (r : Room d) (e : Engine d)
      → (drop_from id name r e).peer_rooms ≡ e.peer_rooms
  unfolding drop_from report_left close_if_empty emit report_event
  peer_rooms-drop_from id name r e = ground arith

  drop_peer-SameOutside : (id : ℕ) (e : Engine d) → SameOutside e (drop_peer id e)
  unfolding drop_peer
  drop_peer-SameOutside id e = grind (arith, drop_from-SameOutside)

  pub next-drop_peer : (id : ℕ) (e : Engine d) → (drop_peer id e).next_peer ≡ e.next_peer
  next-drop_peer id e = (drop_peer-SameOutside id e).same_next

  members-drop_peer :
      (id : ℕ) (e : Engine d) (m : String)
      → IsValid e
      → seats_in (lookup m (drop_peer id e).rooms) ≡ vacate id (seats_in (lookup m e.rooms))
  unfolding drop_peer
  members-drop_peer id e m v = elim (Option-cases (lookup id e.peer_rooms)) [
    | inl homeless ↦ ground (arith, away id m e v)
    | inr (name, h) ↦
        let (r, there, s) = home-room id name e v h in
        let e' : Engine d = record e { peer_rooms = remove id e.peer_rooms } in
        rw (h, there, drop_peer)
          (ground (
            arith,
            members-drop_from id name r e' m s,
            string_Eq.matches_iff name m,
            away id m e v,
          ))
  ]

  home-drop_peer :
      (id : ℕ) (e : Engine d) (j : ℕ)
      → lookup j (drop_peer id e).peer_rooms ≡ (if id == j then none else lookup j e.peer_rooms)
  unfolding drop_peer
  home-drop_peer id e j = grind (arith, peer_rooms-drop_from, lookup-remove id j e.peer_rooms)

  -- On the view, a peer that is dropped gives up its seat wherever it sits and loses its home, and
  -- nothing else changes.
  pub hall-drop_peer :
      (id : ℕ) (e : Engine d) → IsValid e → hall (drop_peer id e) ≡ leave_hall id (hall e)
  hall-drop_peer id e v = λ i. record {
    members = fun_ext (λ m. members-drop_peer id e m v) i;
    home = fun_ext (λ j. home-drop_peer id e j) i;
  }

  rooms-drop_peer :
      (id : ℕ) (e : Engine d) (m : String) (q : Room d)
      → IsValid e
      → lookup m (drop_peer id e).rooms ≡ some q
      → q.peers ≢ []
  unfolding drop_peer
  rooms-drop_peer id e m q v = elim (Option-cases (lookup id e.peer_rooms)) [
    | inl homeless ↦ rw (homeless, drop_peer) (v.no_empty m q)
    | inr (name, h) ↦
        let (r, there, s) = home-room id name e v h in
        let e' : Engine d = record e { peer_rooms = remove id e.peer_rooms } in
        rw (h, there, drop_peer)
          (λ x. elim (rooms-drop_from id name r e' m q s x) [
            | inl n ↦ n
            | inr old ↦ v.no_empty m q old
          ])
  ]

  -- Dropping a peer keeps the invariant.
  pub drop_peer-IsValid : (id : ℕ) (e : Engine d) → IsValid e → IsValid (drop_peer id e)
  drop_peer-IsValid id e v =
      let same = drop_peer-SameOutside id e in
      record {
        consistent =
            rw
              (
                hall-drop_peer id e v,
                ap (λ (c : Config d). c.max_room_peers) same.same_config,
                same.same_next,
              )
              (leave_hall-IsConsistent _ _ id (hall e) v.consistent);
        room_for_one = rw same.same_config v.room_for_one;
        no_empty = λ m q. rooms-drop_peer id e m q v;
      }

  drop_all-IsValid : (ids : List ℕ) (e : Engine d) → IsValid e → IsValid (drop_all ids e)
  unfolding drop_all
  drop_all-IsValid [] e v = v
  drop_all-IsValid (id ∷ ids) e v = drop_all-IsValid ids (drop_peer id e) (drop_peer-IsValid id e v)

  pub reap-IsValid : (now : ℕ) (e : Engine d) → IsValid e → IsValid (reap now e)
  unfolding reap
  reap-IsValid now e v = drop_all-IsValid (dead_peers now e) e v
