-- ===== src/Engine/Join/Arrive.antt =====
-- src/sfu/join.rs, the part of `handle_join` that seats the new peer, on the view of who sits where.
use ababilx_chat_sfu.Shared.{
  ℕ, ◌≡◌, ◌≢◌, refl, ap, sym, ◌∙◌, fun_ext, String, not, none, some, [], map, arith, if◌then◌else◌,
  ◌==◌, nat_Eq, string_Eq, Bool-cases, inl, inr, lookup, lookup-insert, keep,
}
use ababilx_chat_sfu.Media.{Deps}
use ababilx_chat_sfu.Hall.{of_user, seated, sit, Distinct, enter_hall}
use ababilx_chat_sfu.Peer.{Peer}
use ababilx_chat_sfu.Room.{Room}
use ababilx_chat_sfu.Engine.{Engine, JoinRequest, emit}
use ababilx_chat_sfu.Engine.Seats.{seat_of, seats_of, seats_in, hall}
use ababilx_chat_sfu.Engine.Join.{stale, room_or_new, vacated, seated_room, seat}
use ababilx_chat_sfu.Engine.Join.Retire.{
  vacate_all-keep, ids_of, seats-retire, home-retire, stale_ids, seats-subscribe_to_existing,
  seats-room_or_new, seats-append-one, sit-ne-nil,
}

module _ {d : Deps} where
  module _ (q : JoinRequest) (e : Engine d)
      (distinct : (m : String) → Distinct (seats_in (lookup m e.rooms))) where
    stale_lem :
        stale q.claims.sub (room_or_new q e)
        ≡ ids_of (keep (of_user q.claims.sub) (seats_in (lookup q.claims.room e.rooms)))
    unfolding stale
    stale_lem = rw (← seats-room_or_new q e) (stale_ids q.claims.sub (room_or_new q e).peers)

    seats-vacated :
        seats_of (vacated q e).room
        ≡ keep (λ s. not (of_user q.claims.sub s)) (seats_in (lookup q.claims.room e.rooms))
    unfolding vacated
    seats-vacated =
        rw (stale_lem, seats-retire, seats-room_or_new q e)
          (vacate_all-keep q.claims.sub (seats_in (lookup q.claims.room e.rooms))
            (distinct q.claims.room))

    home-vacated :
        (j : ℕ)
        → lookup j (vacated q e).peer_rooms ≡ (
            if seated j (keep (of_user q.claims.sub) (seats_in (lookup q.claims.room e.rooms)))
            then none
            else lookup j e.peer_rooms)
    unfolding vacated
    home-vacated j = rw stale_lem (home-retire _ _ j)

    seats-seated_room :
        (p : Peer d)
        → p.user_id ≡ q.claims.sub
        → seats_of (seated_room q p e)
          ≡ sit p.id q.claims.sub (seats_in (lookup q.claims.room e.rooms))
    unfolding seated_room
    seats-seated_room p u =
        rw (seats-subscribe_to_existing, seats-append-one, seats-vacated) (rw u refl)

    members-seat :
        (p : Peer d) (sdp : String) (m : String)
        → p.user_id ≡ q.claims.sub
        → seats_in (lookup m (seat q p sdp e).rooms) ≡ (
            if q.claims.room == m
            then sit p.id q.claims.sub (seats_in (lookup m e.rooms))
            else seats_in (lookup m e.rooms))
    unfolding seat emit
    members-seat p sdp m u = rw lookup-insert (elim (Bool-cases (q.claims.room == m)) [
      | inl here ↦
          rw (here, ← (string_Eq.matches_iff q.claims.room m).0 here) (seats-seated_room p u)
      | inr other ↦ rw other refl
    ])

    home-seat :
        (p : Peer d) (sdp : String) (j : ℕ)
        → lookup j (seat q p sdp e).peer_rooms ≡ (
            if p.id == j
            then some q.claims.room
            else if seated j (keep (of_user q.claims.sub) (seats_in (lookup q.claims.room e.rooms)))
            then none
            else lookup j e.peer_rooms)
    unfolding seat emit
    home-seat p sdp j = rw lookup-insert (rw home-vacated refl)

    -- On the view, a peer that is seated enters the room.
    pub hall-seat :
        (p : Peer d) (sdp : String)
        → p.user_id ≡ q.claims.sub
        → hall (seat q p sdp e) ≡ enter_hall p.id q.claims.sub q.claims.room (hall e)
    hall-seat p sdp u = λ i. record {
      members = fun_ext (λ m. members-seat p sdp m u) i;
      home = fun_ext (λ j. home-seat p sdp j) i;
    }

    pub no_empty-seat :
        (p : Peer d) (sdp : String) (m : String) (r : Room d)
        → p.user_id ≡ q.claims.sub
        → ((n : Room d) → lookup m e.rooms ≡ some n → n.peers ≢ [])
        → lookup m (seat q p sdp e).rooms ≡ some r
        → r.peers ≢ []
    unfolding seat emit
    no_empty-seat p sdp m r u old h empty = elim (Bool-cases (q.claims.room == m)) [
      | inl here ↦
          let none_left : (seated_room q p e).peers ≡ [] =
            ground
              (arith, here, empty, lookup-insert q.claims.room m (seated_room q p e) e.rooms) in
          absurd (
            sit-ne-nil p.id q.claims.sub (seats_in (lookup q.claims.room e.rooms))
              (sym (seats-seated_room p u) ∙ ap (map seat_of) none_left))
      | inr other ↦
          old r (ground (arith, lookup-insert q.claims.room m (seated_room q p e) e.rooms)) empty
    ]
