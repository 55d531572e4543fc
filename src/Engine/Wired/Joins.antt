-- ===== src/Engine/Wired/Joins.antt =====
-- src/sfu/join.rs, `handle_join`: a join, granted or refused, leaves the engine wired.
use ababilx_chat_sfu.Shared.{
  ℕ, suc, ◌+◌, ◌%◌, ◌<◌, ◌≡◌, ◌∙◌, sym, ap, subst, String, true, List, [], ◌∷◌, ◌++◌, arith, ◌==◌,
  Option-cases, Bool-cases, inl, inr, lookup, lookup-insert, string_Eq, nat_Eq,
}
use ababilx_chat_sfu.Shared.Keys.{Unique-insert}
use ababilx_chat_sfu.Media.{Deps}
use ababilx_chat_sfu.Peer.{Peer}
use ababilx_chat_sfu.Room.{Room, peer_of, removed, subscribe_to_existing}
use ababilx_chat_sfu.Room
use ababilx_chat_sfu.Hall.{Seat, seated, Distinct}
use ababilx_chat_sfu.Hall.Sit.{seated-Below}
use ababilx_chat_sfu.Engine.{Engine, JoinRequest, emit}
use ababilx_chat_sfu.Engine.Seats.{seats_of, seats_in, IsValid}
use ababilx_chat_sfu.Engine.Join.{
  u64_mod, stale, room_or_new, vacated, seated_room, seat, handle_join,
}
use ababilx_chat_sfu.Engine.Join.Enter.{IsNewcomer, join_cases}
use ababilx_chat_sfu.Engine.Join.Retire.{seats-room_or_new}
use ababilx_chat_sfu.Engine.Wired.{IsMeshed}
use ababilx_chat_sfu.Wiring.Rooms.{here, IsWired}
use ababilx_chat_sfu.Wiring.Joins.{IsWired-joined}
use ababilx_chat_sfu.Engine.Wired.Clears.{IsClearing, IsClearing-retire}

module _ {d : Deps} where
  module _ (q : JoinRequest) (e : Engine d) (v : IsValid e) (w : IsMeshed e) where
    in_room : List Seat
    in_room = seats_in (lookup q.claims.room e.rooms)

    IsWired-room_or_new : IsWired e.arcs (room_or_new q e)
    unfolding room_or_new Room.new
    IsWired-room_or_new = elim (Option-cases (lookup q.claims.room e.rooms)) [
      | inl new_room ↦ rw (new_room, room_or_new) tt
      | inr (r, there) ↦ rw (there, room_or_new) (w.wired q.claims.room r there)
    ]

    IsClearing-vacated : IsClearing e.next_peer q.claims.room e.rooms (vacated q e)
    unfolding vacated in_room
    IsClearing-vacated =
        let seats : seats_of (room_or_new q e) ≡ in_room = seats-room_or_new q e in
        IsClearing-retire e.next_peer q.claims.room e.rooms (stale q.claims.sub (room_or_new q e)) _
          (record {
            fresh = w.fresh;
            origins = w.origins;
            distinct = subst Distinct (sym seats) (v.consistent.distinct q.claims.room);
            absent =
                ap (seated e.next_peer) seats ∙ elim (Bool-cases (seated e.next_peer in_room)) [
                  | inl sits ↦ absurd (
                      omega (
                        arith,
                        seated-Below e.next_peer e.next_peer in_room
                            (v.consistent.below q.claims.room) sits,
                      ))
                  | inr out ↦ out
                ];
            wired = IsWired-room_or_new;
            others = λ m r other there. (
              λ j sits. elim (Bool-cases (here r j)) [
                | inl also ↦ absurd (
                    ground (
                      arith,
                      other,
                      string_Eq.matches_iff q.claims.room m,
                      v.consistent.listed q.claims.room j (sym (ap (seated j) seats) ∙ sits),
                      v.consistent.listed m j
                          (subst (λ o. seated j (seats_in o) ≡ true) (sym there) also),
                    ))
                | inr out ↦ out
              ],
              w.wired m r there,
            );
          })

    module _ (ids_left : e.next_peer + 1 < u64_mod) where
      drawn : Engine d
      drawn = record e { next_peer = (e.next_peer + 1) % u64_mod }

      bumped : (e.next_peer + 1) % u64_mod ≡ suc e.next_peer
      bumped = omega arith

      IsMeshed-seat :
          (p : Peer d) (sdp : String) → IsNewcomer e.next_peer q p → IsMeshed (seat q p sdp drawn)
      unfolding seat seated_room vacated room_or_new drawn emit
      IsMeshed-seat p sdp x =
          let c = IsClearing-vacated in
          let s = vacated q e in
          let joined : IsWired s.arcs (seated_room q p e) =
            subst
              (λ id.
                IsWired s.arcs
                  (subscribe_to_existing id (record s.room { peers = s.room.peers ++ p ∷ [] })))
              (sym x.next_id)
              (IsWired-joined s.arcs e.next_peer s.room p c.fresh c.origins c.distinct c.absent
                c.wired x.next_id x.no_in x.no_out) in
          record {
            unique = Unique-insert q.claims.room (seated_room q p e) e.rooms w.unique;
            fresh = c.fresh;
            origins = λ a t there. omega (arith, bumped, c.origins a t there);
            wired = λ m r found. elim (Bool-cases (q.claims.room == m)) [
              | inl this ↦
                  let put : seated_room q p e ≡ r = ground (
                    arith,
                    found,
                    this,
                    lookup-insert q.claims.room m (seated_room q p e) e.rooms,
                  ) in
                  subst (IsWired s.arcs) put joined
              | inr other ↦
                  (c.others m r other (
                    ground (
                      arith,
                      found,
                      other,
                      lookup-insert q.claims.room m (seated_room q p e) e.rooms,
                    ))).1
            ];
          }

      pub IsMeshed-handle_join : (now : ℕ) → IsMeshed (handle_join now q e)
      unfolding emit drawn
      IsMeshed-handle_join now =
          join_cases IsMeshed now q e
            (λ fx no. record {
              unique = w.unique;
              fresh = w.fresh;
              origins = w.origins;
              wired = w.wired;
            })
            (λ fx no. record {
              unique = w.unique;
              fresh = w.fresh;
              origins = λ a t there. omega (arith, bumped, w.origins a t there);
              wired = w.wired;
            })
            (λ p sdp granted x. IsMeshed-seat p sdp x)
