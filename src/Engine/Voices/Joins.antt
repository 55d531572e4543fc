-- ===== src/Engine/Voices/Joins.antt =====
-- src/sfu/join.rs, `handle_join`: a join keeps the lists of speakers to those who are in the room.
use ababilx_chat_sfu.Shared.{
  ℕ, ◌+◌, ◌%◌, ◌≡◌, refl, sym, subst, String, true, List, [], ◌∷◌, ◌++◌, arith, string_Eq, All-map,
  Option-cases, inl, inr, lookup,
}
use ababilx_chat_sfu.Media.{Deps}
use ababilx_chat_sfu.Hall.{Seat}
use ababilx_chat_sfu.Peer.{Peer}
use ababilx_chat_sfu.Room.{Room, peer_of, subscribe_to_existing}
use ababilx_chat_sfu.Room
use ababilx_chat_sfu.Engine.{Engine, JoinRequest, emit}
use ababilx_chat_sfu.Engine.Seats.{seats_of}
use ababilx_chat_sfu.Engine.Join.{
  Seating, u64_mod, stale, retire_one, retire, room_or_new, vacated, seated_room, seat, handle_join,
}
use ababilx_chat_sfu.Engine.Join.Retire.{seats-subscribe_to_existing, seats-append-one}
use ababilx_chat_sfu.Engine.Join.Enter.{join_cases}
use ababilx_chat_sfu.Engine.Voices.{is_seated, Fits, Fits-remove, IsVoiced}
use ababilx_chat_sfu.Engine.Voices.Moves.{IsFit, IsVoiced-rooms, IsVoiced-insert}

seated_before :
    (s : String) (seats more : List Seat)
    → is_seated seats s ≡ true
    → is_seated (seats ++ more) s ≡ true
seated_before s [] more h = absurd (ground (arith, h))
seated_before s (t ∷ seats) more h = ground (arith, h, seated_before s seats more)

module _ {d : Deps} where
  IsFit-retire_one : (old : ℕ) (s : Seating d) → IsFit s.room → IsFit (retire_one old s).room
  unfolding retire_one Room.remove
  IsFit-retire_one old s h = elim (Option-cases (peer_of old s.room)) [
    | inl out ↦ rw (out, retire_one) h
    | inr (p, found) ↦ rw (found, retire_one) (Fits-remove old s.room h)
  ]

  IsFit-retire : (ids : List ℕ) (s : Seating d) → IsFit s.room → IsFit (retire ids s).room
  unfolding retire
  IsFit-retire [] s h = h
  IsFit-retire (old ∷ ids) s h = IsFit-retire ids (retire_one old s) (IsFit-retire_one old s h)

  IsFit-room_or_new : (q : JoinRequest) (e : Engine d) → IsVoiced e → IsFit (room_or_new q e)
  unfolding room_or_new Room.new
  IsFit-room_or_new q e v = elim (Option-cases (lookup q.claims.room e.rooms)) [
    | inl n ↦ rw (n, room_or_new) (tt, tt)
    | inr (r, there) ↦ rw (there, room_or_new) (v.heard q.claims.room r there)
  ]

  IsFit-enter : (r : Room d) (p : Peer d) → IsFit r → IsFit (record r { peers = r.peers ++ p ∷ [] })
  IsFit-enter r p h =
      rw seats-append-one
        (h.0, All-map _ _ r.speaking (λ s k. seated_before s (seats_of r) _ k) h.1)

  IsFit-seated_room :
      (q : JoinRequest) (p : Peer d) (e : Engine d) → IsVoiced e → IsFit (seated_room q p e)
  unfolding seated_room vacated subscribe_to_existing
  IsFit-seated_room q p e v =
      let r = (vacated q e).room in
      let fit : IsFit r =
        IsFit-retire (stale q.claims.sub (room_or_new q e)) _ (IsFit-room_or_new q e v) in
      let entered : Room d = record r { peers = r.peers ++ p ∷ [] } in
      subst (λ seats. Fits seats r.speaking) (sym (seats-subscribe_to_existing p.id entered))
        (IsFit-enter r p fit)

  IsVoiced-seat :
      (q : JoinRequest) (p : Peer d) (sdp : String) (e : Engine d)
      → IsVoiced e
      → IsVoiced (seat q p sdp e)
  unfolding seat emit
  IsVoiced-seat q p sdp e v =
      IsVoiced-insert q.claims.room (seated_room q p e) refl (IsFit-seated_room q p e v) v

  pub IsVoiced-handle_join :
      (now : ℕ) (q : JoinRequest) (e : Engine d) → IsVoiced e → IsVoiced (handle_join now q e)
  unfolding emit
  IsVoiced-handle_join now q e v =
      let drawn : IsVoiced (record e { next_peer = (e.next_peer + 1) % u64_mod }) =
        IsVoiced-rooms refl v in
      join_cases IsVoiced now q e (λ fx no. IsVoiced-rooms refl v) (λ fx no. IsVoiced-rooms refl v)
        (λ p sdp granted x. IsVoiced-seat q p sdp _ drawn)
