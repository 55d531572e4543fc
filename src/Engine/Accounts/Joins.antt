-- ===== src/Engine/Accounts/Joins.antt =====
-- src/sfu/join.rs, `handle_join`: a join leaves the accounts balanced.
use mathlib.Core.Option
use ababilx_chat_sfu.Shared.{
  ℕ, ◌+◌, ◌%◌, ◌≤◌, ◌≡◌, refl, ap, String, false, List, [], ◌∷◌, ◌++◌, map, arith, ◌==◌, string_Eq,
  lookup, lookup-insert, Option-cases, Bool-cases, inl, inr,
}
use ababilx_chat_sfu.Media.{Deps}
use ababilx_chat_sfu.Peer.{Peer}
use ababilx_chat_sfu.Room.{
  Room, has_id, peer_of, removed, subscribe, subscribe_all, existing, subscribe_to_existing,
}
use ababilx_chat_sfu.Room
use ababilx_chat_sfu.Engine.{Engine, JoinRequest, emit}
use ababilx_chat_sfu.Engine.Cards.{card_of, cards_of, cards-update_first}
use ababilx_chat_sfu.Engine.Join.{
  Seating, u64_mod, stale, retire_one, retire, room_or_new, vacated, seated_room, seat, handle_join,
}
use ababilx_chat_sfu.Engine.Join.Enter.{join_cases}
use ababilx_chat_sfu.Engine.Join.Replaced.{told-handle_join}
use ababilx_chat_sfu.Engine.Accounts.{tally, reported_in, reported_among, Balances}
use ababilx_chat_sfu.Engine.Accounts.Leaves.{reported-remove_first}

module _ {d : Deps} where
  reported-retire_one :
      (user : String) (old : ℕ) (s : Seating d)
      → reported_in user (cards_of (retire_one old s).room) ≤ reported_in user (cards_of s.room)
  unfolding retire_one Room.remove removed peer_of
  reported-retire_one user old s = elim (Option-cases (peer_of old s.room)) [
    | inl out ↦ ground (arith, out)
    | inr (p, found) ↦ ground (arith, found, reported-remove_first user old s.room.peers p found)
  ]

  reported-retire :
      (user : String) (ids : List ℕ) (s : Seating d)
      → reported_in user (cards_of (retire ids s).room) ≤ reported_in user (cards_of s.room)
  unfolding retire
  reported-retire user [] s = omega arith
  reported-retire user (old ∷ ids) s =
      omega (arith, reported-retire user ids (retire_one old s), reported-retire_one user old s)

  card-subscribe_all : (ws : List ℕ) (p : Peer d) → card_of (subscribe_all ws p) ≡ card_of p
  unfolding subscribe_all subscribe
  card-subscribe_all [] p = refl
  card-subscribe_all (w ∷ ws) p = card-subscribe_all ws (subscribe w p)

  reported-append-one :
      (user : String) (ps : List (Peer d)) (p : Peer d)
      → p.reported ≡ false
      → reported_in user (map card_of (ps ++ p ∷ [])) ≡ reported_in user (map card_of ps)
  reported-append-one user [] p new = ground (arith, new)
  reported-append-one user (q ∷ ps) p new = omega (arith, reported-append-one user ps p new)

  reported-room_or_new :
      (user : String) (q : JoinRequest) (e : Engine d)
      → reported_in user (cards_of (room_or_new q e))
        ≡ reported_among user (Option.map cards_of (lookup q.claims.room e.rooms))
  unfolding room_or_new Room.new
  reported-room_or_new user q e = ground arith

  reported-seated_room :
      (user : String) (q : JoinRequest) (p : Peer d) (e : Engine d)
      → p.reported ≡ false
      → reported_in user (cards_of (seated_room q p e))
        ≤ reported_among user (Option.map cards_of (lookup q.claims.room e.rooms))
  unfolding seated_room subscribe_to_existing vacated
  reported-seated_room user q p e new =
      let s : Seating d = record {
        room = room_or_new q e;
        peer_rooms = e.peer_rooms;
        arcs = e.arcs;
        effects = [];
      } in
      let r = (retire (stale q.claims.sub (room_or_new q e)) s).room in
      let entered : Room d = record r { peers = r.peers ++ p ∷ [] } in
      let same = ap (reported_in user) (
        cards-update_first (has_id p.id) (subscribe_all (existing p.id entered)) entered.peers
          (card-subscribe_all (existing p.id entered))) in
      omega (
        arith,
        same,
        reported-append-one user r.peers p new,
        reported-retire user (stale q.claims.sub (room_or_new q e)) s,
        reported-room_or_new user q e,
      )

  -- Nobody whose arrival was reported comes to a room.
  IsThinner : Engine d → Engine d → Type 0
  IsThinner e f =
      (room user : String)
      → reported_among user (Option.map cards_of (lookup room f.rooms))
        ≤ reported_among user (Option.map cards_of (lookup room e.rooms))

  seat-IsThinner :
      (q : JoinRequest) (p : Peer d) (sdp : String) (e : Engine d)
      → p.reported ≡ false
      → IsThinner e (seat q p sdp e)
  unfolding seat emit IsThinner
  seat-IsThinner q p sdp e new room user = elim (Bool-cases (q.claims.room == room)) [
    | inl this ↦
        let here =
          ap (λ n. reported_among user (Option.map cards_of (lookup n e.rooms)))
            ((string_Eq.matches_iff q.claims.room room).0 this) in
        ground (
          arith,
          this,
          here,
          lookup-insert q.claims.room room (seated_room q p e) e.rooms,
          reported-seated_room user q p e new,
        )
    | inr other ↦
        ground (arith, other, lookup-insert q.claims.room room (seated_room q p e) e.rooms)
  ]

  handle_join-IsThinner :
      (now : ℕ) (q : JoinRequest) (e : Engine d) → IsThinner e (handle_join now q e)
  unfolding emit IsThinner
  handle_join-IsThinner now q e =
      join_cases (IsThinner e) now q e (λ fx no room user. omega arith)
        (λ fx no room user. omega arith)
        (λ p sdp granted x.
          seat-IsThinner q p sdp (record e { next_peer = (e.next_peer + 1) % u64_mod })
            x.unreported)

  pub Balances-handle_join :
      (now : ℕ) (q : JoinRequest) (e : Engine d) → Balances e (handle_join now q e)
  unfolding IsThinner
  Balances-handle_join now q e = record {
    covered = λ room user.
        let l = ap (tally "participant_left" room user) (told-handle_join now q e) in
        let j = ap (tally "participant_joined" room user) (told-handle_join now q e) in
        omega (arith, l, j, handle_join-IsThinner now q e room user);
  }
