-- ===== src/Engine/Join/Enter.antt =====
-- src/sfu/join.rs, `handle_join`, on the view of who sits where.
use ababilx_chat_sfu.Shared.{
  ℕ, suc, ◌+◌, ◌%◌, ◌<◌, ◌≡◌, refl, ap, ◌∙◌, String, Bool, true, false, List, [], ◌∷◌, map, arith,
  if◌then◌else◌, nat_Eq, string_Eq, Bool-cases, Option-cases, Result-cases, inl, inr, lookup,
  length, ok, err,
}
use ababilx_chat_sfu.Media.{Deps}
use ababilx_chat_sfu.Config.{Config}
use ababilx_chat_sfu.Hall.{enter_hall}
use ababilx_chat_sfu.Hall.Sit.{enter_hall-IsConsistent, IsConsistent-suc}
use ababilx_chat_sfu.Peer.{Peer, Effect}
use ababilx_chat_sfu.Peer
use ababilx_chat_sfu.Peer.Negotiate.{accept_offer}
use ababilx_chat_sfu.Engine.{Engine, JoinRequest, emit}
use ababilx_chat_sfu.Engine.Seats.{seat_of, seats_in, hall, IsValid}
use ababilx_chat_sfu.Engine.Join.{u64_mod, is_full, admit_peer, seat, answered_join, handle_join}
use ababilx_chat_sfu.Engine.Join.Arrive.{hall-seat, no_empty-seat}

module _ {d : Deps} where
  -- Whether a join is granted: the room has a seat, the offer parses, and str0m takes it.
  unfoldable pub is_granted : ℕ → JoinRequest → Engine d → Bool
  is_granted now q e = if is_full e q.claims.room then false else elim (d.offer_from_sdp q.sdp) [
    | err _ ↦ false
    | ok o ↦ elim (accept_offer (admit_peer now q e) o).0 [ ok _ ↦ true | err _ ↦ false ]
  ]

  -- The peer `id` of the joining user, without tracks, whose arrival was not reported.
  pub record IsNewcomer (id : ℕ) (q : JoinRequest) (p : Peer d) : Type 0 where
    pub next_id : p.id ≡ id
    pub of_sub : p.user_id ≡ q.claims.sub
    pub no_in : p.tracks_in ≡ []
    pub no_out : p.tracks_out ≡ []
    pub unreported : p.reported ≡ false

  -- What `admit_peer` and `accept_offer` make.
  accepted_same :
      (now : ℕ) (q : JoinRequest) (e : Engine d) (o : d.SdpOffer)
      → IsNewcomer e.next_peer q (accept_offer (admit_peer now q e) o).1
  unfolding accept_offer admit_peer Peer.new
  accepted_same now q e o = record {
    next_id = refl;
    of_sub = refl;
    no_in = refl;
    no_out = refl;
    unreported = refl;
  }

  -- The cases of a join: refused before an id is drawn, refused by str0m, or seated.
  pub join_cases {ℓ} :
      (P : Engine d → Type ℓ) (now : ℕ) (q : JoinRequest) (e : Engine d)
      → ((fx : List (Effect d)) → is_granted now q e ≡ false → P (emit fx e))
      → ((fx : List (Effect d))
          → is_granted now q e ≡ false
          → P (emit fx (record e { next_peer = (e.next_peer + 1) % u64_mod })))
      → ((p : Peer d) (sdp : String)
          → is_granted now q e ≡ true
          → IsNewcomer e.next_peer q p
          → P (seat q p sdp (record e { next_peer = (e.next_peer + 1) % u64_mod })))
      → P (handle_join now q e)
  unfolding handle_join is_granted answered_join
  join_cases P now q e early late seated_case = elim (Bool-cases (is_full e q.claims.room)) [
    | inl full ↦ rw (full, handle_join) (early _ (ground arith))
    | inr fits ↦ elim (Result-cases (d.offer_from_sdp q.sdp)) [
      | inr (x, bad) ↦ rw (fits, bad, handle_join) (early _ (ground arith))
      | inl (o, good) ↦ elim (Result-cases (accept_offer (admit_peer now q e) o).0) [
        | inr (x, refused) ↦
            rw (fits, good, handle_join) (rw (refused, answered_join) (late _ (ground arith)))
        | inl (sdp, taken) ↦
            rw (fits, good, handle_join)
              (rw (taken, answered_join)
                (seated_case (accept_offer (admit_peer now q e) o).1 sdp (ground arith)
                  (accepted_same now q e o)))
      ]
    ]
  ]

  -- On the view, a join that is granted seats the user under the next id and retires the user's other
  -- peers in the room; a join that is refused changes nothing.
  pub hall-handle_join :
      (now : ℕ) (q : JoinRequest) (e : Engine d)
      → IsValid e
      → hall (handle_join now q e) ≡ (
          if is_granted now q e
          then enter_hall e.next_peer q.claims.sub q.claims.room (hall e)
          else hall e)
  unfolding emit
  hall-handle_join now q e v =
      join_cases
        (λ f. hall f ≡ (
          if is_granted now q e
          then enter_hall e.next_peer q.claims.sub q.claims.room (hall e)
          else hall e))
        now q e (λ fx no. rw no refl) (λ fx no. rw no refl)
        (λ p sdp granted x. rw granted (
          hall-seat q (record e { next_peer = (e.next_peer + 1) % u64_mod }) v.consistent.distinct p
            sdp x.of_sub
          ∙ ap (λ (n : ℕ). enter_hall n q.claims.sub q.claims.room (hall e)) x.next_id))

  length-seats : (ps : List (Peer d)) → length (map seat_of ps) ≡ length ps
  length-seats [] = refl
  length-seats (p ∷ ps) = ap suc (length-seats ps)

  granted_fits :
      (now : ℕ) (q : JoinRequest) (e : Engine d)
      → IsValid e
      → is_granted now q e ≡ true
      → length (seats_in (lookup q.claims.room e.rooms)) < e.config.max_room_peers
  unfolding is_granted is_full
  granted_fits now q e v granted = elim (Option-cases (lookup q.claims.room e.rooms)) [
    | inl new_room ↦ rw new_room v.room_for_one
    | inr (r, there) ↦ rw there (ground (arith, length-seats r.peers))
  ]

  seat-same :
      (q : JoinRequest) (p : Peer d) (sdp : String) (e : Engine d)
      → ((seat q p sdp e).config ≡ e.config) × ((seat q p sdp e).next_peer ≡ e.next_peer)
  unfolding seat emit
  seat-same q p sdp e = (refl, refl)

  module _ (now : ℕ) (q : JoinRequest) (e : Engine d) (v : IsValid e)
      (ids_left : e.next_peer + 1 < u64_mod) where
    bumped : (e.next_peer + 1) % u64_mod ≡ suc e.next_peer
    bumped = omega arith

    seat-IsValid :
        (p : Peer d) (sdp : String)
        → is_granted now q e ≡ true
        → IsNewcomer e.next_peer q p
        → IsValid (seat q p sdp (record e { next_peer = (e.next_peer + 1) % u64_mod }))
    seat-IsValid p sdp granted x =
        let e' : Engine d = record e { next_peer = (e.next_peer + 1) % u64_mod } in
        let (same_config, same_next) = seat-same q p sdp e' in
        record {
          consistent =
              rw
                (
                  hall-seat q e' v.consistent.distinct p sdp x.of_sub,
                  ap (λ (c : Config d). c.max_room_peers) same_config,
                  same_next,
                  bumped,
                  x.next_id,
                )
                (enter_hall-IsConsistent e.config.max_room_peers e.next_peer q.claims.sub
                  q.claims.room (hall e) v.consistent (granted_fits now q e v granted));
          room_for_one = rw same_config v.room_for_one;
          no_empty =
              λ m r h. no_empty-seat q e' v.consistent.distinct p sdp m r x.of_sub (v.no_empty m) h;
        }

    -- A join, granted or refused, keeps the invariant while ids are left.
    pub handle_join-IsValid : IsValid (handle_join now q e)
    unfolding emit
    handle_join-IsValid =
        join_cases IsValid now q e
          (λ fx no. record {
            consistent = v.consistent;
            room_for_one = v.room_for_one;
            no_empty = v.no_empty;
          })
          (λ fx no. record {
            consistent = rw bumped (IsConsistent-suc _ _ (hall e) v.consistent);
            room_for_one = v.room_for_one;
            no_empty = v.no_empty;
          })
          seat-IsValid
