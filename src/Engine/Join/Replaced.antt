-- ===== src/Engine/Join/Replaced.antt =====
-- src/sfu/join.rs, `handle_join`: a join tells the host application nothing.
use mathlib.Core.List.{append-nil}
use ababilx_chat_sfu.Shared.{
  ℕ, ◌+◌, ◌%◌, ◌≡◌, refl, ◌∙◌, String, some, List, [], ◌∷◌, ◌++◌, arith, Option-cases, inl, inr,
  Bool-cases, Result-cases, Result, ok, err,
}
use ababilx_chat_sfu.Media.{Deps}
use ababilx_chat_sfu.Proto.{ServerMsg}
use ababilx_chat_sfu.Tracks.{as_string}
use ababilx_chat_sfu.Peer.{Peer, Effect, message, assigned, send, info}
use ababilx_chat_sfu.Peer.Negotiate.{accept_offer}
use ababilx_chat_sfu.Room.{Room, peer_of, removed, broadcast, roster}
use ababilx_chat_sfu.Room
use ababilx_chat_sfu.Engine.{Engine, JoinRequest}
use ababilx_chat_sfu.Engine.Told.{told, told-append, told-emit, told-broadcast}
use ababilx_chat_sfu.Engine.Join.{
  Seating, u64_mod, refusal, is_full, admit_peer, retire_one, retire, stale, room_or_new, vacated,
  seat, answered_join, handle_join,
}

module _ {d : Deps} where
  told-retire_one : (old : ℕ) (s : Seating d) → told (retire_one old s).effects ≡ told s.effects
  unfolding retire_one Room.remove send
  told-retire_one old s = elim (Option-cases (peer_of old s.room)) [
    | inl out ↦ ground (arith, out)
    | inr (p, found) ↦ ground (
      arith,
      found,
      told-append
          (s.effects ++ broadcast (removed old s.room) (ServerMsg.peer_left (as_string old)))
          (message p.out (ServerMsg.error "replaced" "Joined from another tab.") ∷ []),
      told-append s.effects (broadcast (removed old s.room) (ServerMsg.peer_left (as_string old))),
      told-broadcast (removed old s.room) (ServerMsg.peer_left (as_string old)),
      append-nil (told s.effects),
    )
  ]

  told-retire : (olds : List ℕ) (s : Seating d) → told (retire olds s).effects ≡ told s.effects
  unfolding retire
  told-retire [] s = refl
  told-retire (old ∷ olds) s = told-retire olds (retire_one old s) ∙ told-retire_one old s

  told-vacated : (q : JoinRequest) (e : Engine d) → told (vacated q e).effects ≡ []
  unfolding vacated
  told-vacated q e = told-retire (stale q.claims.sub (room_or_new q e)) _

  quiet_append : (fx gx : List (Effect d)) → told fx ≡ [] → told gx ≡ [] → told (fx ++ gx) ≡ []
  quiet_append fx gx f g = rw (told-append fx gx, f) g

  told-seat :
      (q : JoinRequest) (p : Peer d) (sdp : String) (e : Engine d)
      → told (seat q p sdp e).log ≡ told e.log
  unfolding seat send
  told-seat q p sdp e =
      let s = vacated q e in
      let hello = send p (ServerMsg.joined (as_string p.id) q.claims.call_id sdp (roster s.room)) in
      let news = broadcast s.room (ServerMsg.peer_joined (info p)) in
      let reply : List (Effect d) = assigned q.assigned (some p.id) ∷ [] in
      told-emit (s.effects ++ hello ++ news ++ reply) _ (
        quiet_append (s.effects ++ hello ++ news) reply
          (quiet_append (s.effects ++ hello) news
            (quiet_append s.effects hello (told-vacated q e) refl)
            (told-broadcast s.room (ServerMsg.peer_joined (info p))))
          refl)

  told-answered_join :
      (q : JoinRequest) (e : Engine d) (r : Result String String) (p : Peer d)
      → told (answered_join q e (r, p)).log ≡ told e.log
  unfolding answered_join send
  told-answered_join q e (ok sdp) p = told-seat q p sdp e
  told-answered_join q e (err _) p = told-emit _ e refl

  -- A join, granted or refused, tells the host application nothing: no arrival before the media flows,
  -- and no departure of the user's peers that it replaces.
  pub told-handle_join :
      (now : ℕ) (q : JoinRequest) (e : Engine d) → told (handle_join now q e).log ≡ told e.log
  unfolding handle_join refusal
  told-handle_join now q e = elim (Bool-cases (is_full e q.claims.room)) [
    | inl full ↦ rw (full, handle_join) (told-emit _ e refl)
    | inr fits ↦ elim (Result-cases (d.offer_from_sdp q.sdp)) [
      | inr (x, bad) ↦ rw (fits, bad, handle_join) (told-emit _ e refl)
      | inl (o, good) ↦
          rw (fits, good, handle_join)
            (told-answered_join q (record e { next_peer = (e.next_peer + 1) % u64_mod })
              (accept_offer (admit_peer now q e) o).0 (accept_offer (admit_peer now q e) o).1)
    ]
  ]
