-- ===== src/Engine/Join/Replies.antt =====
-- src/sfu/join.rs, `handle_join`: the answer to a join, for which the session on the socket waits.
use ababilx_chat_sfu.Shared.{
  ℕ, ◌+◌, ◌%◌, ◌≡◌, refl, ap, ◌∙◌, String, true, false, Option, none, some, Result, ok, err, List,
  [], ◌∷◌, ◌++◌, if◌then◌else◌, gather, Bool-cases, Option-cases, Result-cases, inl, inr,
}
use ababilx_chat_sfu.Media.{Deps}
use ababilx_chat_sfu.Proto.{ServerMsg}
use ababilx_chat_sfu.Tracks.{as_string}
use ababilx_chat_sfu.Peer.{Peer, Effect, message, datagram, report, assigned, send, info}
use ababilx_chat_sfu.Peer
use ababilx_chat_sfu.Peer.Negotiate.{accept_offer}
use ababilx_chat_sfu.Room.{Room, broadcast, removed, peer_of, roster}
use ababilx_chat_sfu.Room
use ababilx_chat_sfu.Engine.{Engine, JoinRequest, emit}
use ababilx_chat_sfu.Engine.Join.{
  Seating, u64_mod, is_full, admit_peer, stale, retire_one, retire, room_or_new, vacated, seat,
  answered_join, refusal, handle_join,
}
use ababilx_chat_sfu.Engine.Join.Enter.{is_granted}

module _ {d : Deps} where
  -- The answers to joins: whose, and the id that was assigned.
  abbrev pub replies : List (Effect d) → List (ℕ × Option ℕ)
  replies [] = []
  replies (message _ _ ∷ fx) = replies fx
  replies (datagram _ ∷ fx) = replies fx
  replies (report _ ∷ fx) = replies fx
  replies (assigned reply id ∷ fx) = (reply, id) ∷ replies fx

  replies-append : (fx gx : List (Effect d)) → replies (fx ++ gx) ≡ replies fx ++ replies gx
  replies-append [] gx = refl
  replies-append (message _ _ ∷ fx) gx = replies-append fx gx
  replies-append (datagram _ ∷ fx) gx = replies-append fx gx
  replies-append (report _ ∷ fx) gx = replies-append fx gx
  replies-append (assigned reply id ∷ fx) gx = ap (λ l. (reply, id) ∷ l) (replies-append fx gx)

  -- Effects without an answer.
  silent_append : (fx gx : List (Effect d)) → replies fx ≡ [] → replies (fx ++ gx) ≡ replies gx
  silent_append fx gx f = rw (replies-append fx gx, f) refl

  replies-gather-send :
      (m : ServerMsg) (ps : List (Peer d)) → replies (gather (λ p. send p m) ps) ≡ []
  unfolding send
  replies-gather-send m [] = refl
  replies-gather-send m (p ∷ ps) = replies-gather-send m ps

  replies-broadcast : (r : Room d) (m : ServerMsg) → replies (broadcast r m) ≡ []
  unfolding broadcast
  replies-broadcast r m = replies-gather-send m r.peers

  replies-remove : (old : ℕ) (r : Room d) → replies (Room.remove old r).2 ≡ []
  unfolding Room.remove
  replies-remove old r = elim (Option-cases (peer_of old r)) [
    | inl out ↦ rw (out, Room.remove) refl
    | inr (p, found) ↦ rw (found, Room.remove) (replies-broadcast _ _)
  ]

  replies-retire_one :
      (old : ℕ) (s : Seating d) → replies s.effects ≡ [] → replies (retire_one old s).effects ≡ []
  unfolding retire_one Room.remove send
  replies-retire_one old s quiet = elim (Option-cases (peer_of old s.room)) [
    | inl out ↦ rw (out, retire_one) quiet
    | inr (p, found) ↦
        rw (found, retire_one)
          (silent_append (s.effects ++ (Room.remove old s.room).2) _
            (silent_append s.effects (Room.remove old s.room).2 quiet ∙ replies-remove old s.room))
  ]

  replies-retire :
      (olds : List ℕ) (s : Seating d)
      → replies s.effects ≡ []
      → replies (retire olds s).effects ≡ []
  unfolding retire
  replies-retire [] s quiet = quiet
  replies-retire (old ∷ olds) s quiet =
      replies-retire olds (retire_one old s) (replies-retire_one old s quiet)

  replies-seat :
      (q : JoinRequest) (p : Peer d) (sdp : String) (e : Engine d)
      → replies (seat q p sdp e).log ≡ replies e.log ++ (q.assigned, some p.id) ∷ []
  unfolding seat send emit vacated
  replies-seat q p sdp e =
      let s = vacated q e in
      let hello = send p (ServerMsg.joined (as_string p.id) q.claims.call_id sdp (roster s.room)) in
      let news = broadcast s.room (ServerMsg.peer_joined (info p)) in
      let reply : List (Effect d) = assigned q.assigned (some p.id) ∷ [] in
      let quiet : replies (s.effects ++ hello ++ news) ≡ [] =
        silent_append (s.effects ++ hello) news (
          silent_append s.effects hello
            (replies-retire (stale q.claims.sub (room_or_new q e)) _ refl))
        ∙ replies-broadcast s.room (ServerMsg.peer_joined (info p)) in
      replies-append e.log (s.effects ++ hello ++ news ++ reply)
      ∙ ap (λ l. replies e.log ++ l) (silent_append (s.effects ++ hello ++ news) reply quiet)

  replies-answered_join :
      (q : JoinRequest) (e : Engine d) (r : Result String String) (p : Peer d)
      → replies (answered_join q e (r, p)).log
        ≡ replies e.log ++ (q.assigned, elim r [ ok _ ↦ some p.id | err _ ↦ none ]) ∷ []
  unfolding answered_join send emit
  replies-answered_join q e (ok sdp) p = replies-seat q p sdp e
  replies-answered_join q e (err _) p = replies-append e.log _

  -- Every join is answered, and once: with the id of the new peer, which is the next one, if it is
  -- granted, and with no id if it is refused, for whatever reason.
  pub replies-handle_join :
      (now : ℕ) (q : JoinRequest) (e : Engine d)
      → replies (handle_join now q e).log
        ≡ replies e.log ++ (q.assigned, if is_granted now q e then some e.next_peer else none) ∷ []
  unfolding handle_join refusal emit is_granted accept_offer admit_peer Peer.new
  replies-handle_join now q e = elim (Bool-cases (is_full e q.claims.room)) [
    | inl full ↦ rw (full, handle_join) (replies-append e.log _)
    | inr fits ↦ elim (Result-cases (d.offer_from_sdp q.sdp)) [
      | inr (x, bad) ↦ rw (fits, bad, handle_join) (replies-append e.log _)
      | inl (o, good) ↦
          let f : Engine d = record e { next_peer = (e.next_peer + 1) % u64_mod } in
          let answer = accept_offer (admit_peer now q e) o in
          rw (fits, good, handle_join)
            (replies-answered_join q f answer.0 answer.1
              ∙ ap (λ id. replies e.log ++ (q.assigned, id) ∷ []) (granted_id answer.0))
    ]
  ]
    where
      granted_id :
          (r : Result String String)
          → (elim r [ ok _ ↦ some e.next_peer | err _ ↦ none ])
            ≡ (if (elim r [ ok _ ↦ true | err _ ↦ false ]) then some e.next_peer else none)
      granted_id (ok _) = refl
      granted_id (err _) = refl
