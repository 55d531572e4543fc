-- ===== src/Engine/Ticks/Wires.antt =====
-- src/sfu/engine_io.rs: reporting arrivals and speakers leaves every room wired.
use ababilx_chat_sfu.Shared.{
  ℕ, ◌-◌, ◌≡◌, refl, sym, ap, subst, String, Bool, some, List, [], ◌∷◌, map, All, arith, Bool-cases,
  inl, inr, lookup, lookup-cons, string_Eq, ltb,
}
use ababilx_chat_sfu.Shared.Keys.{keys_of, Unique-same_keys}
use ababilx_chat_sfu.Media.{Deps}
use ababilx_chat_sfu.Report
use ababilx_chat_sfu.Tracks.{Arcs}
use ababilx_chat_sfu.Peer.{Peer}
use ababilx_chat_sfu.Room.{Room, sync_speaking, published}
use ababilx_chat_sfu.Engine.{Engine}
use ababilx_chat_sfu.Engine.Seats.{seat_of}
use ababilx_chat_sfu.Engine.Ticks.{
  mark_peer, mark_room, arrivals, report_joined, report_connections, sync_rooms, tick_speaking,
  speaking_tick,
}
use ababilx_chat_sfu.Engine.Ticks.Keeps.{seat-mark_peer}
use ababilx_chat_sfu.Engine.Wired.{
  Rewires, Rewires-refl, Rewires-trans, Rewires-emit, Rewires-report_event, Rewires-map_values,
  IsWired-map,
}
use ababilx_chat_sfu.Wiring.{IsTuned}
use ababilx_chat_sfu.Wiring.Same.{same_tracks, IsTuned-SameWires}
use ababilx_chat_sfu.Wiring.Rooms.{IsWired}
use ababilx_chat_sfu.Shared.{◌==◌}
use ababilx_chat_sfu.Hall.{seated}
use ababilx_chat_sfu.Engine.{report_event}

module _ {d : Deps} where
  IsTuned-mark_peer :
      (h : Arcs d) (present : ℕ → Bool) (p : Peer d)
      → IsTuned h present [] p
      → IsTuned h present [] (mark_peer p)
  unfolding mark_peer published
  IsTuned-mark_peer h present p =
      IsTuned-SameWires (same_tracks h p _ (ground arith) (ground arith) (ground arith))

  Rewires-report_joined :
      (who : List (String × String)) (e : Engine d) → Rewires e (report_joined who e)
  unfolding report_joined
  Rewires-report_joined [] e = Rewires-refl e
  Rewires-report_joined ((name, user) ∷ rest) e =
      Rewires-trans (Rewires-report_event (λ r. Report.identity r user) "participant_joined" name e)
        (Rewires-report_joined rest
          (report_event (λ r. Report.identity r user) "participant_joined" name e))

  pub Rewires-report_connections : (e : Engine d) → Rewires e (report_connections e)
  unfolding report_connections mark_room
  Rewires-report_connections e =
      Rewires-trans
        (Rewires-map_values mark_room e
          (IsWired-map e.arcs mark_peer seat-mark_peer (IsTuned-mark_peer e.arcs)))
        (Rewires-report_joined (arrivals e) _)

  peers-sync_speaking : (now : ℕ) (r : Room d) → (sync_speaking now r).0.peers ≡ r.peers
  unfolding sync_speaking
  peers-sync_speaking now r = ground arith

  keys-sync_rooms :
      (now : ℕ) (rooms : List (String × Room d)) → keys_of (sync_rooms now rooms).0 ≡ keys_of rooms
  unfolding sync_rooms
  keys-sync_rooms now [] = refl
  keys-sync_rooms now ((name, r) ∷ rest) = ap (λ l. name ∷ l) (keys-sync_rooms now rest)

  from-sync_rooms :
      (now : ℕ) (rooms : List (String × Room d)) (m : String) (s : Room d)
      → lookup m (sync_rooms now rooms).0 ≡ some s
      → (r : Room d) × (lookup m rooms ≡ some r) × (s.peers ≡ r.peers)
  unfolding sync_rooms lookup
  from-sync_rooms now [] m s there = cc
  from-sync_rooms now ((name, r) ∷ rest) m s there =
      let first = (sync_speaking now r).0 in
      elim (Bool-cases (name == m)) [
        | inl this ↦
            let same : first ≡ s =
              ground (arith, there, this, lookup-cons m name first (sync_rooms now rest).0) in
            (
              r,
              ground (arith, this, lookup-cons m name r rest),
              subst (λ q. q.peers ≡ r.peers) same (peers-sync_speaking now r),
            )
        | inr other ↦
            let (q, old, same) =
              from-sync_rooms now rest m s
                (ground (arith, there, other, lookup-cons m name first (sync_rooms now rest).0)) in
            (q, ground (arith, other, old, lookup-cons m name r rest), same)
      ]

  IsWired-peers : (h : Arcs d) (r s : Room d) → s.peers ≡ r.peers → IsWired h r → IsWired h s
  IsWired-peers h r s e w =
      subst (λ ps. All (IsTuned h (λ j. seated j (map seat_of ps)) []) ps) (sym e) w

  pub Rewires-tick_speaking : (now : ℕ) (e : Engine d) → Rewires e (tick_speaking now e)
  unfolding tick_speaking
  Rewires-tick_speaking now e = elim (Bool-cases (ltb (now - e.last_speaking) speaking_tick)) [
    | inl early ↦ rw (early, tick_speaking) (Rewires-refl e)
    | inr due ↦
        rw (due, tick_speaking)
          (Rewires-trans
            (record {
              same_arcs = refl;
              same_next = refl;
              still_unique = λ u. Unique-same_keys e.rooms _ (keys-sync_rooms now e.rooms) u;
              from = λ m s there.
                  let (r, old, same) = from-sync_rooms now e.rooms m s there in
                  (r, old, IsWired-peers e.arcs r s same);
            })
            (Rewires-emit _ _))
  ]
