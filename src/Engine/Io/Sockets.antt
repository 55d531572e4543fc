-- ===== src/Engine/Io/Sockets.antt =====
-- src/sfu/engine_io.rs: datagrams and the clock leave every room wired.
use ababilx_chat_sfu.Shared.{
  ℕ, ◌≡◌, refl, subst, String, Bool, Option, none, some, List, [], ◌∷◌, map, arith, Bool-cases, inl,
  inr, lookup, string_Eq, update_first,
}
use ababilx_chat_sfu.Shared.Keys.{keys_of, Unique-same_keys}
use ababilx_chat_sfu.Media.{Deps, Driver, Input, at_time, receive}
use ababilx_chat_sfu.Tracks.{Arcs}
use ababilx_chat_sfu.Peer.{Peer}
use ababilx_chat_sfu.Engine.Io.Seats.{seat-handle_input}
use ababilx_chat_sfu.Peer.Poll.{handle_input}
use ababilx_chat_sfu.Room.{Room}
use ababilx_chat_sfu.Engine.{Engine}
use ababilx_chat_sfu.Engine.Io.{route_input, read_once, tell_time}
use ababilx_chat_sfu.Engine.Wired.{
  Rewires, Rewires-refl, Rewires-map_values, IsWired-map, IsWired-update_first,
}
use ababilx_chat_sfu.Wiring.{IsTuned}
use ababilx_chat_sfu.Wiring.Same.{IsTuned-SameWires}
use ababilx_chat_sfu.Wiring.Rounds.{handle_input-same}
use ababilx_chat_sfu.Wiring.Rooms.{IsWired}
use ababilx_chat_sfu.Engine.Io.{takes_it}
use ababilx_chat_sfu.Shared.{◌==◌}

module _ {d : Deps} where
  keys-route_input :
      (v : Driver d) (input : Input d) (rooms : List (String × Room d))
      → keys_of (route_input v input rooms) ≡ keys_of rooms
  unfolding route_input
  keys-route_input v input [] = refl
  keys-route_input v input ((name, r) ∷ rest) = ground (arith, keys-route_input v input rest)

  IsTuned-handle_input :
      (v : Driver d) (input : Input d) (h : Arcs d) (present : ℕ → Bool) (p : Peer d)
      → IsTuned h present [] p
      → IsTuned h present [] (handle_input v input p)
  IsTuned-handle_input v input h present p = IsTuned-SameWires (handle_input-same h v input p)

  from-route_input :
      (v : Driver d) (input : Input d) (h : Arcs d) (rooms : List (String × Room d)) (m : String)
      (s : Room d)
      → lookup m (route_input v input rooms) ≡ some s
      → (r : Room d) × (lookup m rooms ≡ some r) × (IsWired h r → IsWired h s)
  unfolding route_input lookup
  from-route_input v input h [] m s there = cc
  from-route_input v input h ((name, r) ∷ rest) m s there =
      let taker = λ (p : Peer d). v.accepts p.rtc input in
      let changed : Room d = record r {
        peers = update_first taker (handle_input v input) r.peers;
      } in
      elim (Bool-cases (takes_it v input r)) [
        | inl takes ↦ elim (Bool-cases (name == m)) [
          | inl this ↦
              let same : changed ≡ s = ground (arith, there, this, takes) in
              (
                r,
                ground (arith, this),
                λ w. subst (IsWired h) same (
                    IsWired-update_first h (handle_input v input) (seat-handle_input v input)
                      (IsTuned-handle_input v input h) taker r w),
              )
          | inr other ↦ (s, ground (arith, there, other, takes), λ w. w)
        ]
        | inr passes ↦ elim (Bool-cases (name == m)) [
          | inl this ↦
              let same : r ≡ s = ground (arith, there, this, passes) in
              (r, ground (arith, this), λ w. subst (IsWired h) same w)
          | inr other ↦
              let (q, old, keeps) =
                from-route_input v input h rest m s (ground (arith, there, other, passes)) in
              (q, ground (arith, other, old), keeps)
        ]
      ]

  pub Rewires-read_once :
      (v : Driver d) (now : ℕ) (got : Option (d.Address × d.Contents)) (e : Engine d)
      → Rewires e (read_once v now got e)
  unfolding read_once
  Rewires-read_once v now none e = Rewires-refl e
  Rewires-read_once v now (some (source, contents)) e =
      let input = receive now source e.advertised contents in
      record {
        same_arcs = refl;
        same_next = refl;
        still_unique = λ u. Unique-same_keys e.rooms _ (keys-route_input v input e.rooms) u;
        from = from-route_input v input e.arcs e.rooms;
      }

  pub Rewires-tell_time : (v : Driver d) (now : ℕ) (e : Engine d) → Rewires e (tell_time v now e)
  unfolding tell_time
  Rewires-tell_time v now e =
      Rewires-map_values
        (λ (r : Room d). record r { peers = map (handle_input v (at_time now)) r.peers }) e
        (IsWired-map e.arcs (handle_input v (at_time now)) (seat-handle_input v (at_time now))
          (IsTuned-handle_input v (at_time now) e.arcs))
