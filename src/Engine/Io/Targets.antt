-- ===== src/Engine/Io/Targets.antt =====
-- src/sfu/engine_io.rs, `read_once`: which peer gets a datagram.
use ababilx_chat_sfu.Shared.{length, map}
use ababilx_chat_sfu.Shared.{
  ℕ, ◌≡◌, refl, ap, sym, ◌∙◌, String, Bool, true, false, some, List, [], ◌∷◌, ◌++◌, arith,
  Bool-cases, inl, inr, update_first, any, gather,
}
use ababilx_chat_sfu.Media.{Deps, Driver, Input, receive}
use ababilx_chat_sfu.Peer.{Peer}
use ababilx_chat_sfu.Peer.Poll.{handle_input}
use ababilx_chat_sfu.Room.{Room}
use ababilx_chat_sfu.Engine.{Engine}
use ababilx_chat_sfu.Engine.Io.{route_input, read_once, takes_it}

module _ {ℓ} {A : Type ℓ} (test : A → Bool) (f : A → A) where
  -- The first that passes the test stands in the front part, or in the rest.
  update_first-append_any :
      (xs ys : List A)
      → any test xs ≡ true
      → update_first test f (xs ++ ys) ≡ update_first test f xs ++ ys
  update_first-append_any [] ys h = absurd (ground (arith, h))
  update_first-append_any (x ∷ xs) ys h = elim (Bool-cases (test x)) [
    | inl y ↦ ground (arith, y)
    | inr n ↦ ground (arith, n, h, update_first-append_any xs ys)
  ]

  update_first-append_none :
      (xs ys : List A)
      → any test xs ≡ false
      → update_first test f (xs ++ ys) ≡ xs ++ update_first test f ys
  update_first-append_none [] ys h = refl
  update_first-append_none (x ∷ xs) ys h = ground (arith, h, update_first-append_none xs ys)

module _ {d : Deps} where
  -- `rooms.values_mut().flat_map(|room| room.peers.iter_mut())`
  abbrev pub all_peers : List (String × Room d) → List (Peer d)
  all_peers rooms = gather (λ (entry : String × Room d). entry.1.peers) rooms

module _ {d : Deps} (v : Driver d) (input : Input d) where
  all_peers-route_input :
      (rooms : List (String × Room d))
      → all_peers (route_input v input rooms)
        ≡ update_first
            (λ (p : Peer d). v.accepts p.rtc input)
            (handle_input v input)
            (all_peers rooms)
  unfolding route_input takes_it
  all_peers-route_input [] = refl
  all_peers-route_input ((name, r) ∷ rest) =
      let taker = λ (p : Peer d). v.accepts p.rtc input in
      elim (Bool-cases (any taker r.peers)) [
        | inl y ↦
            rw y (
              sym (update_first-append_any taker (handle_input v input) r.peers (all_peers rest) y))
        | inr n ↦ rw n (
            ap (λ l. r.peers ++ l) (all_peers-route_input rest)
            ∙ sym
                (update_first-append_none taker (handle_input v input) r.peers (all_peers rest) n))
      ]

length-update_first {ℓ} :
    {A : Type ℓ} (test : A → Bool) (f : A → A) (xs : List A)
    → length (update_first test f xs) ≡ length xs
length-update_first test f [] = refl
length-update_first test f (x ∷ xs) = ground (arith, length-update_first test f xs)

module _ {d : Deps} where
  -- A room but for what its peers are: its name and call, who it lists as speaking, how many peers.
  abbrev pub frame_of : String × Room d → String × String × List String × ℕ
  frame_of (name, r) = (name, r.call_id, r.speaking, length r.peers)

  frames-route_input :
      (v : Driver d) (input : Input d) (rooms : List (String × Room d))
      → map frame_of (route_input v input rooms) ≡ map frame_of rooms
  unfolding route_input takes_it
  frames-route_input v input [] = refl
  frames-route_input v input ((name, r) ∷ rest) =
      let taker = λ (p : Peer d). v.accepts p.rtc input in
      elim (Bool-cases (any taker r.peers)) [
        | inl y ↦ rw (y, length-update_first taker (handle_input v input) r.peers) refl
        | inr n ↦ rw n (
            ap (λ l. (name, r.call_id, r.speaking, length r.peers) ∷ l)
              (frames-route_input v input rest))
      ]

module _ {d : Deps} (v : Driver d) where
  -- A datagram is handed to the first peer that accepts it, among the peers of all rooms in the order in
  -- which the rooms are listed, and to no other; if none accepts it, every peer stays as it is. No peer
  -- changes its place: the rooms, with their calls and their lists of speakers, are listed as before and
  -- hold as many peers, and of the engine nothing but the rooms' peers changes.
  pub read_once-all_peers :
      (now : ℕ) (source : d.Address) (contents : d.Contents) (e : Engine d)
      → let input = receive now source e.advertised contents in
        let f = read_once v now (some (source, contents)) e in
        (all_peers f.rooms
          ≡ update_first
              (λ (p : Peer d). v.accepts p.rtc input)
              (handle_input v input)
              (all_peers e.rooms))
        × (map frame_of f.rooms ≡ map frame_of e.rooms)
        × (f ≡ record e { rooms = f.rooms })
  unfolding read_once
  read_once-all_peers now source contents e =
      let input = receive now source e.advertised contents in
      (all_peers-route_input v input e.rooms, frames-route_input v input e.rooms, refl)
