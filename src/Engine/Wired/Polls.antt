-- ===== src/Engine/Wired/Polls.antt =====
-- src/sfu/engine_io.rs, `poll_rooms`: a round of polling keeps the engine's wiring.
use mathlib.Core.Option
use ababilx_chat_sfu.Shared.{
  ℕ, ◌+◌, ◌<◌, ◌≡◌, ◌≢◌, ◌∙◌, sym, subst, String, true, Option, some, List, [], ◌∷◌, map, All,
  All-map, arith, Option-cases, Bool-cases, inl, inr, lookup, string_Eq, nat_Eq,
}
use ababilx_chat_sfu.Shared.Keys.{Unique, keys_of, Unique-same_keys, All-lookup, lookup_of_all}
use ababilx_chat_sfu.Media.{Deps, Driver}
use ababilx_chat_sfu.Peer.{Peer}
use ababilx_chat_sfu.Room.{Room}
use ababilx_chat_sfu.Hall.{Seat, seated, Distinct, Below}
use ababilx_chat_sfu.Engine.{Engine, emit}
use ababilx_chat_sfu.Engine.Seats.{seat_of, seats_of, seats_in, IsValid}
use ababilx_chat_sfu.Engine.Io.{poll_rooms, poll_entries, max_idle}
use ababilx_chat_sfu.Engine.Io.Wires.{AllForeign, PollsAll-poll_entries}
use ababilx_chat_sfu.Engine.Wired.{IsMeshed}
use ababilx_chat_sfu.Wiring.Rooms.{here, Foreign, IsWired}

module _ {d : Deps} where
  -- Rooms of different names have no common peer, since a peer has one home.
  foreign_homes :
      (home : ℕ → Option String) (rooms : List (String × Room d))
      → Unique rooms
      → All (λ (e : String × Room d). (j : ℕ) → here e.1 j ≡ true → home j ≡ some e.0) rooms
      → AllForeign rooms
  foreign_homes home [] u h = tt
  foreign_homes home ((name, r) ∷ rest) u h =
      (foreign_rest name r rest u.0 h.1 h.0, foreign_homes home rest u.1 h.1)
    where
      foreign_rest :
          (name : String) (r : Room d) (rest : List (String × Room d))
          → All (λ (n : String). n ≢ name) (keys_of rest)
          → All (λ (e : String × Room d). (j : ℕ) → here e.1 j ≡ true → home j ≡ some e.0) rest
          → ((j : ℕ) → here r j ≡ true → home j ≡ some name)
          → All (λ (e : String × Room d). Foreign r e.1) rest
      foreign_rest name r [] n k at_r = tt
      foreign_rest name r (e ∷ rest) n k at_r = (
        λ j in_r. elim (Bool-cases (here e.1 j)) [
          | inl in_e ↦
              absurd (n.0 (Option.some-injective e.0 name (sym (k.0 j in_e) ∙ at_r j in_r)))
          | inr out ↦ out
        ],
        foreign_rest name r rest n.1 k.1 at_r,
      )

  Below-seats :
      (n : ℕ) (ps : List (Peer d)) → Below n (map seat_of ps) → All (λ (p : Peer d). p.id < n) ps
  Below-seats n [] b = tt
  Below-seats n (p ∷ ps) b = (b.0, Below-seats n ps b.1)

  -- What the invariant says of the rooms, entry by entry.
  by_entry {ℓ} :
      (P : String → List Seat → Type ℓ) (e : Engine d)
      → Unique e.rooms
      → ((m : String) → P m (seats_in (lookup m e.rooms)))
      → All (λ (x : String × Room d). P x.0 (seats_of x.1)) e.rooms
  by_entry P e u f =
      All-lookup (λ m r. P m (seats_of r)) e.rooms u
        (λ m r there. subst (λ o. P m (seats_in o)) there (f m))

  pub IsMeshed-poll_rooms :
      (v : Driver d) (fuel now : ℕ) (e f : Engine d) (wake : ℕ)
      → IsValid e
      → IsMeshed e
      → poll_rooms v fuel now e ≡ some (f, wake)
      → IsMeshed f
  unfolding poll_rooms emit
  IsMeshed-poll_rooms v fuel now e f wake valid w done =
      elim (Option-cases (poll_entries v fuel now (now + max_idle) e.arcs e.rooms)) [
        | inl stuck ↦ absurd (ground (arith, done, stuck))
        | inr (x, found) ↦
            let same : emit x.effects (record e { rooms = x.value; arcs = x.arcs }) ≡ f =
              ground (arith, done, found) in
            let s =
              PollsAll-poll_entries v fuel now (now + max_idle) e.arcs e.rooms x w.fresh
                (foreign_homes (λ j. lookup j e.peer_rooms) e.rooms w.unique
                  (by_entry
                    (λ m seats. (j : ℕ) → seated j seats ≡ true → lookup j e.peer_rooms ≡ some m) e
                    w.unique valid.consistent.listed))
                (by_entry (λ m seats. Distinct seats) e w.unique valid.consistent.distinct)
                (All-lookup (λ m r. IsWired e.arcs r) e.rooms w.unique w.wired) found in
            subst IsMeshed same (record {
              unique = Unique-same_keys e.rooms x.value s.same_keys w.unique;
              fresh = s.fresh;
              origins =
                  s.origins e.next_peer
                    (All-map _ _ e.rooms (λ en b. Below-seats e.next_peer en.1.peers b)
                      (by_entry (λ m seats. Below e.next_peer seats) e w.unique
                        valid.consistent.below))
                    w.origins;
              wired =
                  λ m r there. lookup_of_all (λ n q. IsWired x.arcs q) x.value m r s.wired there;
            })
      ]
