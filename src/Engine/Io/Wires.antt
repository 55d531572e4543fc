-- ===== src/Engine/Io/Wires.antt =====
-- src/sfu/engine_io.rs, `poll_rooms`: polling keeps every room wired.
use ababilx_chat_sfu.Shared.{
  ℕ, ◌<◌, ◌≡◌, refl, ◌∙◌, sym, ap, subst, String, some, List, [], ◌∷◌, ◌++◌, All, All-map, All-and,
  arith, Option-cases, inl, inr,
}
use ababilx_chat_sfu.Shared.Keys.{keys_of}
use ababilx_chat_sfu.Media.{Deps, Driver}
use ababilx_chat_sfu.Tracks.{Arcs}
use ababilx_chat_sfu.Peer.{Peer}
use ababilx_chat_sfu.Room.{Room}
use ababilx_chat_sfu.Hall.{Distinct, seated}
use ababilx_chat_sfu.Engine.Seats.{seats_of}
use ababilx_chat_sfu.Engine.Io.{Drained, poll_peers, settled, poll_room, after_room, poll_entries}
use ababilx_chat_sfu.Engine.Io.Seats.{seats-poll_room}
use ababilx_chat_sfu.Engine.Io.Spreads.{OriginsBelow, Spreads-poll_peers}
use ababilx_chat_sfu.Wiring.{IsTuned, IsFresh}
use ababilx_chat_sfu.Wiring.Deliveries.{IsTuned-propagate_all}
use ababilx_chat_sfu.Wiring.Rooms.{
  here, IsWired, Foreign, Foreign-sym, All-seated, AllApart-Distinct, Apart-present,
}

module _ {d : Deps} where
  -- What polling the room `r` means for it, for the rooms without a common peer, and for the heap.
  pub record Polls (h : Arcs d) (r : Room d) (x : Drained d (Room d)) : Type 0 where
    pub fresh : IsFresh x.arcs
    pub same_seats : seats_of x.value ≡ seats_of r
    pub wired : IsWired x.arcs x.value
    pub abroad : (s : Room d) → Foreign r s → IsWired h s → IsWired x.arcs s
    pub origins :
        (n : ℕ) → All (λ (p : Peer d). p.id < n) r.peers → OriginsBelow n h → OriginsBelow n x.arcs

  module _ (v : Driver d) where
    -- Polling a room of which every peer is subscribed exactly once to every track of the others keeps
    -- it so, with the tracks that are published meanwhile.
    pub Polls-poll_room :
        (fuel now wake : ℕ) (h : Arcs d) (r : Room d) (x : Drained d (Room d))
        → IsFresh h
        → Distinct (seats_of r)
        → IsWired h r
        → poll_room v fuel now wake h r ≡ some x
        → Polls h r x
    unfolding poll_room settled
    Polls-poll_room fuel now wake h r x f distinct w e =
        elim (Option-cases (poll_peers v fuel now wake h r.peers)) [
          | inl stuck ↦ absurd (ground (arith, e, stuck))
          | inr (y, done) ↦
              let s =
                Spreads-poll_peers v (here r) fuel now wake h [] r.peers y f tt (All-seated r.peers)
                  (AllApart-Distinct r.peers distinct) w done in
              let same : settled v r y ≡ x = ground (arith, e, done) in
              let seats = seats-poll_room v fuel now wake h r x e in
              let tuned =
                IsTuned-propagate_all y.arcs (here r) y.queue (record r { peers = y.value })
                  s.queued s.tuned in
              record {
                fresh = subst (λ z. IsFresh z.arcs) same s.fresh;
                same_seats = seats;
                wired =
                    subst (λ seats. All (IsTuned x.arcs (λ j. seated j seats) []) x.value.peers)
                      (sym seats)
                      (subst
                        (λ (z : Drained d (Room d)). All (IsTuned z.arcs (here r) []) z.value.peers)
                        same tuned);
                abroad = λ o foreign t.
                    subst (λ z. IsWired z.arcs o) same
                      (All-and _ _ _ o.peers
                        (λ q in_o u.
                          s.elsewhere (here o) q
                            (Apart-present q.id (here r) r.peers (Foreign-sym r o foreign q.id in_o)
                              (All-seated r.peers))
                            (All-map _ _ r.peers (λ p in_r. foreign p.id in_r) (All-seated r.peers))
                            u)
                        (All-seated o.peers) t);
                origins = λ n l b. subst (λ z. OriginsBelow n z.arcs) same (s.origins n l b);
              }
        ]

  abbrev pub AllForeign : List (String × Room d) → Type 0
  AllForeign [] = Unit
  AllForeign ((name, r) ∷ rest) =
      All (λ (e : String × Room d). Foreign r e.1) rest × AllForeign rest

  abbrev pub AllWired : Arcs d → List (String × Room d) → Type 0
  AllWired h = All (λ (e : String × Room d). IsWired h e.1)

  Foreign-seats : (r s q : Room d) → seats_of q ≡ seats_of r → Foreign r s → Foreign q s
  Foreign-seats r s q e f j in_q = f j (sym (ap (seated j) e) ∙ in_q)

  -- The same for all rooms in turn.
  pub record PollsAll (h : Arcs d) (rooms : List (String × Room d))
      (x : Drained d (List (String × Room d))) : Type 0 where
    pub fresh : IsFresh x.arcs
    pub same_keys : keys_of x.value ≡ keys_of rooms
    pub wired : AllWired x.arcs x.value
    pub abroad :
        (s : Room d)
        → All (λ (e : String × Room d). Foreign e.1 s) rooms
        → IsWired h s
        → IsWired x.arcs s
    pub origins :
        (n : ℕ)
        → All (λ (e : String × Room d). All (λ (p : Peer d). p.id < n) e.1.peers) rooms
        → OriginsBelow n h
        → OriginsBelow n x.arcs

  module _ (v : Driver d) where
    PollsAll-after_room :
        (h : Arcs d) (name : String) (r : Room d) (rest : List (String × Room d))
        (y : Drained d (Room d)) (z : Drained d (List (String × Room d)))
        → All (λ (e : String × Room d). Foreign r e.1) rest
        → Polls h r y
        → PollsAll y.arcs rest z
        → PollsAll h
            ((name, r) ∷ rest)
            (record z { value = (name, y.value) ∷ z.value; effects = y.effects ++ z.effects })
    PollsAll-after_room h name r rest y z foreign s t = record {
      fresh = t.fresh;
      same_keys = ap (λ l. name ∷ l) t.same_keys;
      wired = (
        t.abroad y.value
            (All-map _ _ rest
              (λ e f. Foreign-sym y.value e.1 (Foreign-seats r e.1 y.value s.same_seats f)) foreign)
            s.wired,
        t.wired,
      );
      abroad = λ o f w. t.abroad o f.1 (s.abroad o f.0 w);
      origins = λ n l b. t.origins n l.1 (s.origins n l.0 b);
    }

    pub PollsAll-poll_entries :
        (fuel now wake : ℕ) (h : Arcs d) (rooms : List (String × Room d))
        (x : Drained d (List (String × Room d)))
        → IsFresh h
        → AllForeign rooms
        → All (λ (e : String × Room d). Distinct (seats_of e.1)) rooms
        → AllWired h rooms
        → poll_entries v fuel now wake h rooms ≡ some x
        → PollsAll h rooms x
    unfolding poll_entries after_room
    PollsAll-poll_entries fuel now wake h [] x f foreign distinct w e =
        let none_left : Drained d (List (String × Room d)) = record {
          value = [];
          arcs = h;
          effects = [];
          queue = [];
          wake = wake;
        } in
        let same : none_left ≡ x = ground (arith, e) in
        subst (PollsAll h []) same (record {
          fresh = f;
          same_keys = refl;
          wired = tt;
          abroad = λ o a t. t;
          origins = λ n l b. b;
        })
    PollsAll-poll_entries fuel now wake h ((name, r) ∷ rest) x f foreign distinct w e =
        elim (Option-cases (poll_room v fuel now wake h r)) [
          | inl stuck ↦ absurd (ground (arith, e, stuck))
          | inr (y, found) ↦ elim (Option-cases (poll_entries v fuel now y.wake y.arcs rest)) [
            | inl stuck ↦ absurd (ground (arith, e, found, stuck))
            | inr (z, others) ↦
                let s = Polls-poll_room v fuel now wake h r y f distinct.0 w.0 found in
                let t =
                  PollsAll-poll_entries fuel now y.wake y.arcs rest z s.fresh foreign.1 distinct.1
                    (All-and _ _ _ rest (λ en apart u. s.abroad en.1 apart u) foreign.0 w.1)
                    others in
                subst (PollsAll h ((name, r) ∷ rest)) (ground (arith, e, found, others))
                  (PollsAll-after_room h name r rest y z foreign.0 s t)
          ]
        ]
