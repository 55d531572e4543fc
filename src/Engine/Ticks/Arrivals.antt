-- ===== src/Engine/Ticks/Arrivals.antt =====
-- src/sfu/engine_io.rs, `report_connections`: each arrival is reported once.
use ababilx_chat_sfu.Shared.{
  ◌≡◌, refl, ap, sym, Bool, true, if◌then◌else◌, ◌∙◌, String, false, List, [], ◌∷◌, ◌++◌, map,
  arith, keep, gather, map_values, string_Eq,
}
use mathlib.Core.List.{append-nil, append_assoc}
use ababilx_chat_sfu.Report
use ababilx_chat_sfu.Engine.Told.{told, told-report_event, about}
use ababilx_chat_sfu.Media.{Deps}
use ababilx_chat_sfu.Peer.{Peer}
use ababilx_chat_sfu.Room.{Room}
use ababilx_chat_sfu.Engine.{Engine, report_event}
use ababilx_chat_sfu.Engine.Ticks.{
  has_arrived, mark_peer, mark_room, arrivals_in, arrivals, report_joined, report_connections,
}

module _ {d : Deps} where
  arrived-mark_peer : (p : Peer d) → has_arrived (mark_peer p) ≡ false
  unfolding has_arrived mark_peer
  arrived-mark_peer p = ground arith

  mark_peer_idem : (p : Peer d) → mark_peer (mark_peer p) ≡ mark_peer p
  unfolding mark_peer
  mark_peer_idem p = ground arith

  keep-mark_peer : (ps : List (Peer d)) → keep has_arrived (map mark_peer ps) ≡ []
  keep-mark_peer [] = refl
  keep-mark_peer (p ∷ ps) = rw arrived-mark_peer (keep-mark_peer ps)

  map-mark_peer : (ps : List (Peer d)) → map mark_peer (map mark_peer ps) ≡ map mark_peer ps
  map-mark_peer [] = refl
  map-mark_peer (p ∷ ps) = cc (mark_peer_idem p, map-mark_peer ps)

  mark_room_idem : (r : Room d) → mark_room (mark_room r) ≡ mark_room r
  unfolding mark_room
  mark_room_idem r = λ i. record r { peers = map-mark_peer r.peers i }

  arrivals_in-mark_room : (name : String) (r : Room d) → arrivals_in (name, mark_room r) ≡ []
  unfolding arrivals_in mark_room
  arrivals_in-mark_room name r = rw keep-mark_peer refl

  marked : (rooms : List (String × Room d)) → gather arrivals_in (map_values mark_room rooms) ≡ []
  unfolding map_values
  marked [] = refl
  marked ((name, r) ∷ rest) = ground (arith, arrivals_in-mark_room name r, marked rest)

  map_values_idem :
      (rooms : List (String × Room d))
      → map_values mark_room (map_values mark_room rooms) ≡ map_values mark_room rooms
  unfolding map_values
  map_values_idem [] = refl
  map_values_idem ((name, r) ∷ rest) = cc (mark_room_idem r, map_values_idem rest)

  rooms-report_joined :
      (who : List (String × String)) (e : Engine d) → (report_joined who e).rooms ≡ e.rooms
  unfolding report_joined report_event
  rooms-report_joined [] e = refl
  rooms-report_joined ((name, user) ∷ rest) e = rooms-report_joined rest _

  arrivals-report_connections : (e : Engine d) → arrivals (report_connections e) ≡ []
  unfolding arrivals report_connections
  arrivals-report_connections e = rw rooms-report_joined (marked e.rooms)

  nothing_arrived :
      (f : Engine d)
      → arrivals f ≡ []
      → map_values mark_room f.rooms ≡ f.rooms
      → report_connections f ≡ f
  unfolding report_connections report_joined
  nothing_arrived f none_new same = rw (none_new, report_joined) (λ i. record f { rooms = same i })

  pub rooms-report_connections :
      (e : Engine d) → (report_connections e).rooms ≡ map_values mark_room e.rooms
  unfolding report_connections
  rooms-report_connections e = rooms-report_joined (arrivals e) _

  told-report_joined :
      (who : List (String × String)) (e : Engine d)
      → told (report_joined who e).log
        ≡ told e.log ++ map (λ (w : String × String). about "participant_joined" w.0 w.1) who
  unfolding report_joined Report.identity Report.new
  told-report_joined [] e = sym (append-nil (told e.log))
  told-report_joined ((name, user) ∷ rest) e =
      told-report_joined rest
        (report_event (λ r. Report.identity r user) "participant_joined" name e)
      ∙ rw told-report_event (append_assoc (told e.log) _ _)

  -- The peers that are connected and were not reported, by room and user.
  abbrev pub is_newcomer : Peer d → Bool
  is_newcomer p = if p.connected then (if p.reported then false else true) else false

  abbrev newcomers_in : String × Room d → List (String × String)
  newcomers_in (name, r) = map (λ (p : Peer d). (name, p.user_id)) (keep is_newcomer r.peers)

  abbrev pub newcomers : Engine d → List (String × String)
  newcomers e = gather newcomers_in e.rooms

  keep-has_arrived : (ps : List (Peer d)) → keep has_arrived ps ≡ keep is_newcomer ps
  unfolding has_arrived
  keep-has_arrived [] = refl
  keep-has_arrived (p ∷ ps) = ground (arith, keep-has_arrived ps)

  gather-arrivals_in :
      (rooms : List (String × Room d)) → gather arrivals_in rooms ≡ gather newcomers_in rooms
  unfolding arrivals_in
  gather-arrivals_in [] = refl
  gather-arrivals_in ((name, r) ∷ rest) = cc (keep-has_arrived r.peers, gather-arrivals_in rest)

  arrivals-newcomers : (e : Engine d) → arrivals e ≡ newcomers e
  unfolding arrivals
  arrivals-newcomers e = gather-arrivals_in e.rooms

  pub told-report_connections :
      (e : Engine d)
      → told (report_connections e).log
        ≡ told e.log
          ++ map (λ (w : String × String). about "participant_joined" w.0 w.1) (arrivals e)
  unfolding report_connections
  told-report_connections e = told-report_joined (arrivals e) _

  -- The host is told of every peer that is connected and was not reported, in the rooms' order, under
  -- its room and its user, and of nothing else; and once the arrivals are reported, a second pass tells
  -- it nothing more and changes nothing.
  pub report_connections_once :
      (e : Engine d)
      → (told (report_connections e).log
          ≡ told e.log
            ++ map (λ (w : String × String). about "participant_joined" w.0 w.1) (newcomers e))
        × (report_connections (report_connections e) ≡ report_connections e)
  report_connections_once e = (
    told-report_connections e
        ∙ ap
            (λ who.
              told e.log ++ map (λ (w : String × String). about "participant_joined" w.0 w.1) who)
            (arrivals-newcomers e),
    nothing_arrived (report_connections e) (arrivals-report_connections e)
        (rw rooms-report_connections (map_values_idem e.rooms)),
  )
