-- ===== src/Process/Starts.antt =====
-- src/main.rs, `main`: the order of a start, and the media loop that comes of it.
use ababilx_chat_sfu.Shared.{
  ℕ, zero, suc, ◌+◌, ◌<◌, ◌≡◌, refl, subst, String, Option, none, some, List, [], ◌∷◌, map, pick,
  Result, ok, err, arith, Result-cases, inl, inr, string_Eq,
}
use ababilx_chat_sfu.Media.{Deps, Driver}
use ababilx_chat_sfu.Report
use ababilx_chat_sfu.Report.{server_started}
use ababilx_chat_sfu.Config.{Config, ConfigError, from_env}
use ababilx_chat_sfu.Config.Limits.{from_env-bounds}
use ababilx_chat_sfu.Engine.{Engine, spawn}
use ababilx_chat_sfu.Engine.Seats.{IsValid}
use ababilx_chat_sfu.Engine.Turn.{Reach, Reach-spawn-IsValid}
use ababilx_chat_sfu.Engine.Wired.{IsMeshed}
use ababilx_chat_sfu.Engine.Wired.Turns.{Reach-spawn-IsMeshed}
use ababilx_chat_sfu.Process.{
  World, Act, install_crypto, drain_reports, run_reports, media_loop, announce, listen, serve, send,
  Outcome, Fault, config, system, begun, reporter, served, listening, spawned, bound_media,
  configured, start,
}

-- The numbers from `k` on, `n` of them.
abbrev pub from : (k n : ℕ) → List ℕ
from k zero = []
from k (suc n) = k ∷ from (k + 1) n

module _ {d : Deps} where
  -- The stage of a start that an act belongs to.
  abbrev pub stage : Act d → ℕ
  stage install_crypto = 0
  stage drain_reports = 1
  stage (run_reports _ _) = 1
  stage (media_loop _) = 2
  stage (announce _) = 3
  stage (listen _) = 4
  stage serve = 5
  stage (send _) = 6

-- How a start ends, by what the environment and the operating system answer: the number of stages that
-- it comes to, and its result.
pub data Ends {d : Deps} (w : World d) : ℕ → Result Fault (Unit {0}) → Type 0 where
  bad_settings : (x : ConfigError) → from_env w.boot ≡ err x → Ends w 1 (err (config x))
  no_socket :
      (c : Config d) (x : String)
      → from_env w.boot ≡ ok c
      → w.bind_udp c.udp_bind ≡ err x
      → Ends w 2 (err (system x))
  no_thread :
      (c : Config d) (bound : d.Address) (x : String)
      → from_env w.boot ≡ ok c
      → w.bind_udp c.udp_bind ≡ ok bound
      → w.start_thread ≡ err x
      → Ends w 2 (err (system x))
  no_listener :
      (c : Config d) (bound : d.Address) (x : String)
      → from_env w.boot ≡ ok c
      → w.bind_udp c.udp_bind ≡ ok bound
      → w.start_thread ≡ ok tt
      → w.bind_tcp c.http_bind ≡ err x
      → Ends w 4 (err (system x))
  no_service :
      (c : Config d) (bound : d.Address) (x : String)
      → from_env w.boot ≡ ok c
      → w.bind_udp c.udp_bind ≡ ok bound
      → w.start_thread ≡ ok tt
      → w.bind_tcp c.http_bind ≡ ok tt
      → w.serve_until_signal ≡ err x
      → Ends w 6 (err (system x))
  all_done :
      (c : Config d) (bound : d.Address)
      → from_env w.boot ≡ ok c
      → w.bind_udp c.udp_bind ≡ ok bound
      → w.start_thread ≡ ok tt
      → w.bind_tcp c.http_bind ≡ ok tt
      → w.serve_until_signal ≡ ok tt
      → Ends w 7 (ok tt)

module _ {d : Deps} (w : World d) where
  -- The stages of an outcome are the first ones, as many as it comes to.
  abbrev pub EndsAs : Outcome d → Type 0
  EndsAs o = (n : ℕ) × (map stage o.acts ≡ from 0 n) × Ends w n o.result

  stage-reporter : (c : Config d) → stage (reporter c) ≡ 1
  unfolding reporter
  stage-reporter c = ground arith

  -- The acts up to where the listener is asked for.
  up_to_boot : Config d → d.Address → Outcome d → Outcome d
  unfolding begun
  up_to_boot c bound o = begun install_crypto (
      begun (reporter c) (
        begun (media_loop (spawn c bound w.now))
          (begun (announce (Report.new w.uuid server_started "")) o)))

  module _ (c : Config d) (good : from_env w.boot ≡ ok c) where
    module _ (bound : d.Address) (opened : w.bind_udp c.udp_bind ≡ ok bound) where
      module _ (thread : w.start_thread ≡ ok tt) where
        EndsAs-served :
            (r : Result String (Unit {0}))
            → w.bind_tcp c.http_bind ≡ ok tt
            → w.serve_until_signal ≡ r
            → EndsAs (up_to_boot c bound (begun (listen c.http_bind) (served r)))
        unfolding up_to_boot begun served
        EndsAs-served (err x) heard broken =
            (6, rw (stage-reporter c) refl, no_service c bound x good opened thread heard broken)
        EndsAs-served (ok u) heard ended =
            (7, rw (stage-reporter c) refl, all_done c bound good opened thread heard ended)

        EndsAs-listening :
            (r : Result String (Unit {0}))
            → w.bind_tcp c.http_bind ≡ r
            → EndsAs (up_to_boot c bound (listening w c r))
        unfolding up_to_boot begun listening
        EndsAs-listening (err x) closed =
            (4, rw (stage-reporter c) refl, no_listener c bound x good opened thread closed)
        EndsAs-listening (ok u) heard = EndsAs-served w.serve_until_signal heard refl

      EndsAs-spawned :
          (r : Result String (Unit {0}))
          → w.start_thread ≡ r
          → EndsAs (begun install_crypto (begun (reporter c) (spawned w c bound r)))
      unfolding begun spawned up_to_boot
      EndsAs-spawned (err x) dead =
          (2, rw (stage-reporter c) refl, no_thread c bound x good opened dead)
      EndsAs-spawned (ok u) thread = EndsAs-listening thread (w.bind_tcp c.http_bind) refl

    EndsAs-bound_media :
        (r : Result String d.Address)
        → w.bind_udp c.udp_bind ≡ r
        → EndsAs (begun install_crypto (begun (reporter c) (bound_media w c r)))
    unfolding begun bound_media
    EndsAs-bound_media (err x) closed = (2, rw (stage-reporter c) refl, no_socket c x good closed)
    EndsAs-bound_media (ok bound) opened = EndsAs-spawned bound opened w.start_thread refl

  EndsAs-configured :
      (r : Result ConfigError (Config d))
      → from_env w.boot ≡ r
      → EndsAs (begun install_crypto (configured w r))
  unfolding begun configured
  EndsAs-configured (err x) bad = (1, refl, bad_settings x bad)
  EndsAs-configured (ok c) good = EndsAs-bound_media c good (w.bind_udp c.udp_bind) refl

  pub start-EndsAs : EndsAs (start w)
  unfolding start
  start-EndsAs = EndsAs-configured (from_env w.boot) refl

  -- The engine of the media loop, if the act starts one.
  abbrev pub loop_of : Act d → Option (Engine d)
  loop_of install_crypto = none
  loop_of drain_reports = none
  loop_of (run_reports _ _) = none
  loop_of (media_loop e) = some e
  loop_of (announce _) = none
  loop_of (listen _) = none
  loop_of serve = none
  loop_of (send _) = none

  loop-reporter : (c : Config d) → loop_of (reporter c) ≡ none
  unfolding reporter
  loop-reporter c = ground arith

  loops-served : (r : Result String (Unit {0})) → pick loop_of (served r).acts ≡ []
  unfolding served
  loops-served (err e) = refl
  loops-served (ok u) = refl

  loops-listening :
      (c : Config d) (r : Result String (Unit {0})) → pick loop_of (listening w c r).acts ≡ []
  unfolding listening begun
  loops-listening c (err e) = refl
  loops-listening c (ok u) = loops-served w.serve_until_signal

  loops-spawned :
      (c : Config d) (bound : d.Address) (r : Result String (Unit {0})) (e : Engine d)
      → pick loop_of (spawned w c bound r).acts ≡ e ∷ []
      → e ≡ spawn c bound w.now
  unfolding spawned begun
  loops-spawned c bound (err x) e h = absurd (ground (arith, h))
  loops-spawned c bound (ok u) e h = ground (arith, h, loops-listening c (w.bind_tcp c.http_bind))

  -- A media loop that is started is one on a configuration that was read.
  loops-start :
      (e : Engine d)
      → pick loop_of (start w).acts ≡ e ∷ []
      → (c : Config d) × (bound : d.Address) × (from_env w.boot ≡ ok c) × (e ≡ spawn c bound w.now)
  unfolding start configured begun bound_media
  loops-start e h = elim (Result-cases (from_env w.boot)) [
    | inr (x, bad) ↦ absurd (ground (arith, h, bad))
    | inl (c, good) ↦ elim (Result-cases (w.bind_udp c.udp_bind)) [
      | inr (x, bad) ↦ absurd (ground (arith, h, good, bad, loop-reporter c))
      | inl (bound, opened) ↦
          let in_spawned : pick loop_of (spawned w c bound w.start_thread).acts ≡ e ∷ [] =
            ground (arith, h, good, opened, loop-reporter c) in
          (c, bound, good, loops-spawned c bound w.start_thread e in_spawned)
    ]
  ]

  -- Whatever the environment holds: if a start comes to a media loop, then the invariants hold of every
  -- engine that this loop reaches, by any commands while ids are left, and by any packets, polls and
  -- clock ticks.
  pub start-IsValid-IsMeshed :
      (v : Driver d) (e f : Engine d)
      → pick loop_of (start w).acts ≡ e ∷ []
      → Reach v e f
      → IsValid f × IsMeshed f
  start-IsValid-IsMeshed v e f started reached =
      let (c, bound, good, same) = loops-start e started in
      let room : 0 < c.max_room_peers = omega (arith, (from_env-bounds w.boot c good).0) in
      let from_spawn : Reach v (spawn c bound w.now) f = subst (λ x. Reach v x f) same reached in
      (
        Reach-spawn-IsValid v c bound w.now f room from_spawn,
        Reach-spawn-IsMeshed v c bound w.now f room from_spawn,
      )
