-- ===== src/Process.antt =====
-- src/main.rs: the start of the process, and the probe of its health. The system's answers are inputs;
-- what the process does is a list of acts.
pub mod Starts
pub mod Probes
use Prim.Native.String.{◌++◌ as ◌+++◌}
use ababilx_chat_sfu.Shared.{
  ℕ, String, Bool, true, false, ◌&&◌, Option, none, some, List, [], ◌∷◌, ◌++◌, Result, ok, err, leb,
  ltb, if◌then◌else◌, ◌==◌, nat_Eq, string_Eq,
}
use ababilx_chat_sfu.Shared.Texts.{after_last_colon}
use ababilx_chat_sfu.Media.{Deps}
use ababilx_chat_sfu.Report
use ababilx_chat_sfu.Report.{ReportEvent, server_started}
use ababilx_chat_sfu.Config.{Config, ConfigError, Boot, from_env, or_else}
use ababilx_chat_sfu.Engine.{Engine, Command, spawn}
use ababilx_chat_sfu.Engine

-- The first argument, the environment, the clock and the operating system's answers: the address of
-- the bound media socket, the start of the thread, the listener, how serving ends, and the answer to a
-- request as its status.
pub record World (d : Deps) : Type 0 where
  pub arg : Option String
  pub boot : Boot d
  pub now : ℕ
  pub uuid : String
  pub bind_udp : d.Address → Result String d.Address
  pub start_thread : Result String (Unit {0})
  pub bind_tcp : d.Address → Result String (Unit {0})
  pub serve_until_signal : Result String (Unit {0})
  pub get : String → Result String ℕ

pub data Act (d : Deps) : Type 0 where
  install_crypto drain_reports serve : Act d
  run_reports : (url secret : String) → Act d
  media_loop : Engine d → Act d
  announce : ReportEvent → Act d
  listen : d.Address → Act d
  send : Command → Act d

pub data Fault : Type 0 where
  config : ConfigError → Fault
  system : String → Fault
  unhealthy : (status : ℕ) → Fault

-- What was done, and how it ended.
pub record Outcome (d : Deps) : Type 0 where
  pub acts : List (Act d)
  pub result : Result Fault (Unit {0})

health_result : Result String ℕ → Result Fault (Unit {0})
health_result (err e) = err (system e)
health_result (ok status) =
    if leb 200 status && ltb status 300 then ok tt else err (unhealthy status)

module _ {d : Deps} where
  begun : Act d → Outcome d → Outcome d
  begun a o = record { acts = a ∷ o.acts; result = o.result }

  abbrev fault : Fault → Outcome d
  fault f = record { acts = []; result = err f }

  -- Without a host application the reports are drained.
  reporter : Config d → Act d
  reporter c = elim c.webhook_url [
    | none ↦ drain_reports
    | some url ↦ run_reports url c.webhook_secret
  ]

  served : Result String (Unit {0}) → Outcome d
  served (err e) = record { acts = serve ∷ []; result = err (system e) }
  served (ok _) = record { acts = serve ∷ send Engine.shutdown ∷ []; result = ok tt }

module _ {d : Deps} (w : World d) where
  listening : Config d → Result String (Unit {0}) → Outcome d
  unfolding begun served
  listening c (err e) = fault (system e)
  listening c (ok _) = begun (listen c.http_bind) (served w.serve_until_signal)

  -- `sfu::spawn`, and what follows it.
  spawned : Config d → d.Address → Result String (Unit {0}) → Outcome d
  unfolding begun listening
  spawned c bound (err e) = fault (system e)
  spawned c bound (ok _) = begun (media_loop (spawn c bound w.now)) (
      begun (announce (Report.new w.uuid server_started "")) (listening c (w.bind_tcp c.http_bind)))

  bound_media : Config d → Result String d.Address → Outcome d
  unfolding spawned
  bound_media c (err e) = fault (system e)
  bound_media c (ok bound) = spawned c bound w.start_thread

  configured : Result ConfigError (Config d) → Outcome d
  unfolding begun reporter bound_media
  configured (err e) = fault (config e)
  configured (ok c) = begun (reporter c) (bound_media c (w.bind_udp c.udp_bind))

  unfoldable pub health_probe : Outcome d
  unfolding health_result
  health_probe =
      let port = after_last_colon (or_else (w.boot.var "SFU_BIND_HTTP") "0.0.0.0:7898") in
      record {
        acts = [];
        result = health_result (w.get ("http://127.0.0.1:" +++ port +++ "/healthz"));
      }

  unfoldable pub start : Outcome d
  unfolding begun configured
  start = begun install_crypto (configured (from_env w.boot))

  unfoldable pub main : Outcome d
  main = elim w.arg [ none ↦ start | some a ↦ if a == "--health" then health_probe else start ]
