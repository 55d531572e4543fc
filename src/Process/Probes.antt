-- ===== src/Process/Probes.antt =====
-- src/main.rs, `health_probe`: which server the probe asks.
use Prim.Native.String.append
use Prim.Native.String.{[], ◌∷◌, ◌++◌}
use ababilx_chat_sfu.Shared.{
  ℕ, ◌≡◌, ◌↔◌, ◌≤◌, ◌<◌, ap, ◌∙◌, refl, String, true, false, some, ok, err, Result, arith,
}
use ababilx_chat_sfu.Shared.Texts.{after_last_colon, has_colon}
use ababilx_chat_sfu.Shared.{List}
use ababilx_chat_sfu.Media.{Deps}
use ababilx_chat_sfu.Config.{or_else}
use ababilx_chat_sfu.Process.{World, health_probe, main, health_result}

has_colon-append : (host port : String) → has_colon (host ++ (":" ++ port)) ≡ true
unfolding has_colon
has_colon-append [] port = rw (append.nil (":" ++ port), append.cons ":" [] port) refl
has_colon-append (c ∷ host) port =
    rw (append.cons c host (":" ++ port)) (ground (arith, has_colon-append host port))

pub after_last_colon-append :
    (host port : String) → has_colon port ≡ false → after_last_colon (host ++ (":" ++ port)) ≡ port
unfolding after_last_colon
after_last_colon-append [] port h =
    rw (append.nil (":" ++ port), append.cons ":" [] port, append.nil port) (ground (arith, h))
after_last_colon-append (c ∷ host) port h =
    rw (append.cons c host (":" ++ port))
      (ground (arith, has_colon-append host port, after_last_colon-append host port h))

health_result_iff :
    (r : Result String ℕ)
    → (health_result r ≡ ok tt) ↔ ((status : ℕ) × (r ≡ ok status) × (200 ≤ status) × (status < 300))
unfolding health_result
health_result_iff (err e) =
    (λ h. absurd (ground (arith, h)), λ (s, h, _, _). absurd (ground (arith, h)))
health_result_iff (ok s) = (
  λ h. (s, refl, ground (arith, h), ground (arith, h)),
  λ (k, same, low, high). ground (arith, same, low, high),
)

module _ {d : Deps} (w : World d) where
  -- With `--health` as its first argument the process starts nothing. It asks the local host at the
  -- port of the setting for the signaling server's address, which is what follows its last colon, as it
  -- stands, and it ends without a fault exactly if the answer has a status from 200 to 299.
  pub main-health :
      (host port : String)
      → w.arg ≡ some "--health"
      → or_else (w.boot.var "SFU_BIND_HTTP") "0.0.0.0:7898" ≡ host ++ (":" ++ port)
      → has_colon port ≡ false
      → ((main w).acts ≡ List.[])
        × (((main w).result ≡ ok tt) ↔ (
            (status : ℕ) × (w.get ("http://127.0.0.1:" ++ (port ++ "/healthz")) ≡ ok status)
            × (200 ≤ status)
            × (status < 300)))
  unfolding main health_probe
  main-health host port probing set no_colon =
      let port_asked : after_last_colon (or_else (w.boot.var "SFU_BIND_HTTP") "0.0.0.0:7898")
          ≡ port =
        ap after_last_colon set ∙ after_last_colon-append host port no_colon in
      rw (probing, port_asked)
        (refl, health_result_iff (w.get ("http://127.0.0.1:" ++ (port ++ "/healthz"))))
