-- ===== src/Http/Probes.antt =====
-- src/signal/http.rs, `healthz`, as src/main.rs, `health_probe`, asks for it.
use Prim.Native.String.{◌++◌ as ◌+++◌}
use ababilx_chat_sfu.Shared.{
  ◌≡◌, refl, ap, ◌∙◌, String, false, some, ok, List, [], lookup, string_Eq, arith,
}
use ababilx_chat_sfu.Shared.Texts.{has_colon}
use ababilx_chat_sfu.Media.{Deps}
use ababilx_chat_sfu.Config.{or_else}
use ababilx_chat_sfu.Process.{World, main}
use ababilx_chat_sfu.Process.Probes.{main-health}
use ababilx_chat_sfu.Http.{Axum, Request, Act, AppState, Router, router, healthz, trace_request}
use ababilx_chat_sfu.Http.Routing.{IsDocumented}

module _ (a : Axum) {d : Deps} (page : String) (state : AppState d) where
  served_healthz :
      (serve : Router a → Request a → List Act × a.Response) (q : Request a)
      → IsDocumented a serve
      → q.method ≡ "GET"
      → q.path ≡ "/healthz"
      → serve (router page state) q ≡ trace_request healthz q
  unfolding router lookup
  served_healthz serve q doc get path = doc.found (router page state) q healthz get (rw path refl)

  -- The process, started with `--health`, finds healthy a server whose router answers the GET of
  -- /healthz that it sends, whatever the server's settings are, and the server does nothing for it: it
  -- logs no line and opens no session.
  pub main-router-healthz :
      (serve : Router a → Request a → List Act × a.Response) (q : Request a) (w : World d)
      (host port : String)
      → IsDocumented a serve
      → q.method ≡ "GET"
      → q.path ≡ "/healthz"
      → w.arg ≡ some "--health"
      → or_else (w.boot.var "SFU_BIND_HTTP") "0.0.0.0:7898" ≡ host +++ (":" +++ port)
      → has_colon port ≡ false
      → w.get ("http://127.0.0.1:" +++ (port +++ "/healthz"))
        ≡ ok (a.status (serve (router page state) q).1)
      → ((main w).result ≡ ok tt) × ((serve (router page state) q).0 ≡ [])
  unfolding trace_request healthz
  main-router-healthz serve q w host port doc get path probing set no_colon asked =
      let at = served_healthz serve q doc get path in
      let fine : a.status (serve (router page state) q).1 ≡ 200 =
        ap (λ (r : List Act × a.Response). a.status r.1) at ∙ doc.json_ok _ in
      (
        (main-health w host port probing set no_colon).1.1
            (200, asked ∙ ap ok fine, omega arith, omega arith),
        ap (λ (r : List Act × a.Response). r.0) at ∙ rw path refl,
      )
