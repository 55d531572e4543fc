-- ===== src/Samples/Requests.antt =====
-- Requests to the HTTP server, on which the theorems about it are applied.
use ababilx_chat_sfu.Shared.{
  ℕ, ◌≡◌, refl, String, Option, none, some, List, [], ◌∷◌, ok, if◌then◌else◌, ◌==◌, string_Eq,
  lookup, arith, Bool-cases, Option-cases, inl, inr,
}
use ababilx_chat_sfu.Shared.Texts.{has_colon, trim}
use ababilx_chat_sfu.Auth.Tokens.{IsComplete}
use ababilx_chat_sfu.Process.{main}
use ababilx_chat_sfu.Engine.{Command}
use ababilx_chat_sfu.Engine
use ababilx_chat_sfu.Http.{Axum, Upgrade, Request, Act, AppState, Handler, Router, router}
use ababilx_chat_sfu.Http.Routing.{IsDocumented, Ran, routed, refused}
use ababilx_chat_sfu.Http.Requests.{requests_logged, requests_logged-router}
use ababilx_chat_sfu.Http.Sockets.{sessions, commands_of, IsOpening, router-IsOpening, router-join}
use ababilx_chat_sfu.Http.Probes.{main-router-healthz}
use ababilx_chat_sfu.Samples.{toy, settings, joining}
use ababilx_chat_sfu.Samples.Edges.{toy_frame, toy_decode, socket}
use ababilx_chat_sfu.Samples.Boots.{world}

-- A response is its status.
abbrev toy_axum : Axum
toy_axum = record { Response = ℕ; status = λ r. r; json = λ fields. 200; html = λ text. 200 }

abbrev or_404 : Option (Handler toy_axum) → Handler toy_axum
or_404 none = λ q. ([], 404)
or_404 (some h) = h

-- Every method but GET is refused.
toy_serve : Router toy_axum → Request toy_axum → List Act × ℕ
toy_serve rt q =
    if q.method == "GET"
    then rt.layer (or_404 (lookup q.path rt.routes)) q
    else rt.layer (λ _. ([], 405)) q

toy_found :
    (rt : Router toy_axum) (q : Request toy_axum) (h : Handler toy_axum)
    → q.method ≡ "GET"
    → lookup q.path rt.routes ≡ some h
    → toy_serve rt q ≡ rt.layer h q
unfolding toy_serve
toy_found rt q h get at = rw (get, at) refl

toy-Ran : (rt : Router toy_axum) (q : Request toy_axum) → Ran toy_axum rt q (toy_serve rt q)
unfolding toy_serve
toy-Ran rt q = elim (Bool-cases (q.method == "GET")) [
  | inl get ↦ elim (Option-cases (lookup q.path rt.routes)) [
    | inl n ↦ refused 404 (record { acts = rw (get, n) refl; status = rw (get, n) refl })
    | inr (h, at) ↦ routed h at (record { acts = rw (get, at) refl; status = rw (get, at) refl })
  ]
  | inr other ↦ refused 405 (record { acts = rw other refl; status = rw other refl })
]

toy_serve-IsDocumented : IsDocumented toy_axum toy_serve
toy_serve-IsDocumented = record { json_ok = λ fields. refl; found = toy_found; ran = toy-Ran }

abbrev state : AppState toy
state = record { config = settings; parse = toy_frame; print = λ m. none; decode = toy_decode }

abbrev handshake : Upgrade toy_axum
handshake = record { response = 101; socket = some socket; out = 1; assigned = 1 }

abbrev get : String → Request toy_axum
get path = record { method = "GET"; path = path; header = λ name. none; upgrade = ok handshake }

requests_logged-router_example :
    requests_logged (toy_serve (router "page" state) (get "/other")).0 ≡ ("GET", "/other", 404) ∷ []
unfolding toy_serve router lookup
requests_logged-router_example =
    requests_logged-router toy_axum "page" state toy_serve (get "/other") toy_serve-IsDocumented

router-IsOpening_example :
    IsOpening toy_axum state (get "/ws") (sessions (toy_serve (router "page" state) (get "/ws")).0)
router-IsOpening_example =
    router-IsOpening toy_axum "page" state toy_serve (get "/ws") toy_serve-IsDocumented

ada-IsComplete : IsComplete (joining "ada" "sdp" 1).claims
ada-IsComplete = record {
  has_user = ground (arith, string_Eq.matches_iff "ada" "");
  has_room = ground (arith, string_Eq.matches_iff "r" "");
  has_call = ground (arith, string_Eq.matches_iff "c" "");
}

router-join_example :
    (rest : List Command) × (commands_of (sessions (toy_serve (router "page" state) (get "/ws")).0)
      ≡ Engine.join (joining "ada" "sdp" 1) ∷ rest)
unfolding trim
router-join_example =
    router-join toy_axum "page" state toy_serve (get "/ws") handshake socket "join" " ada " "sdp"
      (joining "ada" "sdp" 1).claims toy_serve-IsDocumented refl refl refl refl refl refl refl
      ada-IsComplete refl

main-router-healthz_example :
    ((main (world (some "--health"))).result ≡ ok tt)
    × ((toy_serve (router "page" state) (get "/healthz")).0 ≡ [])
unfolding has_colon toy_serve router lookup
main-router-healthz_example =
    main-router-healthz toy_axum "page" state toy_serve (get "/healthz") (world (some "--health"))
      "0.0.0.0" "80" toy_serve-IsDocumented refl refl refl refl refl refl
