-- ===== src/Http.antt =====
-- src/signal/http.rs: the routes of the HTTP server, what each answers, and the layer that logs the
-- requests. axum is a parameter: its answers, its reading of a request, and how it finds a handler.
pub mod Routing
pub mod Requests
pub mod Sockets
pub mod Probes
use ababilx_chat_sfu.Shared.{
  ℕ, String, Option, none, some, List, [], ◌∷◌, ◌++◌, Result, ok, err, if◌then◌else◌, ◌==◌,
  string_Eq,
}
use ababilx_chat_sfu.Auth.{JoinClaims}
use ababilx_chat_sfu.Proto.{ClientMsg, ServerMsg}
use ababilx_chat_sfu.Media.{Deps}
use ababilx_chat_sfu.Config.{Config}
use ababilx_chat_sfu.Session.{Setting, Socket}

-- A response, its status, `Json(..).into_response()` on an object with texts as its fields, and
-- `Html(..).into_response()`.
pub record Axum : Type 1 where
  pub Response : Type 0
  pub status : Response → ℕ
  pub json : List (String × String) → Response
  pub html : String → Response

-- A `WebSocketUpgrade`: the response of `on_upgrade`, the socket that its callback gets, or nothing
-- where the upgrade fails later, and the numbers of the socket's channel and of the join's reply.
pub record Upgrade (a : Axum) : Type 0 where
  pub response : a.Response
  pub socket : Option Socket
  pub out : ℕ
  pub assigned : ℕ

-- What the handlers read of a request: `HeaderMap::get` with `HeaderValue::to_str`, and the extractor
-- of the upgrade, which answers itself where the request is no handshake.
pub record Request (a : Axum) : Type 0 where
  pub method : String
  pub path : String
  pub header : String → Option (Result String String)
  pub upgrade : Result a.Response (Upgrade a)

-- The lines that are logged, and a session that is handed a socket, which it serves from then on.
pub data Act : Type 0 where
  page_opened : (agent : String) → Act
  upgrade_requested : (origin agent : String) → Act
  answered : (method path : String) (status : ℕ) → Act
  session : Setting → Socket → Act

-- The settings, and what the sessions use of Serde and jsonwebtoken.
pub record AppState (d : Deps) : Type 0 where
  pub config : Config d
  pub parse : String → Option ClientMsg
  pub print : ServerMsg → Option String
  pub decode : String → String → Result String JoinClaims

abbrev pub Handler : Axum → Type 0
Handler a = Request a → List Act × a.Response

-- A `Router`: the handlers of GET by path, and the layer around every answer.
pub record Router (a : Axum) : Type 0 where
  pub routes : List (String × Handler a)
  pub layer : Handler a → Handler a

header_or_dash : (String → Option (Result String String)) → String → String
header_or_dash headers name = elim (headers name) [
  | none ↦ "-"
  | some value ↦ elim value [ ok text ↦ text | err _ ↦ "-" ]
]

module _ {a : Axum} where
  healthz : Handler a
  healthz q =
      ([], a.json (("status", "ok") ∷ ("service", "ferrite-sfu") ∷ ("version", "0.1.0") ∷ []))

  -- `page` is the text of diag.html.
  diag : (page : String) → Handler a
  unfolding header_or_dash
  diag page q = (page_opened (header_or_dash q.header "user-agent") ∷ [], a.html page)

  -- The health probe is not logged.
  trace_request : Handler a → Handler a
  trace_request next q =
      let (acts, response) = next q in
      (
        acts
            ++ (if q.path == "/healthz"
                then []
                else answered q.method q.path (a.status response) ∷ []),
        response,
      )

module _ {a : Axum} {d : Deps} where
  unfoldable pub setting : AppState d → Upgrade a → Setting
  setting state u = record {
    parse = state.parse;
    print = state.print;
    decode = state.decode;
    shared_secret = state.config.shared_secret;
    out = u.out;
    assigned = u.assigned;
  }

  opened : AppState d → Upgrade a → List Act
  unfolding setting
  opened state u = elim u.socket [ none ↦ [] | some k ↦ session (setting state u) k ∷ [] ]

  -- A request that is no handshake does not reach the handler's body.
  upgrade : AppState d → Handler a
  unfolding header_or_dash opened
  upgrade state q = elim q.upgrade [
    | err rejection ↦ ([], rejection)
    | ok u ↦ (
      upgrade_requested (header_or_dash q.header "origin") (header_or_dash q.header "user-agent")
          ∷ opened state u,
      u.response,
    )
  ]

  unfoldable pub router : (page : String) → AppState d → Router a
  unfolding healthz diag upgrade trace_request
  router page state = record {
    routes = ("/healthz", healthz) ∷ ("/ws", upgrade state) ∷ ("/diag", diag page) ∷ [];
    layer = trace_request;
  }
