-- ===== src/Http/Sockets.antt =====
-- src/signal/http.rs, `upgrade`: the sessions that requests give rise to.
use ababilx_chat_sfu.Shared.{
  ℕ, ◌≡◌, refl, ap, sym, subst, ◌∙◌, String, Bool, true, false, none, some, List, [], ◌∷◌, ◌++◌, ok,
  if◌then◌else◌, ◌==◌, string_Eq, lookup, inl, inr, Result-cases, Option-cases, All,
}
use ababilx_chat_sfu.Shared.Keys.{lookup_of_all}
use ababilx_chat_sfu.Shared.Texts.{trim}
use ababilx_chat_sfu.Media.{Deps}
use ababilx_chat_sfu.Proto.{ClientMsg}
use ababilx_chat_sfu.Auth.{JoinClaims}
use ababilx_chat_sfu.Auth.Tokens.{IsComplete}
use ababilx_chat_sfu.Engine.{Command}
use ababilx_chat_sfu.Engine
use ababilx_chat_sfu.Session.{Setting, Socket, text, first}
use ababilx_chat_sfu.Session
use ababilx_chat_sfu.Session.Joins.{commands-join}
use ababilx_chat_sfu.Session.Traces.{IsSession, run-IsSession}
use ababilx_chat_sfu.Session.Commands.{commands}
use ababilx_chat_sfu.Http.{
  Axum, Upgrade, Request, Act, page_opened, upgrade_requested, answered, session, AppState, Handler,
  Router, healthz, diag, setting, upgrade, opened, trace_request, router,
}
use ababilx_chat_sfu.Http.Routing.{SameAnswer, routed, refused, IsDocumented}

abbrev pub sessions : List Act → List (Setting × Socket)
sessions [] = []
sessions (page_opened _ ∷ acts) = sessions acts
sessions (upgrade_requested _ _ ∷ acts) = sessions acts
sessions (answered _ _ _ ∷ acts) = sessions acts
sessions (session s k ∷ acts) = (s, k) ∷ sessions acts

-- What the media loop gets from the sessions.
abbrev pub commands_of : List (Setting × Socket) → List Command
commands_of [] = []
commands_of ((s, k) ∷ more) = commands (Session.run s k) ++ commands_of more

-- The layer adds no session.
sessions-line :
    (acts : List Act) (quiet : Bool) (m p : String) (s : ℕ)
    → sessions (acts ++ (if quiet then [] else answered m p s ∷ [])) ≡ sessions acts
sessions-line [] true m p s = refl
sessions-line [] false m p s = refl
sessions-line (page_opened _ ∷ acts) quiet m p s = sessions-line acts quiet m p s
sessions-line (upgrade_requested _ _ ∷ acts) quiet m p s = sessions-line acts quiet m p s
sessions-line (answered _ _ _ ∷ acts) quiet m p s = sessions-line acts quiet m p s
sessions-line (session t k ∷ acts) quiet m p s =
    ap (λ l. (t, k) ∷ l) (sessions-line acts quiet m p s)

module _ (a : Axum) where
  sessions-trace_request :
      (h : Handler a) (q : Request a) → sessions (trace_request h q).0 ≡ sessions (h q).0
  unfolding trace_request
  sessions-trace_request h q =
      sessions-line (h q).0 (q.path == "/healthz") q.method q.path (a.status (h q).1)

module _ (a : Axum) {d : Deps} where
  -- No session, or one on the socket of a handshake for /ws, with the server's secret. What it gives
  -- the media loop is what a session may: a join in an accepted token first, then commands on the peer
  -- that was assigned.
  pub data IsOpening (state : AppState d) (q : Request a) : List (Setting × Socket) → Type 0 where
    closed : IsOpening state q []
    open_on :
        (u : Upgrade a) (k : Socket)
        → q.path ≡ "/ws"
        → q.upgrade ≡ ok u
        → u.socket ≡ some k
        → (setting state u).shared_secret ≡ state.config.shared_secret
        → IsSession (setting state u) k (commands (Session.run (setting state u) k))
        → IsOpening state q ((setting state u, k) ∷ [])

module _ (a : Axum) {d : Deps} (page : String) (state : AppState d) where
  upgrade-opened :
      (q : Request a) (u : Upgrade a)
      → q.upgrade ≡ ok u
      → sessions (upgrade state q).0 ≡ sessions (opened state u)
  unfolding upgrade
  upgrade-opened q u y = rw y refl

  sessions-opened :
      (u : Upgrade a) (k : Socket)
      → u.socket ≡ some k
      → sessions (opened state u) ≡ (setting state u, k) ∷ []
  unfolding opened
  sessions-opened u k s = rw s refl

  sessions-unopened : (u : Upgrade a) → u.socket ≡ none → sessions (opened state u) ≡ []
  unfolding opened
  sessions-unopened u n = rw n refl

  abbrev Opens : String → Handler a → Type 0
  Opens path h = (q : Request a) → q.path ≡ path → IsOpening a state q (sessions (h q).0)

  upgrade-Opens : Opens "/ws" (upgrade state)
  unfolding upgrade opened setting
  upgrade-Opens q path = elim (Result-cases q.upgrade) [
    | inl (u, y) ↦ elim (Option-cases u.socket) [
      | inl n ↦
          subst (IsOpening a state q) (sym (upgrade-opened q u y ∙ sessions-unopened u n)) closed
      | inr (k, s) ↦
          subst (IsOpening a state q) (sym (upgrade-opened q u y ∙ sessions-opened u k s))
            (open_on u k path y s refl (run-IsSession (setting state u) k))
    ]
    | inr (r, n) ↦ rw n closed
  ]

  routes-Opens : All (λ (r : String × Handler a). Opens r.0 r.1) (router page state).routes
  unfolding router healthz diag
  routes-Opens = (λ q path. closed, (upgrade-Opens, (λ q path. closed, tt)))

  served_upgrade :
      (serve : Router a → Request a → List Act × a.Response) (q : Request a)
      → IsDocumented a serve
      → q.method ≡ "GET"
      → q.path ≡ "/ws"
      → serve (router page state) q ≡ trace_request (upgrade state) q
  unfolding router lookup
  served_upgrade serve q doc get path =
      doc.found (router page state) q (upgrade state) get (rw path refl)

  answer-IsOpening :
      (h : Handler a) (q : Request a) (answer : List Act × a.Response)
      → SameAnswer a answer (trace_request h q)
      → IsOpening a state q (sessions (h q).0)
      → IsOpening a state q (sessions answer.0)
  answer-IsOpening h q answer same o =
      subst (IsOpening a state q) (sym (ap sessions same.acts ∙ sessions-trace_request a h q)) o

  -- Whatever request comes, the server opens at most one session for it: only for /ws, on the socket of
  -- a handshake that axum took, and with the secret of the server's settings. The media loop gets from
  -- it no command before the socket's first frame has brought a join in an accepted and complete token,
  -- and none on another peer than the one that is assigned.
  pub router-IsOpening :
      (serve : Router a → Request a → List Act × a.Response) (q : Request a)
      → IsDocumented a serve
      → IsOpening a state q (sessions (serve (router page state) q).0)
  unfolding router
  router-IsOpening serve q doc = elim (doc.ran (router page state) q) [
    | routed h at same ↦
        answer-IsOpening h q _ same (lookup_of_all Opens _ q.path h routes-Opens at q refl)
    | refused r same ↦ answer-IsOpening (λ _. ([], r)) q _ same closed
  ]

  -- A handshake for /ws whose socket opens with a join in an accepted and complete token brings that
  -- join to the media loop, if the loop still takes commands, before any other command of the socket.
  pub router-join :
      (serve : Router a → Request a → List Act × a.Response) (q : Request a) (u : Upgrade a)
      (k : Socket) (frame token sdp : String) (claims : JoinClaims)
      → IsDocumented a serve
      → q.method ≡ "GET"
      → q.path ≡ "/ws"
      → q.upgrade ≡ ok u
      → u.socket ≡ some k
      → k.opening ≡ first (text frame)
      → state.parse frame ≡ some (ClientMsg.join token sdp)
      → state.decode (trim token) state.config.shared_secret ≡ ok claims
      → IsComplete claims
      → k.join_open ≡ true
      → (rest : List Command) × (commands_of (sessions (serve (router page state) q).0)
          ≡ Engine.join (record { claims = claims; sdp = sdp; out = u.out; assigned = u.assigned })
            ∷ rest)
  unfolding setting
  router-join serve q u k frame token sdp claims doc get path shaken socket at read taken complete
        up =
      let (rest, heard) =
        commands-join (setting state u) k frame token sdp claims at read taken complete up in
      let session_of : sessions (serve (router page state) q).0 ≡ (setting state u, k) ∷ [] =
        ap (λ (r : List Act × a.Response). sessions r.0) (served_upgrade serve q doc get path)
        ∙ sessions-trace_request a (upgrade state) q
        ∙ upgrade-opened q u shaken
        ∙ sessions-opened u k socket in
      (rest ++ [], ap commands_of session_of ∙ ap (λ l. l ++ []) heard)
