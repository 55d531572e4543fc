-- ===== src/Http/Requests.antt =====
-- src/signal/http.rs, `trace_request` and `healthz`: the requests that are logged, and the probe of
-- src/main.rs that is not.
use ababilx_chat_sfu.Shared.{
  ℕ, ◌≡◌, refl, ap, sym, ◌∙◌, String, List, [], ◌∷◌, ◌++◌, if◌then◌else◌, ◌==◌, string_Eq,
  Bool-cases, inl, inr, Result-cases, Option-cases, All,
}
use ababilx_chat_sfu.Shared.Keys.{lookup_of_all}
use ababilx_chat_sfu.Media.{Deps}
use ababilx_chat_sfu.Http.{
  Axum, Request, Act, page_opened, upgrade_requested, answered, session, AppState, Handler, Router,
  healthz, diag, upgrade, trace_request, router,
}
use ababilx_chat_sfu.Http.Routing.{SameAnswer, routed, refused, IsDocumented}

-- The lines of the layer: method, path and status.
abbrev pub requests_logged : List Act → List (String × String × ℕ)
requests_logged [] = []
requests_logged (page_opened _ ∷ acts) = requests_logged acts
requests_logged (upgrade_requested _ _ ∷ acts) = requests_logged acts
requests_logged (answered method path status ∷ acts) = (method, path, status) ∷ requests_logged acts
requests_logged (session _ _ ∷ acts) = requests_logged acts

requests_logged-append :
    (x y : List Act) → requests_logged (x ++ y) ≡ requests_logged x ++ requests_logged y
requests_logged-append [] y = refl
requests_logged-append (page_opened _ ∷ x) y = requests_logged-append x y
requests_logged-append (upgrade_requested _ _ ∷ x) y = requests_logged-append x y
requests_logged-append (answered m p s ∷ x) y = ap (λ l. (m, p, s) ∷ l) (requests_logged-append x y)
requests_logged-append (session _ _ ∷ x) y = requests_logged-append x y

module _ {a : Axum} where
  abbrev line_of : Request a → ℕ → List (String × String × ℕ)
  line_of q status = if q.path == "/healthz" then [] else (q.method, q.path, status) ∷ []

  -- A handler that leaves the lines to the layer.
  abbrev IsSilent : Handler a → Type 0
  IsSilent h = (q : Request a) → requests_logged (h q).0 ≡ []

  logged-trace_request :
      (h : Handler a) (q : Request a)
      → IsSilent h
      → requests_logged (trace_request h q).0 ≡ line_of q (a.status (trace_request h q).1)
  unfolding trace_request
  logged-trace_request h q silent =
      requests_logged-append (h q).0 _
      ∙ ap
          (λ l.
            l
            ++ requests_logged (
                if q.path == "/healthz"
                then []
                else answered q.method q.path (a.status (h q).1) ∷ []))
          (silent q)
      ∙ elim (Bool-cases (q.path == "/healthz")) [ inl y ↦ rw y refl | inr n ↦ rw n refl ]

  logged-answer :
      (h : Handler a) (q : Request a) (answer : List Act × a.Response)
      → SameAnswer a answer (trace_request h q)
      → IsSilent h
      → requests_logged answer.0 ≡ line_of q (a.status answer.1)
  logged-answer h q answer same silent =
      ap requests_logged same.acts
      ∙ logged-trace_request h q silent
      ∙ ap (line_of q) (sym same.status)

module _ (a : Axum) {d : Deps} (page : String) (state : AppState d) where
  -- Only the handlers' own lines are theirs.
  upgrade-IsSilent : IsSilent {a = a} (upgrade state)
  unfolding upgrade
  upgrade-IsSilent q = elim (Result-cases q.upgrade) [
    | inl (u, y) ↦ elim (Option-cases u.socket) [
      | inl n ↦ rw (y, n) refl
      | inr (k, s) ↦ rw (y, s) refl
    ]
    | inr (r, n) ↦ rw n refl
  ]

  routes-IsSilent : All (λ (r : String × Handler a). IsSilent r.1) (router page state).routes
  unfolding router healthz diag
  routes-IsSilent = (λ q. refl, (upgrade-IsSilent, (λ q. refl, tt)))

  -- Whatever axum answers, the log gets one line for it with the method, the path and the status that
  -- the client sees, and none for a probe of the health.
  pub requests_logged-router :
      (serve : Router a → Request a → List Act × a.Response) (q : Request a)
      → IsDocumented a serve
      → requests_logged (serve (router page state) q).0 ≡ (
          if q.path == "/healthz"
          then []
          else (q.method, q.path, a.status (serve (router page state) q).1) ∷ [])
  unfolding router
  requests_logged-router serve q doc = elim (doc.ran (router page state) q) [
    | routed h at same ↦
        logged-answer h q _ same (lookup_of_all (λ _ h. IsSilent h) _ q.path h routes-IsSilent at)
    | refused r same ↦ logged-answer (λ _. ([], r)) q _ same (λ q. refl)
  ]
