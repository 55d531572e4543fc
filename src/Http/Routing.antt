-- ===== src/Http/Routing.antt =====
-- What axum documents of its routing, as far as src/signal/http.rs relies on it.
use ababilx_chat_sfu.Shared.{◌≡◌, String, some, List, [], lookup, string_Eq}
use ababilx_chat_sfu.Http.{Axum, Request, Act, Handler, Router}

module _ (a : Axum) where
  -- The same acts, and responses of the same status: an answer to HEAD goes without its body.
  pub record SameAnswer (x y : List Act × a.Response) : Type 0 where
    pub acts : x.0 ≡ y.0
    pub status : a.status x.1 ≡ a.status y.1

  -- A request runs through the layer, to the handler of its path or to axum's own response, which is
  -- for a path without a route or a method that the route does not take.
  pub data Ran (router : Router a) (q : Request a) (answer : List Act × a.Response) : Type 0 where
    routed :
        (h : Handler a)
        → lookup q.path router.routes ≡ some h
        → SameAnswer answer (router.layer h q)
        → Ran router q answer
    refused :
        (response : a.Response)
        → SameAnswer answer (router.layer (λ _. ([], response)) q)
        → Ran router q answer

  -- A GET of a path that has a route gets the answer of its handler.
  pub record IsDocumented (serve : Router a → Request a → List Act × a.Response) : Type 0 where
    pub json_ok : (fields : List (String × String)) → a.status (a.json fields) ≡ 200
    pub found :
        (router : Router a) (q : Request a) (h : Handler a)
        → q.method ≡ "GET"
        → lookup q.path router.routes ≡ some h
        → serve router q ≡ router.layer h q
    pub ran : (router : Router a) (q : Request a) → Ran router q (serve router q)
